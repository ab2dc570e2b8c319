-- ===== src/Compare/Match/Accounted.antt =====
-- Every variant is accounted for: the records of a scenario show each one that has no equal counterpart.
use glassroot.Common.{
  ℕ, ◌+◌, ◌≤◌, ◌≡◌, refl, sym, ap, ◌∙◌, String, Bool, true, false, not, ◌||◌, ◌&&◌, some, List, [],
  ◌∷◌, ◌++◌, map, any, any-append, count, count-append, count-sort, select, find, length, All,
  contains_string, str_eq, string_lt, sort, Option-cases, inl, inr, arith,
}
use glassroot.Compare.Variants.{Variant, Names, Hashes, has_key, keys_of}
use glassroot.Compare.Records.{removed_record, added_record, make_record}
use glassroot.Compare.Match.{
  Comparing, union_keys, anchors_of, compare_keys, compare_anchors, anchored, left_over,
  compare_variants,
}
use glassroot.Compare.Match.Counting.{
  str_eq_refl, Once, union_keys-Once, union_keys-times, count-ext, count_not, count_without,
  All-map, All-pure, All-two, count_by_name, any_name, count-select, length-select, count-map,
  count_always, count_never, select-only, found_counts,
}
use glassroot.Compare.Match.Marks.{
  Side, of_base, of_head, pick, variants, observed, mark, is_some, paired, equal_at, paired_in,
  mark-compare_keys, observed-compare_keys,
}
use glassroot.Compare.Match.Anchors.{
  pair-single, pair_at, taken_by, taken_in, mark-compare_anchors, observed-compare_anchors,
}

abbrev pub UniqueKeys : List Variant → Type 0
UniqueKeys vs = (k : String) → count (has_key k) vs ≤ 1

abbrev pub Fresh : List Variant → Type 0
Fresh vs = All (λ (v : Variant). v.consumed ≡ false) vs

abbrev remaining : List Variant → ℕ
remaining vs = count (λ (v : Variant). not v.consumed) vs

or_false : (b : Bool) → (b || false) ≡ b
or_false true = refl
or_false false = refl

-- The marks tell which variants remain and do not change the keys.
remaining-mark :
    (q : Variant → Bool) (vs ws : List Variant)
    → mark (λ v. false) vs ≡ mark q ws
    → remaining vs ≡ count (λ (v : Variant). not (v.consumed || q v)) ws
remaining-mark q vs ws h =
    count-ext _ _ vs (All-pure vs (λ (v : Variant). ap not (sym (or_false v.consumed))))
    ∙ sym (
        count-map (λ (v : Variant). not v.consumed)
          (λ (v : Variant). record v { consumed = v.consumed || false; ambiguous = false }) vs)
    ∙ ap remaining h
    ∙ count-map (λ (v : Variant). not v.consumed)
        (λ (v : Variant). record v { consumed = v.consumed || q v; ambiguous = false }) ws

keys-mark :
    (q : Variant → Bool) (vs ws : List Variant)
    → mark (λ v. false) vs ≡ mark q ws
    → (k : String) → count (has_key k) vs ≡ count (has_key k) ws
keys-mark q vs ws h k =
    sym (
      count-map (has_key k)
        (λ (v : Variant). record v { consumed = v.consumed || false; ambiguous = false }) vs)
    ∙ ap (count (has_key k)) h
    ∙ count-map (has_key k)
        (λ (v : Variant). record v { consumed = v.consumed || q v; ambiguous = false }) ws

contains-left :
    (k : String) (xs ys : List String)
    → contains_string k xs ≡ true
    → contains_string k (xs ++ ys) ≡ true
contains-left k xs ys h = rw (any-append (λ x. str_eq x k) xs ys, h) refl

contains-right :
    (k : String) (xs ys : List String)
    → contains_string k ys ≡ true
    → contains_string k (xs ++ ys) ≡ true
contains-right k xs ys h = ground (arith, any-append (λ x. str_eq x k) xs ys)

contains-side :
    (side : Side) (k : String) (base head : List Variant)
    → contains_string k (keys_of (pick side base head)) ≡ true
    → contains_string k (keys_of base ++ keys_of head) ≡ true
contains-side of_base k base head h = contains-left k (keys_of base) (keys_of head) h
contains-side of_head k base head h = contains-right k (keys_of base) (keys_of head) h

keys_there :
    (ks : List String) (vs : List Variant)
    → ((k : String) → contains_string k (keys_of vs) ≡ true → contains_string k ks ≡ true)
    → All (λ (v : Variant). contains_string v.key ks ≡ true) vs
keys_there ks [] h = tt
keys_there ks (v ∷ vs) h =
    (h v.key (ground (arith, str_eq_refl v.key)), keys_there ks vs (λ k e. h k (ground arith)))

paired-there :
    (side : Side) (base head : List Variant) (k : String)
    → paired base head k ≡ true
    → 1 ≤ count (has_key k) (pick side base head)
paired-there of_base base head k h = found_counts (has_key k) base (λ e. absurd (ground arith))
paired-there of_head base head k h = found_counts (has_key k) head (λ e. absurd (ground arith))

equal-paired :
    (base head : List Variant) (k : String)
    → equal_at base head k ≡ (paired base head k && equal_at base head k)
unfolding equal_at
equal-paired base head k = elim (Option-cases (find (has_key k) base)) [
  | inl e ↦ rw e refl
  | inr (b, e) ↦ elim (Option-cases (find (has_key k) head)) [
    | inl f ↦ rw (e, f) refl
    | inr (h, f) ↦ rw (e, f) refl
  ]
]

module _ (hashes : Hashes) (scenario : String) (base head : List Variant) (side : Side) where
  abbrev keys : List String
  keys = union_keys (keys_of base) (keys_of head)

  abbrev own : List Variant
  own = pick side base head

  one_each :
      UniqueKeys own
      → (holds : String → Bool) → ((k : String) → holds k ≡ true → paired base head k ≡ true)
      → All (λ k. holds k ≡ true → count (has_key k) own ≡ 1) keys
  one_each unique holds sub =
      All-pure keys (λ k h. omega (arith, unique k, paired-there side base head k (sub k h)))

  count-paired :
      UniqueKeys own
      → count (paired_in hashes scenario base head keys) own ≡ count (paired base head) keys
  count-paired unique =
      count_by_name (λ (v : Variant). v.key) (paired base head) own keys
        (union_keys-Once (keys_of base) (keys_of head))
        (one_each unique (paired base head) (λ k h. h))

  count-equal :
      UniqueKeys own
      → count (λ (v : Variant). equal_at base head v.key) own ≡ count (equal_at base head) keys
  count-equal unique =
      count-ext _ _ own (
        All-map own
          (λ (v : Variant) h. sym (
            any_name (λ (w : Variant). w.key) (equal_at base head) own keys v
              (union_keys-times (keys_of base) (keys_of head) v.key h)))
          (keys_there (keys_of base ++ keys_of head) own (λ k. contains-side side k base head)))
      ∙ count_by_name (λ (v : Variant). v.key) (equal_at base head) own keys
          (union_keys-Once (keys_of base) (keys_of head))
          (one_each unique (equal_at base head) (λ k h. ground (arith, equal-paired base head k)))

  abbrev started : Comparing
  started = record { base = base; head = head; records = [] }

  abbrev pub after_keys : Comparing
  after_keys = compare_keys hashes scenario base head keys started

  variants-started : variants side started ≡ own
  variants-started = elim side [ of_base ↦ refl | of_head ↦ refl ]

  mark-after_keys :
      mark (λ v. false) (variants side after_keys)
      ≡ mark (paired_in hashes scenario base head keys) own
  mark-after_keys =
      mark-compare_keys hashes scenario base head side keys started
      ∙ ap (mark (paired_in hashes scenario base head keys)) variants-started

  pub unique-after_keys : UniqueKeys own → UniqueKeys (variants side after_keys)
  unique-after_keys unique k = omega (
    arith,
    unique k,
    keys-mark (paired_in hashes scenario base head keys) (variants side after_keys) own
        mark-after_keys k,
  )

  -- The loop over the keys accounts for the variants it consumes.
  pub remaining-after_keys :
      UniqueKeys own
      → Fresh own
      → count (observed side) after_keys.records + remaining (variants side after_keys)
        ≡ count (λ (v : Variant). not (equal_at base head v.key)) own
  remaining-after_keys unique fresh =
      let left =
        remaining-mark (paired_in hashes scenario base head keys) (variants side after_keys) own
          mark-after_keys
        ∙ count-ext _ _ own (
            All-map own
              (λ (v : Variant) h. ap (λ b. not (b || paired_in hashes scenario base head keys v)) h)
              fresh) in
      let shown = observed-compare_keys hashes scenario base head side keys started in
      let both = count_without (paired base head) (equal_at base head) keys in
      let same : count (equal_at base head) keys
          ≡ count (λ k. paired base head k && equal_at base head k) keys =
        count-ext _ _ keys (All-pure keys (equal-paired base head)) in
      omega (
        arith,
        left,
        shown,
        both,
        same,
        count-paired unique,
        count-equal unique,
        count_not (paired_in hashes scenario base head keys) own,
        count_not (λ (v : Variant). equal_at base head v.key) own,
      )

-- A variant that is left and has an anchor.
abbrev eligible : Variant → Bool
eligible v = not v.consumed && not (str_eq v.anchor "")

any-and {ℓ} :
    {A : Type ℓ} (p q : Bool) (f g : A → Bool) (xs : List A)
    → All (λ x. (p && f x) ≡ (q && g x)) xs
    → (p && any f xs) ≡ (q && any g xs)
any-and p q f g [] h = ground arith
any-and p q f g (x ∷ xs) h = ground (arith, h.0, any-and p q f g xs h.1)

All-swap {ℓ κ μ} :
    {A : Type ℓ} {B : Type κ} (R : A → B → Type μ) (xs : List A) (ys : List B)
    → ((x : A) → All (R x) ys)
    → All (λ y. All (λ x. R x y) xs) ys
All-swap R [] ys h = All-pure ys (λ y. tt)
All-swap R (x ∷ xs) ys h = All-two ys (λ y r rs. (r, rs)) (h x) (All-swap R xs ys h)

module _ (names : Names) (hashes : Hashes) (scenario : String) (base head : List Variant)
    (side : Side) where
  abbrev mine : List Variant
  mine = pick side base head

  abbrev meets : String → Bool
  meets a = is_some (pair_at names hashes scenario base head a)

  chosen :
      (a : String) (m : Variant × Variant)
      → pair_at names hashes scenario base head a ≡ some m
      → select (anchored a) mine ≡ pick side m.0 m.1 ∷ []
  chosen a m e =
      picked side
      ∙ pair-single names hashes scenario base head (select (anchored a) base)
          (select (anchored a) head) m e side
    where
      picked :
          (side' : Side)
          → select (anchored a) (pick side' base head)
            ≡ pick side' (select (anchored a) base) (select (anchored a) head)
      picked of_base = refl
      picked of_head = refl

  -- Among the variants that are left, the key of the chosen one and its anchor choose the same.
  by_anchor :
      UniqueKeys mine
      → (a : String)
      → All
          (λ (v : Variant).
            (not v.consumed
              && taken_by names hashes scenario base head side
                  (pair_at names hashes scenario base head a)
                  v.key)
            ≡ (eligible v && (meets a && str_eq v.anchor a)))
          mine
  by_anchor unique a = elim (Option-cases (pair_at names hashes scenario base head a)) [
    | inl e ↦ All-pure mine (λ (v : Variant). rw e (ground arith))
    | inr (m, e) ↦
        let only =
          select-only (anchored a) (has_key (pick side m.0 m.1).key) (pick side m.0 m.1) mine
            (chosen a m e) (str_eq_refl (pick side m.0 m.1).key) (unique (pick side m.0 m.1).key) in
        All-map mine (λ (v : Variant) h. rw e (same v (str_eq v.key (pick side m.0 m.1).key) h))
          only
  ]
    where
      same :
          (v : Variant) (k : Bool)
          → anchored a v ≡ k
          → (not v.consumed && k) ≡ (eligible v && (true && str_eq v.anchor a))
      same v k h = ground arith

  one_anchored :
      (a : String)
      → meets a ≡ true
      → count (λ (v : Variant). str_eq v.anchor a) (select eligible mine) ≡ 1
  one_anchored a h = elim (Option-cases (pair_at names hashes scenario base head a)) [
    | inl e ↦ absurd (ground arith)
    | inr (m, e) ↦
        count-select eligible (λ (v : Variant). str_eq v.anchor a) mine
        ∙ sym (length-select (anchored a) mine)
        ∙ ap length (chosen a m e)
  ]

  taken_count :
      (xs : List String)
      → Once xs
      → UniqueKeys mine
      → count
          (λ (v : Variant). not v.consumed && taken_in names hashes scenario base head side xs v)
          mine
        ≡ count meets xs
  taken_count xs once unique =
      count-ext _ _ mine (
        All-map mine
          (λ (v : Variant) h.
            any-and (not v.consumed) (eligible v) _ (λ a. meets a && str_eq v.anchor a) xs h)
          (All-swap _ xs mine (by_anchor unique)))
      ∙ sym
          (count-select eligible (λ (v : Variant). any (λ a. meets a && str_eq v.anchor a) xs) mine)
      ∙ count_by_name (λ (v : Variant). v.anchor) meets (select eligible mine) xs once
          (All-pure xs one_anchored)

  -- The loop over the anchors accounts for the variants it consumes.
  pub remaining-compare_anchors :
      (xs : List String) (s : Comparing)
      → variants side s ≡ mine
      → Once xs
      → UniqueKeys mine
      → count (observed side) (compare_anchors names hashes scenario base head xs s).records
          + remaining (variants side (compare_anchors names hashes scenario base head xs s))
        ≡ count (observed side) s.records + remaining mine
  remaining-compare_anchors xs s start once unique =
      let taken = taken_in names hashes scenario base head side xs in
      let left =
        remaining-mark taken (variants side (compare_anchors names hashes scenario base head xs s))
          mine
          (mark-compare_anchors names hashes scenario base head side xs s
            ∙ ap (mark taken) start) in
      let shown = observed-compare_anchors names hashes scenario base head side xs s in
      let flip =
        count-ext _ _ mine (All-pure mine (λ (v : Variant). de_morgan v.consumed (taken v))) in
      omega (
        arith,
        left,
        shown,
        flip,
        count_without (λ (v : Variant). not v.consumed) taken mine,
        taken_count xs once unique,
      )
    where
      de_morgan : (b c : Bool) → not (b || c) ≡ (not b && not c)
      de_morgan b c = ground arith

left_count : (vs : List Variant) → length (left_over vs) ≡ remaining vs
unfolding sort
left_count vs =
    length-select (λ (v : Variant). not v.consumed)
      (sort (λ (a b : Variant). string_lt a.key b.key) vs)
    ∙ count-sort (λ (a b : Variant). string_lt a.key b.key) (λ (v : Variant). not v.consumed) vs

-- The records of the variants that are left show one side each.
rest_count :
    (hashes : Hashes) (scenario : String) (base_complete head_complete : Bool) (side : Side)
    (bs hs : List Variant)
    → count (observed side) (
        map (removed_record hashes scenario head_complete) bs
        ++ map (added_record hashes scenario base_complete) hs)
      ≡ length (pick side bs hs)
unfolding make_record
rest_count hashes scenario base_complete head_complete of_base bs hs = omega (
  arith,
  count-append (observed of_base) (map (removed_record hashes scenario head_complete) bs)
      (map (added_record hashes scenario base_complete) hs),
  count-map (observed of_base) (removed_record hashes scenario head_complete) bs ∙ count_always bs,
  count-map (observed of_base) (added_record hashes scenario base_complete) hs ∙ count_never hs,
)
rest_count hashes scenario base_complete head_complete of_head bs hs = omega (
  arith,
  count-append (observed of_head) (map (removed_record hashes scenario head_complete) bs)
      (map (added_record hashes scenario base_complete) hs),
  count-map (observed of_head) (removed_record hashes scenario head_complete) bs ∙ count_never bs,
  count-map (observed of_head) (added_record hashes scenario base_complete) hs ∙ count_always hs,
)

left_side :
    (side : Side) (s : Comparing)
    → length (pick side (left_over s.base) (left_over s.head)) ≡ remaining (variants side s)
left_side of_base s = left_count s.base
left_side of_head s = left_count s.head

module _ (names : Names) (hashes : Hashes) (scenario : String) (base_complete head_complete : Bool)
    (base head : List Variant) where
  -- Each variant of a side that has no counterpart with the same occurrences is shown by one record of
  -- that side.
  pub compare_variants-observed :
      (side : Side)
      → UniqueKeys (pick side base head)
      → Fresh (pick side base head)
      → count
          (observed side)
          (compare_variants names hashes scenario base_complete head_complete base head)
        ≡ count (λ (v : Variant). not (equal_at base head v.key)) (pick side base head)
  unfolding compare_variants
  compare_variants-observed side unique fresh =
      let s : Comparing = after_keys hashes scenario base head side in
      let xs = union_keys (anchors_of s.base) (anchors_of s.head) in
      let done : Comparing = compare_anchors names hashes scenario s.base s.head xs s in
      omega (
        arith,
        count-append (observed side) done.records (
            map (removed_record hashes scenario head_complete) (left_over done.base)
            ++ map (added_record hashes scenario base_complete) (left_over done.head)),
        rest_count hashes scenario base_complete head_complete side (left_over done.base)
            (left_over done.head),
        left_side side done,
        remaining-compare_anchors names hashes scenario s.base s.head side xs s refl
            (union_keys-Once (anchors_of s.base) (anchors_of s.head))
            (unique-after_keys hashes scenario base head side unique),
        remaining-after_keys hashes scenario base head side unique fresh,
      )
