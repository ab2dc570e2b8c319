-- ===== src/Compare/Match/Marks.antt =====
-- What the loops over the keys and the anchors do to the flags of the variants and to the records.
use glassroot.Common.{
  ℕ, suc, ◌+◌, ◌≡◌, refl, ap, ap₂, ◌∙◌, String, Bool, true, false, not, ◌||◌, ◌&&◌, Option, none,
  some, List, [], ◌∷◌, map, any, count, count-append, find, find-test, str_eq, eq_iff,
  if◌then◌else◌, Bool-cases, inl, inr, arith,
}
use glassroot.Model.{DeltaKind, DeltaRecord}
use glassroot.Compare.Variants.{Variant, Hashes, has_key, occurrence_equal}
use glassroot.Compare.Records.{make_record}
use glassroot.Compare.Match.{
  Comparing, consume, mark_ambiguous, compare_pair, compare_found, compare_keys,
}

-- Statements about both sides are made once.
pub data Side : Type 0 where
  of_base of_head : Side

abbrev pub pick {ℓ} : {A : Type ℓ} → Side → A → A → A
pick of_base b h = b
pick of_head b h = h

abbrev pub variants : Side → Comparing → List Variant
variants side s = pick side s.base s.head

abbrev pub observed : Side → DeltaRecord → Bool
observed side r = pick side r.base_observed r.head_observed

-- The flags that are set where `p` says so, and the list without the marks of ambiguity.
abbrev pub mark : (Variant → Bool) → List Variant → List Variant
mark p vs = map (λ (v : Variant). record v { consumed = v.consumed || p v; ambiguous = false }) vs

plain : List Variant → List Variant
plain vs = map (λ (v : Variant). record v { ambiguous = false }) vs

pub mark-ext :
    (p q : Variant → Bool) (vs : List Variant) → ((v : Variant) → p v ≡ q v) → mark p vs ≡ mark q vs
mark-ext p q [] h = refl
mark-ext p q (v ∷ vs) h =
    ap₂
      (λ (b : Bool) (rest : List Variant).
        record v { consumed = v.consumed || b; ambiguous = false } ∷ rest)
      (h v) (mark-ext p q vs h)

or_assoc : (a b c : Bool) → ((a || b) || c) ≡ (a || (b || c))
or_assoc a b c = ground arith

pub mark-consume :
    (k : String) (q : Variant → Bool) (vs : List Variant)
    → ((v : Variant) → q (record v { consumed = v.consumed || has_key k v }) ≡ q v)
    → mark q (consume k vs) ≡ mark (λ v. has_key k v || q v) vs
mark-consume k q [] h = refl
mark-consume k q (v ∷ vs) h =
    ap₂ (λ (b : Bool) (rest : List Variant). record v { consumed = b; ambiguous = false } ∷ rest)
      (ap (λ (c : Bool). (v.consumed || has_key k v) || c) (h v)
        ∙ or_assoc v.consumed (has_key k v) (q v))
      (mark-consume k q vs h)

pub mark-ambiguous :
    (group : List Variant) (q : Variant → Bool) (vs : List Variant)
    → ((v : Variant)
        → q (record v {
          ambiguous = v.ambiguous || any (λ (g : Variant). str_eq v.key g.key) group;
        })
          ≡ q v)
    → mark q (mark_ambiguous group vs) ≡ mark q vs
mark-ambiguous group q [] h = refl
mark-ambiguous group q (v ∷ vs) h =
    ap₂
      (λ (b : Bool) (rest : List Variant).
        record v { consumed = v.consumed || b; ambiguous = false } ∷ rest)
      (h v) (mark-ambiguous group q vs h)

abbrev pub is_some {ℓ} : {A : Type ℓ} → Option A → Bool
is_some none = false
is_some (some a) = true

module _ (base head : List Variant) where
  -- The key is one of both sides.
  abbrev pub paired : String → Bool
  paired k = is_some (find (has_key k) base) && is_some (find (has_key k) head)

  abbrev pub equal_found : Option Variant → Option Variant → Bool
  equal_found (some b) (some h) = occurrence_equal b.profile h.profile
  equal_found _ _ = false

  -- The key is one of both sides, with the same occurrences.
  unfoldable pub equal_at : String → Bool
  unfolding occurrence_equal
  equal_at k = equal_found (find (has_key k) base) (find (has_key k) head)

  abbrev pub unequal_at : String → Bool
  unequal_at k = paired k && not (equal_at k)

module _ (hashes : Hashes) (scenario : String) (base head : List Variant) where
  variants-compare_pair :
      (side : Side) (b h : Variant) (s : Comparing)
      → variants side (compare_pair hashes scenario base head b h s)
        ≡ consume (pick side b h).key (variants side s)
  unfolding compare_pair
  variants-compare_pair of_base b h s = elim (Bool-cases (occurrence_equal b.profile h.profile)) [
    | inl same ↦ rw same refl
    | inr other ↦ rw other refl
  ]
  variants-compare_pair of_head b h s = elim (Bool-cases (occurrence_equal b.profile h.profile)) [
    | inl same ↦ rw same refl
    | inr other ↦ rw other refl
  ]

  -- The test of `mark` in the loop over the keys.
  abbrev pub paired_in : List String → Variant → Bool
  paired_in ks v = any (λ k. paired base head k && str_eq v.key k) ks

  picked_key :
      (side : Side) (b h : Variant) (k : String)
      → has_key k b ≡ true
      → has_key k h ≡ true
      → (pick side b h).key ≡ k
  picked_key of_base b h k eb eh = (eq_iff b.key k).0 eb
  picked_key of_head b h k eb eh = (eq_iff h.key k).0 eh

  mark-compare_found :
      (side : Side) (k : String) (ks : List String) (s : Comparing) (o q : Option Variant)
      → find (has_key k) base ≡ o
      → find (has_key k) head ≡ q
      → mark (paired_in ks) (variants side (compare_found hashes scenario base head o q s))
        ≡ mark (paired_in (k ∷ ks)) (variants side s)
  mark-compare_found side k ks s none q eb eh =
      mark-ext (paired_in ks) (paired_in (k ∷ ks)) (variants side s) (λ v. rw eb refl)
  mark-compare_found side k ks s (some b) none eb eh =
      mark-ext (paired_in ks) (paired_in (k ∷ ks)) (variants side s) (λ v. rw (eb, eh) refl)
  mark-compare_found side k ks s (some b) (some h) eb eh =
      let key =
        picked_key side b h k (find-test (has_key k) base b eb) (find-test (has_key k) head h eh) in
      ap (mark (paired_in ks)) (variants-compare_pair side b h s)
      ∙ ap (λ (j : String). mark (paired_in ks) (consume j (variants side s))) key
      ∙ mark-consume k (paired_in ks) (variants side s) (λ v. refl)
      ∙ mark-ext (λ v. has_key k v || paired_in ks v) (paired_in (k ∷ ks)) (variants side s)
          (λ v. rw (eb, eh) refl)

  pub mark-compare_keys :
      (side : Side) (ks : List String) (s : Comparing)
      → mark (λ v. false) (variants side (compare_keys hashes scenario base head ks s))
        ≡ mark (paired_in ks) (variants side s)
  unfolding compare_keys
  mark-compare_keys side [] s = refl
  mark-compare_keys side (k ∷ ks) s =
      mark-compare_keys side ks
        (compare_found hashes scenario base head (find (has_key k) base) (find (has_key k) head) s)
      ∙ mark-compare_found side k ks s (find (has_key k) base) (find (has_key k) head) refl refl

  observed-compare_pair :
      (side : Side) (b h : Variant) (s : Comparing)
      → count (observed side) (compare_pair hashes scenario base head b h s).records
        ≡ count (observed side) s.records + (if occurrence_equal b.profile h.profile then 0 else 1)
  unfolding compare_pair make_record
  observed-compare_pair side b h s = elim (Bool-cases (occurrence_equal b.profile h.profile)) [
    | inl same ↦ rw same (omega arith)
    | inr other ↦ rw other (count-append (observed side) s.records _ ∙ one side)
  ]
    where
      one :
          (side' : Side)
          → count (observed side) s.records
              + count
                  (observed side')
                  (make_record hashes scenario DeltaKind.count_changed (some b) (some h) [] [] ∷ [])
            ≡ count (observed side) s.records + 1
      one of_base = refl
      one of_head = refl

  observed-compare_found :
      (side : Side) (k : String) (s : Comparing) (o q : Option Variant)
      → find (has_key k) base ≡ o
      → find (has_key k) head ≡ q
      → count (observed side) (compare_found hashes scenario base head o q s).records
        ≡ count (observed side) s.records + (if unequal_at base head k then 1 else 0)
  unfolding equal_at
  observed-compare_found side k s none q eb eh = rw eb (omega arith)
  observed-compare_found side k s (some b) none eb eh = rw (eb, eh) (omega arith)
  observed-compare_found side k s (some b) (some h) eb eh =
      rw (eb, eh)
        (observed-compare_pair side b h s
          ∙ ap (λ n. count (observed side) s.records + n)
              (flip (occurrence_equal b.profile h.profile)))
    where
      flip : (c : Bool) → ◌≡◌ {A = ℕ} (if c then 0 else 1) (if not c then 1 else 0)
      flip true = refl
      flip false = refl

  -- The loop over the keys appends a record of both sides for each key with other occurrences.
  pub observed-compare_keys :
      (side : Side) (ks : List String) (s : Comparing)
      → count (observed side) (compare_keys hashes scenario base head ks s).records
        ≡ count (observed side) s.records + count (unequal_at base head) ks
  unfolding compare_keys
  observed-compare_keys side [] s = omega arith
  observed-compare_keys side (k ∷ ks) s =
      let next =
        compare_found hashes scenario base head (find (has_key k) base) (find (has_key k) head) s in
      let here =
        observed-compare_found side k s (find (has_key k) base) (find (has_key k) head) refl refl in
      observed-compare_keys side ks next
      ∙ ap (λ n. n + count (unequal_at base head) ks) here
      ∙ more (unequal_at base head k) (count (observed side) s.records)
    where
      more :
          (c : Bool) (n : ℕ)
          → (n + (if c then 1 else 0)) + count (unequal_at base head) ks
            ≡ n
              + (if c
                  then suc (count (unequal_at base head) ks)
                  else count (unequal_at base head) ks)
      more true n = omega arith
      more false n = omega arith
