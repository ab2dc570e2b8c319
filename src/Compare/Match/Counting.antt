-- ===== src/Compare/Match/Counting.antt =====
-- Counting a list of variants by the keys or the anchors of a list without repetitions.
use glassroot.Common.{
  ℕ, ◌+◌, ◌≤◌, ◌≡◌, refl, sym, ap, subst, ◌∙◌, String, Bool, true, false, not, ◌||◌, ◌&&◌, none,
  List, [], ◌∷◌, ◌++◌, map, any, count, count-sort, select, find, length, All, contains_string,
  str_eq, eq_iff, string_lt, if◌then◌else◌, Bool-cases, inl, inr, arith,
}
use glassroot.Compare.Match.{distinct, union_keys}

pub str_eq_refl : (s : String) → str_eq s s ≡ true
str_eq_refl s = (eq_iff s s).1 refl

pub str_eq_sym : (a b : String) → str_eq a b ≡ str_eq b a
str_eq_sym a b = ground (arith, eq_iff a b, eq_iff b a)

abbrev pub times : String → List String → ℕ
times k ks = count (λ x. str_eq x k) ks

-- No text stands in the list twice.
abbrev pub Once : List String → Type 0
Once ks = (k : String) → times k ks ≤ 1

times-contains : (k : String) (xs : List String) → contains_string k xs ≡ false → times k xs ≡ 0
times-contains k [] h = refl
times-contains k (x ∷ xs) h = ground (arith, times-contains k xs)

distinct-Once : (xs : List String) → Once (distinct xs)
unfolding distinct
distinct-Once [] k = omega arith
distinct-Once (x ∷ xs) k = elim (Bool-cases (contains_string x (distinct xs))) [
  | inl old ↦ rw old (distinct-Once xs k)
  | inr new ↦ rw new (first (times-contains x (distinct xs) new) (distinct-Once xs k))
]
  where
    first : times x (distinct xs) ≡ 0 → times k (distinct xs) ≤ 1 → times k (x ∷ distinct xs) ≤ 1
    first absent once = elim (Bool-cases (str_eq x k)) [
      | inl same ↦
          ground (arith, same, subst (λ y. times y (distinct xs) ≡ 0) ((eq_iff x k).0 same) absent)
      | inr other ↦ ground (arith, other)
    ]

contains-times : (k : String) (xs : List String) → contains_string k xs ≡ true → 1 ≤ times k xs
contains-times k [] h = cc
contains-times k (x ∷ xs) h = ground (arith, contains-times k xs)

-- A text that stands in the list stands in the list without repetitions.
distinct-times :
    (k : String) (xs : List String) → contains_string k xs ≡ true → 1 ≤ times k (distinct xs)
unfolding distinct
distinct-times k [] h = cc
distinct-times k (x ∷ xs) h = elim (Bool-cases (contains_string x (distinct xs))) [
  | inl old ↦ rw old (elim (Bool-cases (str_eq x k)) [
    | inl same ↦
        contains-times k (distinct xs)
          (subst (λ y. contains_string y (distinct xs) ≡ true) ((eq_iff x k).0 same) old)
    | inr other ↦ distinct-times k xs (ground (arith, other))
  ])
  | inr new ↦ rw new (elim (Bool-cases (str_eq x k)) [
    | inl same ↦ ground (arith, same)
    | inr other ↦ ground (arith, other, distinct-times k xs)
  ])
]

pub union_keys-Once : (xs ys : List String) → Once (union_keys xs ys)
unfolding union_keys
union_keys-Once xs ys k = omega (
  arith,
  count-sort string_lt (λ x. str_eq x k) (distinct (xs ++ ys)),
  distinct-Once (xs ++ ys) k,
)

pub union_keys-times :
    (xs ys : List String) (k : String)
    → contains_string k (xs ++ ys) ≡ true
    → 1 ≤ times k (union_keys xs ys)
unfolding union_keys
union_keys-times xs ys k h = omega (
  arith,
  count-sort string_lt (λ x. str_eq x k) (distinct (xs ++ ys)),
  distinct-times k (xs ++ ys) h,
)

count_none {ℓ} :
    {A : Type ℓ} (p : A → Bool) (xs : List A) → All (λ x. p x ≡ false) xs → count p xs ≡ 0
count_none p [] h = refl
count_none p (x ∷ xs) h = ground (arith, h.0, count_none p xs h.1)

pub count-ext {ℓ} :
    {A : Type ℓ} (p q : A → Bool) (xs : List A) → All (λ x. p x ≡ q x) xs → count p xs ≡ count q xs
count-ext p q [] h = refl
count-ext p q (x ∷ xs) h = ground (arith, h.0, count-ext p q xs h.1)

count_or {ℓ} :
    {A : Type ℓ} (p q : A → Bool) (xs : List A)
    → All (λ x. (p x && q x) ≡ false) xs
    → count (λ x. p x || q x) xs ≡ count p xs + count q xs
count_or p q [] h = refl
count_or p q (x ∷ xs) h = ground (arith, h.0, count_or p q xs h.1)

pub count_not {ℓ} :
    {A : Type ℓ} (p : A → Bool) (xs : List A) → count p xs + count (λ x. not (p x)) xs ≡ length xs
count_not p [] = refl
count_not p (x ∷ xs) = ground (arith, count_not p xs)

pub All-map {ℓ κ μ} :
    {A : Type ℓ} {P : A → Type κ} {Q : A → Type μ} (xs : List A)
    → ((x : A) → P x → Q x)
    → All P xs
    → All Q xs
All-map [] f h = tt
All-map (x ∷ xs) f h = (f x h.0, All-map xs f h.1)

pub All-pure {ℓ κ} : {A : Type ℓ} {P : A → Type κ} (xs : List A) → ((x : A) → P x) → All P xs
All-pure [] f = tt
All-pure (x ∷ xs) f = (f x, All-pure xs f)

module _ {ℓ} {A : Type ℓ} (name : A → String) (holds : String → Bool) (vs : List A) where
  abbrev hit : String → A → Bool
  hit k v = holds k && str_eq (name v) k

  any-hit : (ks : List String) (v : A) → times (name v) ks ≡ 0 → any (λ k. hit k v) ks ≡ false
  any-hit [] v h = refl
  any-hit (k ∷ ks) v h = ground (arith, any-hit ks v, str_eq_sym (name v) k)

  absent :
      (k : String) (ks : List String) (v : A)
      → times k ks ≡ 0
      → (hit k v && any (λ j. hit j v) ks) ≡ false
  absent k ks v h = elim (Bool-cases (str_eq (name v) k)) [
    | inl same ↦
        ground
          (arith, any-hit ks v (subst (λ j. times j ks ≡ 0) (sym ((eq_iff (name v) k).0 same)) h))
    | inr other ↦ ground (arith, other)
  ]

  -- If each name for which `holds` says so belongs to one member, then the members of such names are as
  -- many as the names.
  pub count_by_name :
      (ks : List String)
      → Once ks
      → All (λ k. holds k ≡ true → count (λ v. str_eq (name v) k) vs ≡ 1) ks
      → count (λ v. any (λ k. hit k v) ks) vs ≡ count holds ks
  count_by_name [] once one = count_none (λ v. false) vs (All-pure vs (λ v. refl))
  count_by_name (k ∷ ks) once one =
      let here : times k ks ≡ 0 = ground (arith, once k, str_eq_refl k) in
      let rest = count_by_name ks (λ j. ground (arith, once j)) one.1 in
      count_or (hit k) (λ v. any (λ j. hit j v) ks) vs (All-pure vs (λ v. absent k ks v here))
      ∙ this_one rest
    where
      this_one :
          count (λ v. any (λ j. hit j v) ks) vs ≡ count holds ks
          → count (hit k) vs + count (λ v. any (λ j. hit j v) ks) vs ≡ count holds (k ∷ ks)
      this_one rest = elim (Bool-cases (holds k)) [
        | inl yes_ ↦ ground (
          arith,
          yes_,
          rest,
          one.0 yes_,
          count-ext (hit k) (λ v. str_eq (name v) k) vs (All-pure vs (λ v. rw yes_ refl)),
        )
        | inr no_ ↦
            ground (arith, no_, rest, count_none (hit k) vs (All-pure vs (λ v. rw no_ refl)))
      ]

  -- Among all names, that of the member decides.
  pub any_name :
      (ks : List String) (v : A) → 1 ≤ times (name v) ks → any (λ k. hit k v) ks ≡ holds (name v)
  any_name [] v h = absurd (omega arith)
  any_name (k ∷ ks) v h = elim (Bool-cases (str_eq k (name v))) [
    | inl same ↦ elim (Bool-cases (holds k)) [
      | inl yes_ ↦
          ground (arith, yes_, same, str_eq_sym k (name v), ap holds ((eq_iff k (name v)).0 same))
      | inr no_ ↦ ground (
        arith,
        no_,
        ap holds ((eq_iff k (name v)).0 same),
        any-hit_no ks (ap holds (sym ((eq_iff k (name v)).0 same)) ∙ no_),
      )
    ]
    | inr other ↦ ground (arith, other, str_eq_sym k (name v), any_name ks v)
  ]
    where
      any-hit_no : (js : List String) → holds (name v) ≡ false → any (λ j. hit j v) js ≡ false
      any-hit_no [] n = refl
      any-hit_no (j ∷ js) n = elim (Bool-cases (str_eq (name v) j)) [
        | inl same ↦ ground (arith, ap holds ((eq_iff (name v) j).0 same), n, any-hit_no js n)
        | inr other ↦ ground (arith, other, any-hit_no js n)
      ]

pub count-select {ℓ} :
    {A : Type ℓ} (p q : A → Bool) (xs : List A) → count q (select p xs) ≡ count (λ x. p x && q x) xs
count-select p q [] = refl
count-select p q (x ∷ xs) = ground (arith, count-select p q xs)

pub length-select {ℓ} :
    {A : Type ℓ} (p : A → Bool) (xs : List A) → length (select p xs) ≡ count p xs
length-select p [] = refl
length-select p (x ∷ xs) = ground (arith, length-select p xs)

pub count-map {ℓ κ} :
    {A : Type ℓ} {B : Type κ} (p : B → Bool) (f : A → B) (xs : List A)
    → count p (map f xs) ≡ count (λ x. p (f x)) xs
count-map p f [] = refl
count-map p f (x ∷ xs) = ground (arith, count-map p f xs)

pub count_always {ℓ} : {A : Type ℓ} (xs : List A) → count (λ x. true) xs ≡ length xs
count_always [] = refl
count_always (x ∷ xs) = ground (arith, count_always xs)

selected_counts {ℓ} :
    {A : Type ℓ} (p q : A → Bool) (b : A) (xs : List A)
    → select p xs ≡ b ∷ []
    → q b ≡ true
    → 1 ≤ count q xs
selected_counts p q b [] h hq = cc
selected_counts p q b (x ∷ xs) h hq = elim (Bool-cases (p x)) [
  | inl yes_ ↦ ground (
    arith,
    ap q (first (ap (λ c. if c then x ∷ select p xs else select p xs) (sym yes_) ∙ h)) ∙ hq,
  )
  | inr no_ ↦ ground (
    arith,
    selected_counts p q b xs (ap (λ c. if c then x ∷ select p xs else select p xs) (sym no_) ∙ h)
        hq,
  )
]
  where
    first : x ∷ select p xs ≡ b ∷ [] → x ≡ b
    first e = cc

select-none {ℓ} :
    {A : Type ℓ} (p : A → Bool) (xs : List A) → select p xs ≡ [] → All (λ x. p x ≡ false) xs
select-none p [] h = tt
select-none p (x ∷ xs) h = elim (Bool-cases (p x)) [
  | inl yes_ ↦ absurd (clash (ap (λ c. if c then x ∷ select p xs else select p xs) (sym yes_) ∙ h))
  | inr no_ ↦
      (no_, select-none p xs (ap (λ c. if c then x ∷ select p xs else select p xs) (sym no_) ∙ h))
]
  where
    clash : x ∷ select p xs ≡ [] → ⊥
    clash e = cc

count-none {ℓ} :
    {A : Type ℓ} (q : A → Bool) (xs : List A) → count q xs ≡ 0 → All (λ x. q x ≡ false) xs
count-none q [] h = tt
count-none q (x ∷ xs) h = (ground arith, count-none q xs (ground arith))

All-both {ℓ} :
    {A : Type ℓ} (p q : A → Bool) (xs : List A)
    → All (λ x. p x ≡ false) xs
    → All (λ x. q x ≡ false) xs
    → All (λ x. p x ≡ q x) xs
All-both p q [] f g = tt
All-both p q (x ∷ xs) f g = (f.0 ∙ sym g.0, All-both p q xs f.1 g.1)

-- A test of which the only selected member is an example, and that at most one member passes, is the
-- test of the selection.
pub select-only {ℓ} :
    {A : Type ℓ} (p q : A → Bool) (b : A) (xs : List A)
    → select p xs ≡ b ∷ []
    → q b ≡ true
    → count q xs ≤ 1
    → All (λ x. p x ≡ q x) xs
select-only p q b [] h hq once = tt
select-only p q b (x ∷ xs) h hq once = elim (Bool-cases (p x)) [
  | inl yes_ ↦ chosen yes_ (ap (λ c. if c then x ∷ select p xs else select p xs) (sym yes_) ∙ h)
  | inr no_ ↦
      let left = ap (λ c. if c then x ∷ select p xs else select p xs) (sym no_) ∙ h in
      skipped no_ left (λ one. select-only p q b xs left hq one)
]
  where
    chosen : p x ≡ true → x ∷ select p xs ≡ b ∷ [] → All (λ y. p y ≡ q y) (x ∷ xs)
    chosen yes_ e =
        let same : x ≡ b = cc in
        let qx : q x ≡ true = ap q same ∙ hq in
        (
          yes_ ∙ sym qx,
          All-both p q xs (select-none p xs cc) (count-none q xs (ground (arith, qx, once))),
        )

    skipped :
        p x ≡ false
        → select p xs ≡ b ∷ []
        → (count q xs ≤ 1 → All (λ y. p y ≡ q y) xs)
        → All (λ y. p y ≡ q y) (x ∷ xs)
    skipped no_ e rest =
        let qx : q x ≡ false = ground (arith, selected_counts p q b xs e hq, once) in
        (no_ ∙ sym qx, rest (ground (arith, once)))

pub All-two {ℓ κ μ ν} :
    {A : Type ℓ} {P : A → Type κ} {Q : A → Type μ} {R : A → Type ν} (xs : List A)
    → ((x : A) → P x → Q x → R x)
    → All P xs
    → All Q xs
    → All R xs
All-two [] f g h = tt
All-two (x ∷ xs) f g h = (f x g.0 h.0, All-two xs f g.1 h.1)

-- The members that one test passes and another does not.
pub count_without {ℓ} :
    {A : Type ℓ} (p q : A → Bool) (xs : List A)
    → count (λ x. p x && not (q x)) xs + count (λ x. p x && q x) xs ≡ count p xs
count_without p q [] = refl
count_without p q (x ∷ xs) = ground (arith, count_without p q xs)

pub found_counts {ℓ} :
    {A : Type ℓ} (p : A → Bool) (xs : List A) → ¬ (find p xs ≡ none) → 1 ≤ count p xs
found_counts p [] h = absurd (h refl)
found_counts p (x ∷ xs) h = elim (Bool-cases (p x)) [
  | inl yes_ ↦ ground (arith, yes_)
  | inr no_ ↦ ground (arith, no_, found_counts p xs (λ e. h (rw no_ e)))
]

pub count_never {ℓ} : {A : Type ℓ} (xs : List A) → count (λ x. false) xs ≡ 0
count_never [] = refl
count_never (x ∷ xs) = ground (arith, count_never xs)

-- No text stands in the list twice, told member by member.
abbrev pub Distinct : List String → Type 0
Distinct [] = Unit
Distinct (x ∷ xs) = (contains_string x xs ≡ false) × Distinct xs
