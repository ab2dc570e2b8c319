-- ===== src/Compare/Match/Anchors.antt =====
-- What the loop over the anchors does to the flags of the variants and to the records.
use glassroot.Common.{
  ℕ, suc, ◌+◌, ◌≡◌, refl, ap, ◌∙◌, String, Bool, true, false, ◌||◌, ◌&&◌, Option, none, some, List,
  [], ◌∷◌, any, count, count-append, select, str_eq, if◌then◌else◌, Bool-cases, inl, inr, arith,
}
use glassroot.Model.{modified}
use glassroot.Compare.Facts.{changed_fields}
use glassroot.Compare.Variants.{Variant, Names, Hashes}
use glassroot.Compare.Records.{make_record}
use glassroot.Compare.Match.{
  Comparing, anchored, same_sort, modify, ambiguous_groups, compare_groups, compare_anchors,
}
use glassroot.Compare.Match.Marks.{
  Side, of_base, of_head, pick, variants, observed, mark, mark-consume, mark-ambiguous, is_some,
}

module _ (names : Names) (hashes : Hashes) (scenario : String) (base head : List Variant) where
  abbrev changes : List String → Bool
  changes [] = false
  changes (f ∷ fs) = true

  -- The two variants that one record of a modification shows.
  pub found_pair : List Variant → List Variant → Option (Variant × Variant)
  unfolding changed_fields
  found_pair (b ∷ []) (h ∷ []) =
      if same_sort names hashes scenario base head b h && changes (changed_fields b.first h.first)
      then some (b, h)
      else none
  found_pair _ _ = none

  pair-single-if :
      (c : Bool) (b h : Variant) (m : Variant × Variant)
      → (if c then some (b, h) else none) ≡ some m
      → (side : Side) → pick side (b ∷ []) (h ∷ []) ≡ pick side m.0 m.1 ∷ []
  pair-single-if false b h m e side = cc
  pair-single-if true b h m e of_base =
      let same : (b, h) ≡ m = cc in ap (λ (n : Variant × Variant). n.0 ∷ []) same
  pair-single-if true b h m e of_head =
      let same : (b, h) ≡ m = cc in ap (λ (n : Variant × Variant). n.1 ∷ []) same

  -- Both groups of a pair have one member.
  pub pair-single :
      (bs hs : List Variant) (m : Variant × Variant)
      → found_pair bs hs ≡ some m
      → (side : Side) → pick side bs hs ≡ pick side m.0 m.1 ∷ []
  unfolding found_pair
  pair-single [] hs m e side = cc
  pair-single (b ∷ b₂ ∷ bs) hs m e side = cc
  pair-single (b ∷ []) [] m e side = cc
  pair-single (b ∷ []) (h ∷ h₂ ∷ hs) m e side = cc
  pair-single (b ∷ []) (h ∷ []) m e side =
      pair-single-if
        (same_sort names hashes scenario base head b h && changes (changed_fields b.first h.first))
        b h m e side

  abbrev pub pair_at : String → Option (Variant × Variant)
  pair_at a = found_pair (select (anchored a) base) (select (anchored a) head)

  abbrev pub taken_by : Side → Option (Variant × Variant) → String → Bool
  taken_by side none k = false
  taken_by side (some m) k = str_eq k (pick side m.0 m.1).key

  -- The test of `mark` in the loop over the anchors.
  abbrev pub taken_in : Side → List String → Variant → Bool
  taken_in side xs v = any (λ a. taken_by side (pair_at a) v.key) xs

  mark-ambiguous_groups :
      (side : Side) (xs : List String) (bs hs : List Variant) (s : Comparing)
      → mark
          (taken_in side xs)
          (variants side (ambiguous_groups names hashes scenario base head bs hs s))
        ≡ mark (taken_in side xs) (variants side s)
  mark-ambiguous_groups side xs [] hs s = refl
  mark-ambiguous_groups side xs (b ∷ bs) [] s = refl
  mark-ambiguous_groups of_base xs (b ∷ bs) (h ∷ hs) s =
      mark-ambiguous (b ∷ bs) (taken_in of_base xs) s.base (λ v. refl)
  mark-ambiguous_groups of_head xs (b ∷ bs) (h ∷ hs) s =
      mark-ambiguous (h ∷ hs) (taken_in of_head xs) s.head (λ v. refl)

  abbrev taken_also : Side → Option (Variant × Variant) → List String → Variant → Bool
  taken_also side o xs v = taken_by side o v.key || taken_in side xs v

  mark-modify :
      (side : Side) (xs : List String) (b h : Variant) (s : Comparing) (fs : List String)
      → mark (taken_in side xs) (variants side (modify names hashes scenario base head b h fs s))
        ≡ mark (taken_also side (if changes fs then some (b, h) else none) xs) (variants side s)
  mark-modify side xs b h s [] = refl
  mark-modify of_base xs b h s (f ∷ fs) =
      mark-consume b.key (taken_in of_base xs) s.base (λ v. refl)
  mark-modify of_head xs b h s (f ∷ fs) =
      mark-consume h.key (taken_in of_head xs) s.head (λ v. refl)

  mark-compare_groups :
      (side : Side) (xs : List String) (bs hs : List Variant) (s : Comparing)
      → mark
          (taken_in side xs)
          (variants side (compare_groups names hashes scenario base head bs hs s))
        ≡ mark (taken_also side (found_pair bs hs) xs) (variants side s)
  unfolding compare_groups found_pair
  mark-compare_groups side xs [] hs s = mark-ambiguous_groups side xs [] hs s
  mark-compare_groups side xs (b ∷ b₂ ∷ bs) hs s = mark-ambiguous_groups side xs (b ∷ b₂ ∷ bs) hs s
  mark-compare_groups side xs (b ∷ []) [] s = mark-ambiguous_groups side xs (b ∷ []) [] s
  mark-compare_groups side xs (b ∷ []) (h ∷ h₂ ∷ hs) s =
      mark-ambiguous_groups side xs (b ∷ []) (h ∷ h₂ ∷ hs) s
  mark-compare_groups side xs (b ∷ []) (h ∷ []) s =
      elim (Bool-cases (same_sort names hashes scenario base head b h)) [
        | inl same ↦ rw same (mark-modify side xs b h s (changed_fields b.first h.first))
        | inr other ↦ rw other (mark-ambiguous_groups side xs (b ∷ []) (h ∷ []) s)
      ]

  pub mark-compare_anchors :
      (side : Side) (xs : List String) (s : Comparing)
      → mark (λ v. false) (variants side (compare_anchors names hashes scenario base head xs s))
        ≡ mark (taken_in side xs) (variants side s)
  unfolding compare_anchors
  mark-compare_anchors side [] s = refl
  mark-compare_anchors side (a ∷ xs) s =
      let bs = select (anchored a) base in
      let hs = select (anchored a) head in
      mark-compare_anchors side xs (compare_groups names hashes scenario base head bs hs s)
      ∙ mark-compare_groups side xs bs hs s

  observed-ambiguous_groups :
      (side : Side) (bs hs : List Variant) (s : Comparing)
      → count (observed side) (ambiguous_groups names hashes scenario base head bs hs s).records
        ≡ count (observed side) s.records + 0
  observed-ambiguous_groups side [] hs s = omega arith
  observed-ambiguous_groups side (b ∷ bs) [] s = omega arith
  observed-ambiguous_groups side (b ∷ bs) (h ∷ hs) s = omega arith

  abbrev one_if : Bool → ℕ
  one_if true = 1
  one_if false = 0

  observed-modify :
      (side : Side) (b h : Variant) (s : Comparing) (fs : List String)
      → count (observed side) (modify names hashes scenario base head b h fs s).records
        ≡ count (observed side) s.records
          + one_if (is_some {A = Variant × Variant} (if changes fs then some (b, h) else none))
  unfolding make_record
  observed-modify side b h s [] = omega arith
  observed-modify side b h s (f ∷ fs) = count-append (observed side) s.records _ ∙ one side
    where
      one :
          (side' : Side)
          → count (observed side) s.records
              + count
                  (observed side')
                  (make_record hashes scenario modified (some b) (some h) (f ∷ fs) [] ∷ [])
            ≡ count (observed side) s.records + 1
      one of_base = refl
      one of_head = refl

  observed-compare_groups :
      (side : Side) (bs hs : List Variant) (s : Comparing)
      → count (observed side) (compare_groups names hashes scenario base head bs hs s).records
        ≡ count (observed side) s.records + one_if (is_some (found_pair bs hs))
  unfolding compare_groups found_pair
  observed-compare_groups side [] hs s = observed-ambiguous_groups side [] hs s
  observed-compare_groups side (b ∷ b₂ ∷ bs) hs s =
      observed-ambiguous_groups side (b ∷ b₂ ∷ bs) hs s
  observed-compare_groups side (b ∷ []) [] s = observed-ambiguous_groups side (b ∷ []) [] s
  observed-compare_groups side (b ∷ []) (h ∷ h₂ ∷ hs) s =
      observed-ambiguous_groups side (b ∷ []) (h ∷ h₂ ∷ hs) s
  observed-compare_groups side (b ∷ []) (h ∷ []) s =
      elim (Bool-cases (same_sort names hashes scenario base head b h)) [
        | inl same ↦ rw same (observed-modify side b h s (changed_fields b.first h.first))
        | inr other ↦ rw other (observed-ambiguous_groups side (b ∷ []) (h ∷ []) s)
      ]

  -- The loop over the anchors appends a record of both sides for each anchor with such a pair.
  pub observed-compare_anchors :
      (side : Side) (xs : List String) (s : Comparing)
      → count (observed side) (compare_anchors names hashes scenario base head xs s).records
        ≡ count (observed side) s.records + count (λ a. is_some (pair_at a)) xs
  unfolding compare_anchors
  observed-compare_anchors side [] s = omega arith
  observed-compare_anchors side (a ∷ xs) s =
      let bs = select (anchored a) base in
      let hs = select (anchored a) head in
      observed-compare_anchors side xs (compare_groups names hashes scenario base head bs hs s)
      ∙ ap (λ n. n + count (λ c. is_some (pair_at c)) xs) (observed-compare_groups side bs hs s)
      ∙ more (is_some (pair_at a)) (count (observed side) s.records)
          (count (λ c. is_some (pair_at c)) xs)
    where
      more : (c : Bool) (n m : ℕ) → (n + one_if c) + m ≡ n + (if c then suc m else m)
      more true n m = omega arith
      more false n m = omega arith
