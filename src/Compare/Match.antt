-- ===== src/Compare/Match.antt =====
-- The comparison of one scenario (internal/compare/match.go `compareScenario` and its loops).
pub mod Counting
pub mod Marks
pub mod Anchors
pub mod Accounted
pub mod Reported
mod Tests
use glassroot.Common.{
  ◌>>=◌, ℕ, ◌+◌, String, Bool, true, false, not, ◌||◌, ◌&&◌, Option, some, List, [], ◌∷◌, ◌++◌, map,
  any, select, find, length, contains_string, Result, ok, str_eq, string_lt, sort, if◌then◌else◌,
}
use glassroot.Model.{DeltaKind, modified, count_changed, stability_changed, DeltaRecord}
use glassroot.Compare.Facts.{Code, AttemptTrace, typed_anchor_digest, changed_fields}
use glassroot.Compare.Variants.{
  Variant, Names, Hashes, has_key, build_variants, prepare, same_repeatability, occurrence_equal,
  attempts_complete, keys_of,
}
use glassroot.Compare.Records.{make_record, basis_for_absence, removed_record, added_record}
use glassroot.Compare.Order.{order_record}

pub distinct : List String → List String
distinct [] = []
distinct (x ∷ xs) = let rest = distinct xs in if contains_string x rest then rest else x ∷ rest

-- The keys of two maps, sorted.
pub union_keys : List String → List String → List String
unfolding distinct sort
union_keys xs bs = sort string_lt (distinct (xs ++ bs))

-- The variants of base and head with their flags as they are, and the records so far.
pub record Comparing : Type 0 where
  pub base : List Variant
  pub head : List Variant
  pub records : List DeltaRecord

abbrev pub consume : String → List Variant → List Variant
consume k vs = map (λ (v : Variant). record v { consumed = v.consumed || has_key k v }) vs

abbrev pub mark_ambiguous : List Variant → List Variant → List Variant
mark_ambiguous group vs =
    map
      (λ (v : Variant). record v {
        ambiguous = v.ambiguous || any (λ (g : Variant). str_eq v.key g.key) group;
      })
      vs

abbrev pub consume_pair : Variant → Variant → Comparing → Comparing
consume_pair b h s = record s { base = consume b.key s.base; head = consume h.key s.head }

abbrev pub append_record : DeltaRecord → Comparing → Comparing
append_record rec s = record s { records = s.records ++ rec ∷ [] }

module _ (hashes : Hashes) (scenario : String) (base head : List Variant) where
  abbrev pair_kind : Variant → Variant → DeltaKind
  pair_kind b h =
      if not (same_repeatability b.profile.repeatability h.profile.repeatability)
      then stability_changed
      else count_changed

  pub compare_pair : Variant → Variant → Comparing → Comparing
  unfolding make_record occurrence_equal
  compare_pair b h s =
      if occurrence_equal b.profile h.profile
      then consume_pair b h s
      else append_record (make_record hashes scenario (pair_kind b h) (some b) (some h) [] [])
          (consume_pair b h s)

  abbrev pub compare_found : Option Variant → Option Variant → Comparing → Comparing
  compare_found (some b) (some h) s = compare_pair b h s
  compare_found _ _ s = s

  -- The loop over the keys.
  pub compare_keys : List String → Comparing → Comparing
  unfolding compare_pair
  compare_keys [] s = s
  compare_keys (k ∷ ks) s =
      compare_keys ks (compare_found (find (has_key k) base) (find (has_key k) head) s)

-- The variants with an anchor that are left, as they are before the loop over the anchors.
abbrev pub anchored : String → Variant → Bool
anchored a v = not v.consumed && not (str_eq v.anchor "") && str_eq v.anchor a

abbrev pub anchors_of : List Variant → List String
anchors_of vs =
    map (λ (v : Variant). v.anchor)
      (select (λ (v : Variant). not v.consumed && not (str_eq v.anchor "")) vs)

abbrev is_empty : {A : Type 0} → List A → Bool
is_empty [] = true
is_empty _ = false

module _ (names : Names) (hashes : Hashes) (scenario : String) (base head : List Variant) where
  abbrev pub same_sort : Variant → Variant → Bool
  same_sort b h =
      str_eq (names.kind b.kind) (names.kind h.kind)
      && str_eq (names.source b.source) (names.source h.source)

  abbrev pub modify : Variant → Variant → List String → Comparing → Comparing
  modify b h [] s = s
  modify b h (f ∷ fs) s =
      append_record (make_record hashes scenario modified (some b) (some h) (f ∷ fs) [])
        (consume_pair b h s)

  abbrev pub ambiguous_groups : List Variant → List Variant → Comparing → Comparing
  ambiguous_groups bs hs s =
      if is_empty bs || is_empty hs
      then s
      else record s { base = mark_ambiguous bs s.base; head = mark_ambiguous hs s.head }

  pub compare_groups : List Variant → List Variant → Comparing → Comparing
  unfolding make_record changed_fields
  compare_groups (b ∷ []) (h ∷ []) s =
      if same_sort b h
      then modify b h (changed_fields b.first h.first) s
      else ambiguous_groups (b ∷ []) (h ∷ []) s
  compare_groups bs hs s = ambiguous_groups bs hs s

  -- The loop over the anchors.
  pub compare_anchors : List String → Comparing → Comparing
  unfolding compare_groups
  compare_anchors [] s = s
  compare_anchors (a ∷ xs) s =
      compare_anchors xs (compare_groups (select (anchored a) base) (select (anchored a) head) s)

abbrev sorted_variants : List Variant → List Variant
sorted_variants vs = sort (λ (a b : Variant). string_lt a.key b.key) vs

abbrev pub left_over : List Variant → List Variant
left_over vs = select (λ (v : Variant). not v.consumed) (sorted_variants vs)

abbrev evidence_count : List DeltaRecord → ℕ
evidence_count [] = 0
evidence_count (r ∷ rs) = length r.base_evidence + length r.head_evidence + evidence_count rs

-- The records of the variants, after both have been prepared.
unfoldable pub compare_variants :
    Names → Hashes → String → Bool → Bool → List Variant → List Variant → List DeltaRecord
unfolding compare_keys compare_anchors union_keys make_record basis_for_absence sort
compare_variants names hashes scenario base_complete head_complete base head =
    let paired =
      compare_keys hashes scenario base head (union_keys (keys_of base) (keys_of head))
        (record { base = base; head = head; records = [] }) in
    let matched =
      compare_anchors names hashes scenario paired.base paired.head
        (union_keys (anchors_of paired.base) (anchors_of paired.head)) paired in
    matched.records
    ++ (map (removed_record hashes scenario head_complete) (left_over matched.base)
        ++ map (added_record hashes scenario base_complete) (left_over matched.head))

-- The records of a scenario, and the number of their references.
unfoldable pub compare_scenario :
    Names
    → Hashes
    → String
    → List AttemptTrace
    → List AttemptTrace
    → Result Code (List DeltaRecord × ℕ)
unfolding order_record build_variants prepare compare_variants typed_anchor_digest
compare_scenario names hashes scenario base_attempts head_attempts = do
  base ← prepare hashes base_attempts (build_variants names base_attempts)
  head ← prepare hashes head_attempts (build_variants names head_attempts)
  let records =
      compare_variants names hashes scenario (attempts_complete base_attempts)
        (attempts_complete head_attempts) base head
      ++ order_record hashes scenario base_attempts head_attempts
  ok (records, evidence_count records)
