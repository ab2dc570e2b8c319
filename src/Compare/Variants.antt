-- ===== src/Compare/Variants.antt =====
-- The variants of the facts of some attempts (internal/compare/match.go `buildVariants`,
-- `profileForVariant`, `occurrenceEqual`). A variant is a pointer there: here its flags are set wherever
-- its key stands, and its other fields never change. The ids of records and the hash of anchors are
-- parameters.
use glassroot.Common.{
  ◌>>=◌, ℕ, String, Bool, true, false, not, ◌&&◌, List, [], ◌∷◌, ◌++◌, map, all, count, length,
  Result, ok, str_eq, join_nul, ◌==◌, if◌then◌else◌,
}
use glassroot.Model.{
  ObservationSource, CoverageAssessment, partial, none_covered, other_coverage,
  RepeatabilityAssessment, stable, variable, single, not_assessable, other_repeatability,
  RepetitionOccurrence, OccurrenceProfile, FactKind, DeltaRecord,
}
use glassroot.Compare.Facts.{Code, Fact, AttemptTrace, AnchorHash, typed_anchor_digest}
use glassroot.Compare.Occurrence.{is_complete, build_occurrence_profile, empty_occurrence}

-- `key` is the text by which the map of variants is indexed, `first` the first of the facts, and
-- `repetitions` has the repetition of each fact.
pub record Variant : Type 0 where
  pub key : String
  pub kind : FactKind
  pub source : ObservationSource
  pub semantic : String
  pub first : Fact
  pub facts : List Fact
  pub repetitions : List ℕ
  pub profile : OccurrenceProfile
  pub anchor : String
  pub consumed : Bool
  pub ambiguous : Bool

-- The texts of the constants.
pub record Names : Type 0 where
  pub kind : FactKind → String
  pub source : ObservationSource → String

pub record Hashes : Type 0 where
  pub anchor : AnchorHash
  pub record_id : String → DeltaRecord → String

abbrev pub fact_key : Names → Fact → String
fact_key names f = join_nul (f.semantic_digest ∷ names.kind f.kind ∷ names.source f.source ∷ [])

abbrev pub has_key : String → Variant → Bool
has_key k v = str_eq v.key k

abbrev new_variant : String → ℕ → Fact → Variant
new_variant key repetition f = record {
  key = key;
  kind = f.kind;
  source = f.source;
  semantic = f.semantic_digest;
  first = f;
  facts = f ∷ [];
  repetitions = repetition ∷ [];
  profile = empty_occurrence;
  anchor = "";
  consumed = false;
  ambiguous = false;
}

unfoldable pub add_fact : String → ℕ → Fact → List Variant → List Variant
add_fact key repetition f [] = new_variant key repetition f ∷ []
add_fact key repetition f (v ∷ vs) =
    let rest = add_fact key repetition f vs in
    if has_key key v
    then record v { facts = v.facts ++ f ∷ []; repetitions = v.repetitions ++ repetition ∷ [] } ∷ vs
    else v ∷ rest

unfoldable pub add_facts : Names → ℕ → List Fact → List Variant → List Variant
unfolding add_fact join_nul
add_facts names repetition [] vs = vs
add_facts names repetition (f ∷ fs) vs =
    add_facts names repetition fs (add_fact (fact_key names f) repetition f vs)

unfoldable pub build_from : Names → List AttemptTrace → List Variant → List Variant
unfolding add_facts
build_from names [] vs = vs
build_from names (a ∷ xs) vs = build_from names xs (add_facts names a.repetition a.facts vs)

unfoldable pub build_variants : Names → List AttemptTrace → List Variant
unfolding build_from
build_variants names attempts = build_from names attempts []

abbrev pub profile_for_variant : List AttemptTrace → Variant → OccurrenceProfile
profile_for_variant attempts v = build_occurrence_profile (length attempts) (
    map
      (λ (a : AttemptTrace). record {
        repetition = a.repetition;
        coverage = a.coverage;
        facts = count (λ r. r == a.repetition) v.repetitions;
      })
      attempts)

-- Profile and anchor of every variant.
unfoldable pub prepare : Hashes → List AttemptTrace → List Variant → Result Code (List Variant)
unfolding build_occurrence_profile
prepare hashes attempts [] = ok []
prepare hashes attempts (v ∷ vs) = do
  a ← typed_anchor_digest hashes.anchor v.first
  rest ← prepare hashes attempts vs
  ok (record v { profile = profile_for_variant attempts v; anchor = a } ∷ rest)

abbrev coverage_name : CoverageAssessment → String
coverage_name CoverageAssessment.complete = "complete"
coverage_name partial = "partial"
coverage_name none_covered = "none"
coverage_name (other_coverage c) = c

abbrev repeatability_name : RepeatabilityAssessment → String
repeatability_name stable = "stable"
repeatability_name variable = "variable"
repeatability_name single = "single-sample"
repeatability_name not_assessable = "not-assessable"
repeatability_name (other_repeatability r) = r

abbrev pub same_repeatability : RepeatabilityAssessment → RepeatabilityAssessment → Bool
same_repeatability a b = str_eq (repeatability_name a) (repeatability_name b)

abbrev pub same_coverage : CoverageAssessment → CoverageAssessment → Bool
same_coverage a b = str_eq (coverage_name a) (coverage_name b)

abbrev same_flag : Bool → Bool → Bool
same_flag true b = b
same_flag false b = not b

same_repetitions : List RepetitionOccurrence → List RepetitionOccurrence → Bool
same_repetitions [] [] = true
same_repetitions (a ∷ xs) (b ∷ bs) =
    a.repetition == b.repetition
    && same_coverage a.coverage b.coverage
    && same_flag a.count_known b.count_known
    && a.count == b.count
    && same_repetitions xs bs
same_repetitions _ _ = false

-- The same JSON text.
unfoldable pub occurrence_equal : OccurrenceProfile → OccurrenceProfile → Bool
unfolding same_repetitions
occurrence_equal a b =
    a.planned_repetition_count == b.planned_repetition_count
    && a.complete_repetition_count == b.complete_repetition_count
    && a.incomplete_repetition_count == b.incomplete_repetition_count
    && a.minimum_known_count == b.minimum_known_count
    && a.maximum_known_count == b.maximum_known_count
    && a.total_known_count == b.total_known_count
    && same_coverage a.coverage b.coverage
    && same_repeatability a.repeatability b.repeatability
    && same_repetitions a.repetitions b.repetitions

abbrev pub attempts_complete : List AttemptTrace → Bool
attempts_complete [] = false
attempts_complete (a ∷ xs) = all (λ (x : AttemptTrace). is_complete x.coverage) (a ∷ xs)

abbrev pub keys_of : List Variant → List String
keys_of vs = map (λ (v : Variant). v.key) vs
