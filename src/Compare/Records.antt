-- ===== src/Compare/Records.antt =====
-- The records that the comparison makes of one or two variants (internal/compare/match.go `makeRecord`,
-- `basisForAbsence`, `ambiguityLimit`, and the loops over the variants that are left).
use glassroot.Common.{
  String, Bool, true, false, not, ◌||◌, Option, none, some, List, [], ◌∷◌, ◌++◌, map, str_eq,
  string_lt, sort, sorted_unique, if◌then◌else◌,
}
use glassroot.Model.{
  DeltaKind, added, removed, coverage_changed, ComparisonBasis, complete_observation, single_sample,
  repetition_variable, coverage_limited, ObservationSource, CoverageAssessment, variable, single,
  Limitation, OccurrenceProfile, FactKind, DeltaRecord,
}
use glassroot.Compare.Facts.{evidence_key, Fact, snapshot}
use glassroot.Compare.Occurrence.{empty_occurrence}
use glassroot.Compare.Variants.{Variant, Hashes, same_repeatability, same_coverage}

abbrev is_variable : OccurrenceProfile → Bool
is_variable p = same_repeatability p.repeatability variable

abbrev is_single : OccurrenceProfile → Bool
is_single p = same_repeatability p.repeatability single

abbrev is_covered : OccurrenceProfile → Bool
is_covered p = same_coverage p.coverage CoverageAssessment.complete

-- A test on the variants that are there.
abbrev either_side : (OccurrenceProfile → Bool) → Option Variant → Option Variant → Bool
either_side test b h =
    (elim b [ none ↦ false | some v ↦ test v.profile ])
    || (elim h [ none ↦ false | some v ↦ test v.profile ])

pub basis_of : Option Variant → Option Variant → ComparisonBasis
basis_of b h =
    if either_side is_variable b h
    then repetition_variable
    else if either_side (λ p. not (is_covered p)) b h
    then coverage_limited
    else if either_side is_single b h
    then single_sample
    else complete_observation

all_evidence : List Fact → List String
unfolding evidence_key
all_evidence [] = []
all_evidence (f ∷ fs) = map evidence_key f.evidence ++ all_evidence fs

pub evidence_refs : List Fact → List String
unfolding all_evidence sorted_unique
evidence_refs fs = sorted_unique (all_evidence fs)

abbrev fact_lt : Fact → Fact → Bool
fact_lt a b =
    if not (str_eq a.semantic_digest b.semantic_digest)
    then string_lt a.semantic_digest b.semantic_digest
    else string_lt a.id b.id

abbrev facts_of : Option Variant → List Fact
facts_of none = []
facts_of (some v) = v.facts

abbrev digests_of : Option Variant → List String
digests_of none = []
digests_of (some v) = v.semantic ∷ []

abbrev occurrence_of : Option Variant → OccurrenceProfile
occurrence_of none = empty_occurrence
occurrence_of (some v) = v.profile

abbrev there : Option Variant → Bool
there none = false
there (some v) = true

-- The kind, the source and the anchor of a record are those of the head's variant, if there is one.
abbrev shown : {A : Type 0} → A → (Variant → A) → Option Variant → Option Variant → A
shown default field b (some h) = field h
shown default field (some b) none = field b
shown default field none none = default

pub record_without_id :
    String
    → DeltaKind
    → Option Variant
    → Option Variant
    → List String
    → List Limitation
    → DeltaRecord
unfolding basis_of evidence_refs sort
record_without_id scenario kind b h changed limitations = record {
  id = "";
  kind = kind;
  basis = basis_of b h;
  fact_kind = shown (FactKind.other_fact "") (λ v. v.kind) b h;
  source = shown (ObservationSource.other_source "") (λ v. v.source) b h;
  anchor_digest = shown "" (λ v. v.anchor) b h;
  scenario_ids = scenario ∷ [];
  base_observed = there b;
  head_observed = there h;
  base_occurrence = occurrence_of b;
  head_occurrence = occurrence_of h;
  base_facts = map snapshot (sort fact_lt (facts_of b));
  head_facts = map snapshot (sort fact_lt (facts_of h));
  base_evidence = evidence_refs (facts_of b);
  head_evidence = evidence_refs (facts_of h);
  evidence = sorted_unique (evidence_refs (facts_of b) ++ evidence_refs (facts_of h));
  base_semantic_digests = digests_of b;
  head_semantic_digests = digests_of h;
  changed_fields = changed;
  limitations = limitations;
}

unfoldable pub make_record :
    Hashes
    → String
    → DeltaKind
    → Option Variant
    → Option Variant
    → List String
    → List Limitation
    → DeltaRecord
unfolding record_without_id
make_record hashes scenario kind b h changed limitations =
    let rec = record_without_id scenario kind b h changed limitations in
    record rec { id = hashes.record_id scenario rec }

unfoldable pub basis_for_absence : Bool → OccurrenceProfile → ComparisonBasis
basis_for_absence other_complete p =
    if not other_complete || not (is_covered p)
    then coverage_limited
    else if is_single p
    then single_sample
    else if is_variable p
    then repetition_variable
    else complete_observation

abbrev ambiguity_limit : Variant → List Limitation
ambiguity_limit v =
    if v.ambiguous
    then record {
      id = "ambiguous-correlation";
      summary =
          "Typed anchor matched multiple unmatched variants; no one-to-one modification was inferred.";
      details = "";
    }
      ∷ []
    else []

abbrev absent_kind : Bool → DeltaKind → DeltaKind
absent_kind other_complete kind = if other_complete then kind else coverage_changed

-- The variants of one side that are left: the basis is set after the id.
abbrev pub removed_record : Hashes → String → Bool → Variant → DeltaRecord
removed_record hashes scenario head_complete v =
    record (make_record hashes scenario (absent_kind head_complete removed) (some v) none []
      (ambiguity_limit v)) { basis = basis_for_absence head_complete v.profile }

abbrev pub added_record : Hashes → String → Bool → Variant → DeltaRecord
added_record hashes scenario base_complete v =
    record (make_record hashes scenario (absent_kind base_complete added) none (some v) []
      (ambiguity_limit v)) { basis = basis_for_absence base_complete v.profile }
