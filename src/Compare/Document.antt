-- ===== src/Compare/Document.antt =====
-- The comparison of all scenarios of a document (internal/compare/comparator.go `compareDocument`,
-- match.go `groupScenarios`, `scenarioComparison`, `summarize`, and snapshot.go `sortRecords`). The size
-- of the JSON text is a parameter, `none` where it cannot be made.
pub mod Groups
pub mod Observed
mod Tests
use glassroot.Common.{
  ℕ, zero, suc, ◌+◌, String, Bool, true, false, not, ◌||◌, ◌&&◌, Option, none, some, List, [], ◌∷◌,
  ◌++◌, map, length, Result, ok, err, ◌>>=◌, ◌>>◌, reject_if, str_eq, string_lt, sort, ltb, ◌==◌,
  if◌then◌else◌,
}
use glassroot.Model.{
  DeltaKind, added, removed, modified, count_changed, order_changed, stability_changed,
  coverage_changed, other_kind, coverage_limited, ObservationSource, CoverageAssessment, partial,
  none_covered, Limitation, FactKind, DeltaRecord, BehavioralDelta,
}
use glassroot.Compare.Facts.{
  Code, evidence_reference_limit, delta_limit, delta_too_large, serialization_failed, Revision,
  is_base, CoverageState, incomplete, not_started, AttemptTrace,
}
use glassroot.Compare.Occurrence.{empty_occurrence}
use glassroot.Compare.Variants.{Names, Hashes, attempts_complete}
use glassroot.Compare.Match.{compare_scenario}
use glassroot.Compare.Validate.{Limits, TraceDocument, validate_trace_document}

pub record ScenarioGroup : Type 0 where
  pub id : String
  pub base : List AttemptTrace
  pub head : List AttemptTrace

abbrev pub add_to_group : AttemptTrace → ScenarioGroup → ScenarioGroup
add_to_group a g =
    if is_base a.revision
    then record g { base = g.base ++ a ∷ [] }
    else record g { head = g.head ++ a ∷ [] }

abbrev pub new_group : String → ScenarioGroup
new_group id = record { id = id; base = []; head = [] }

unfoldable pub add_attempt : AttemptTrace → List ScenarioGroup → List ScenarioGroup
add_attempt a [] = add_to_group a (new_group a.scenario_id) ∷ []
add_attempt a (g ∷ gs) =
    let rest = add_attempt a gs in
    if str_eq g.id a.scenario_id then add_to_group a g ∷ gs else g ∷ rest

unfoldable pub add_attempts : List AttemptTrace → List ScenarioGroup → List ScenarioGroup
unfolding add_attempt
add_attempts [] gs = gs
add_attempts (a ∷ xs) gs = add_attempts xs (add_attempt a gs)

abbrev pub earlier : AttemptTrace → AttemptTrace → Bool
earlier a b = ltb a.repetition b.repetition

abbrev pub sort_group : ScenarioGroup → ScenarioGroup
sort_group g = record g { base = sort earlier g.base; head = sort earlier g.head }

unfoldable pub group_scenarios : List AttemptTrace → List ScenarioGroup
unfolding add_attempts sort
group_scenarios attempts = map sort_group (add_attempts attempts [])

pub record AttemptCoverage : Type 0 where
  pub attempt_id : String
  pub revision : Revision
  pub repetition : ℕ
  pub coverage : CoverageAssessment

abbrev coverage_of_attempt : CoverageState → CoverageAssessment
coverage_of_attempt CoverageState.complete = CoverageAssessment.complete
coverage_of_attempt not_started = none_covered
coverage_of_attempt incomplete = partial

abbrev attempt_coverage : List AttemptTrace → List AttemptCoverage
attempt_coverage attempts =
    map
      (λ (a : AttemptTrace). record {
        attempt_id = a.attempt_id;
        revision = a.revision;
        repetition = a.repetition;
        coverage = coverage_of_attempt a.coverage;
      })
      attempts

pub record ScenarioComparison : Type 0 where
  pub scenario_id : String
  pub base_repetitions : List AttemptCoverage
  pub head_repetitions : List AttemptCoverage
  pub coverage : CoverageAssessment

abbrev pub group_complete : ScenarioGroup → Bool
group_complete g = attempts_complete g.base && attempts_complete g.head

unfoldable pub scenario_comparison : ScenarioGroup → ScenarioComparison
scenario_comparison g = record {
  scenario_id = g.id;
  base_repetitions = attempt_coverage g.base;
  head_repetitions = attempt_coverage g.head;
  coverage =
      if group_complete g
      then CoverageAssessment.complete
      else if ltb 0 (length g.base + length g.head)
      then partial
      else none_covered;
}

-- The limitations that `scenarioComparison` returns besides.
unfoldable pub scenario_limitations : ScenarioGroup → List Limitation
scenario_limitations g =
    if not (attempts_complete g.base) || not (attempts_complete g.head)
    then record {
      id = "scenario-coverage-limited";
      summary = "At least one repetition has incomplete observation coverage.";
      details = "";
    }
      ∷ []
    else []

unfoldable pub coverage_record : Hashes → ScenarioGroup → Limitation → DeltaRecord
coverage_record hashes g lim =
    let rec : DeltaRecord = record {
      id = "";
      kind = coverage_changed;
      basis = coverage_limited;
      fact_kind = FactKind.other_fact "";
      source = ObservationSource.other_source "";
      anchor_digest = "";
      scenario_ids = g.id ∷ [];
      base_observed = false;
      head_observed = false;
      base_occurrence = empty_occurrence;
      head_occurrence = empty_occurrence;
      base_facts = [];
      head_facts = [];
      base_evidence = [];
      head_evidence = [];
      evidence = [];
      base_semantic_digests = [];
      head_semantic_digests = [];
      changed_fields = [];
      limitations = lim ∷ [];
    } in
    record rec { id = hashes.record_id g.id rec }

abbrev pub coverage_records : Hashes → ScenarioGroup → List DeltaRecord
coverage_records hashes g = map (coverage_record hashes g) (scenario_limitations g)

unfoldable pub compare_scenarios :
    Names
    → Hashes
    → Limits
    → List ScenarioGroup
    → List DeltaRecord
    → ℕ
    → Result Code (List DeltaRecord)
unfolding compare_scenario coverage_record scenario_limitations
compare_scenarios names hashes limits [] records refs = ok records
compare_scenarios names hashes limits (g ∷ gs) records refs = do
  found ← compare_scenario names hashes g.id g.base g.head
  reject_if (ltb limits.max_evidence_refs_total (refs + found.1)) evidence_reference_limit
  reject_if
      (ltb limits.max_delta_records (length (records ++ coverage_records hashes g ++ found.0)))
      delta_limit
  compare_scenarios names hashes limits gs (records ++ coverage_records hashes g ++ found.0)
      (refs + found.1)

abbrev rank : DeltaKind → ℕ
rank coverage_changed = 0
rank stability_changed = 1
rank added = 2
rank removed = 3
rank modified = 4
rank count_changed = 5
rank order_changed = 6
rank (other_kind k) = 9

abbrev pub first_scenario : List String → String
first_scenario [] = ""
first_scenario (s ∷ ss) = s

abbrev pub record_before : Names → DeltaRecord → DeltaRecord → Bool
record_before names a b =
    if not (str_eq (first_scenario a.scenario_ids) (first_scenario b.scenario_ids))
    then string_lt (first_scenario a.scenario_ids) (first_scenario b.scenario_ids)
    else if not (rank a.kind == rank b.kind)
    then ltb (rank a.kind) (rank b.kind)
    else if not (str_eq (names.kind a.fact_kind) (names.kind b.fact_kind))
    then string_lt (names.kind a.fact_kind) (names.kind b.fact_kind)
    else if not (str_eq (names.source a.source) (names.source b.source))
    then string_lt (names.source a.source) (names.source b.source)
    else if not (str_eq a.anchor_digest b.anchor_digest)
    then string_lt a.anchor_digest b.anchor_digest
    else string_lt a.id b.id

abbrev pub sort_records : Names → List DeltaRecord → List DeltaRecord
sort_records names records = sort (record_before names) records

abbrev pub with_id : Hashes → DeltaRecord → DeltaRecord
with_id hashes r =
    if str_eq r.id ""
    then record r { id = hashes.record_id (first_scenario r.scenario_ids) r }
    else r

pub record DeltaSummary : Type 0 where
  pub total_records : ℕ
  pub added : ℕ
  pub removed : ℕ
  pub modified : ℕ
  pub count_changed : ℕ
  pub order_changed : ℕ
  pub stability_changed : ℕ
  pub coverage_changed : ℕ

abbrev pub no_records : DeltaSummary
no_records = record {
  total_records = 0;
  added = 0;
  removed = 0;
  modified = 0;
  count_changed = 0;
  order_changed = 0;
  stability_changed = 0;
  coverage_changed = 0;
}

abbrev pub tick : DeltaKind → DeltaSummary → DeltaSummary
tick DeltaKind.added s = record s { added = suc s.added }
tick DeltaKind.removed s = record s { removed = suc s.removed }
tick DeltaKind.modified s = record s { modified = suc s.modified }
tick DeltaKind.count_changed s = record s { count_changed = suc s.count_changed }
tick DeltaKind.order_changed s = record s { order_changed = suc s.order_changed }
tick DeltaKind.stability_changed s = record s { stability_changed = suc s.stability_changed }
tick DeltaKind.coverage_changed s = record s { coverage_changed = suc s.coverage_changed }
tick (other_kind k) s = s

unfoldable pub summarize_from : DeltaSummary → List DeltaRecord → DeltaSummary
summarize_from s [] = s
summarize_from s (r ∷ rs) = summarize_from (tick r.kind s) rs

unfoldable pub summarize : List DeltaRecord → DeltaSummary
unfolding summarize_from
summarize records = summarize_from (record no_records { total_records = length records }) records

pub record FrozenDelta : Type 0 where
  pub delta : BehavioralDelta
  pub scenario_comparisons : List ScenarioComparison
  pub summary : DeltaSummary

abbrev pub frozen_delta : TraceDocument → List ScenarioGroup → List DeltaRecord → FrozenDelta
unfolding summarize scenario_comparison
frozen_delta doc groups records = record {
  delta = record {
    execution_complete = doc.execution_complete;
    evidence_complete = doc.evidence_complete;
    evidence_context = doc.evidence_context;
    scenario_ids = map (λ (g : ScenarioGroup). g.id) groups;
    records = records;
  };
  scenario_comparisons = map scenario_comparison groups;
  summary = summarize records;
}

abbrev pub within_size : Limits → FrozenDelta → Option ℕ → Result Code FrozenDelta
within_size limits d none = err serialization_failed
within_size limits d (some n) =
    if ltb limits.max_delta_json_bytes n then err delta_too_large else ok d

unfoldable pub compare_document :
    Names → Hashes → (FrozenDelta → Option ℕ) → Limits → TraceDocument → Result Code FrozenDelta
unfolding validate_trace_document group_scenarios compare_scenarios sort summarize
    scenario_comparison
compare_document names hashes json limits doc = do
  validate_trace_document limits doc
  records ← compare_scenarios names hashes limits (group_scenarios doc.attempts) [] 0
  let d =
      frozen_delta doc (group_scenarios doc.attempts)
        (map (with_id hashes) (sort_records names records))
  within_size limits d (json d)
