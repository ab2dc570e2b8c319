-- ===== src/Policy/Rules.antt =====
-- The rules of one delta record (internal/policy/rules.go, `specsForRecord` and what it tests).
pub mod Bounds
pub mod Triggers
use glassroot.Common.{
  ℕ, zero, suc, String, Bool, true, false, not, ◌&&◌, ◌||◌, Option, none, some, List, [], ◌∷◌, ◌++◌,
  str_eq, any, all, contains_string, Result, ok, err, ◌>>=◌, if◌then◌else◌, ltb, length,
}
use glassroot.Model.{
  Severity, medium, high, Confidence, low_confidence, medium_confidence, Disposition,
  requires_review, DeltaKind, added, modified, count_changed, stability_changed, coverage_changed,
  ComparisonBasis, coverage_limited, CoverageAssessment, complete, none_covered,
  RepeatabilityAssessment, stable, variable, single, not_assessable, OccurrenceProfile, FactKind,
  process_start, filesystem_create, filesystem_read, filesystem_write, filesystem_delete,
  filesystem_rename, filesystem_chmod, dns_query, network_connection, artifact_activity,
  observer_warning, unsupported_observation, resource_limit, FactPayload, filesystem, artifact,
  DeltaRecord, Limitation,
}
use glassroot.Policy.Confidence.{classify_policy_confidence}

-- The rules that this profile emits (`ruleCatalog`); their identifiers are `rule_id`.
pub data Rule : Type 0 where
  obs_001 proc_001 fs_001 fs_002 net_001 art_001 det_001 limit_001 : Rule

abbrev pub rule_id : Rule → String
rule_id obs_001 = "GR-OBS-001"
rule_id proc_001 = "GR-PROC-001"
rule_id fs_001 = "GR-FS-001"
rule_id fs_002 = "GR-FS-002"
rule_id net_001 = "GR-NET-001"
rule_id art_001 = "GR-ART-001"
rule_id det_001 = "GR-DET-001"
rule_id limit_001 = "GR-LIMIT-001"

pub data Code : Type 0 where
  invalid_delta_record finding_limit evidence_reference_limit duplicate_finding_id : Code

pub record FindingSpec : Type 0 where
  pub rule : Rule
  pub severity : Severity
  pub confidence : Confidence
  pub disposition : Disposition
  pub record_ids : List String
  pub scenario_ids : List String
  pub base_observed : Bool
  pub head_observed : Bool
  pub evidence : List String
  pub limitations : List Limitation
  pub scope : String

abbrev pub is_empty {ℓ} : {A : Type ℓ} → List A → Bool
is_empty [] = true
is_empty (x ∷ xs) = false

abbrev is_complete : CoverageAssessment → Bool
is_complete complete = true
is_complete _ = false

abbrev is_none : CoverageAssessment → Bool
is_none none_covered = true
is_none _ = false

abbrev is_modified : DeltaKind → Bool
is_modified modified = true
is_modified _ = false

abbrev is_coverage_limited : ComparisonBasis → Bool
is_coverage_limited coverage_limited = true
is_coverage_limited _ = false

unfoldable pub evidence_for_record : DeltaRecord → List String
evidence_for_record rec =
    if rec.head_observed && not (is_empty rec.head_evidence)
    then rec.head_evidence
    else if rec.base_observed && not (is_empty rec.base_evidence)
    then rec.base_evidence
    else rec.evidence

pub head_count_increase : DeltaRecord → Bool
head_count_increase rec =
    let b = rec.base_occurrence in
    let h = rec.head_occurrence in
    if is_none b.coverage || is_none h.coverage
    then false
    else ltb b.total_known_count h.total_known_count
      || ltb b.maximum_known_count h.maximum_known_count

kind_positive : DeltaRecord → DeltaKind → Bool
kind_positive rec added = true
kind_positive rec modified = true
kind_positive rec coverage_changed = true
kind_positive rec count_changed = head_count_increase rec
kind_positive rec _ = false

unfoldable pub head_positive : DeltaRecord → Bool
unfolding kind_positive
head_positive rec =
    if not rec.head_observed || is_empty rec.head_facts then false else kind_positive rec rec.kind

unfoldable pub head_warning : FactKind → Bool
head_warning observer_warning = true
head_warning unsupported_observation = true
head_warning _ = false

unfoldable pub warning_kind : DeltaKind → Bool
warning_kind added = true
warning_kind modified = true
warning_kind coverage_changed = true
warning_kind _ = false

pub only_changed_exit_or_duration : List String → Bool
only_changed_exit_or_duration [] = false
only_changed_exit_or_duration (f ∷ fs) =
    all (λ x. str_eq x "process.exitCode" || str_eq x "process.durationMillis") (f ∷ fs)

abbrev pub is_process_start : FactKind → Bool
is_process_start process_start = true
is_process_start _ = false

unfoldable pub is_process_new : DeltaRecord → Bool
is_process_new rec =
    is_process_start rec.fact_kind
    && (not (is_modified rec.kind) || not (only_changed_exit_or_duration rec.changed_fields))

unfoldable pub is_filesystem_fact : FactKind → Bool
is_filesystem_fact filesystem_create = true
is_filesystem_fact filesystem_read = true
is_filesystem_fact filesystem_write = true
is_filesystem_fact filesystem_delete = true
is_filesystem_fact filesystem_rename = true
is_filesystem_fact filesystem_chmod = true
is_filesystem_fact _ = false

unfoldable pub is_network_fact : FactKind → Bool
is_network_fact network_connection = true
is_network_fact dns_query = true
is_network_fact _ = false

unfoldable pub is_artifact_fact : FactKind → Bool
is_artifact_fact artifact_activity = true
is_artifact_fact _ = false

unfoldable pub is_resource_fact : FactKind → Bool
is_resource_fact resource_limit = true
is_resource_fact _ = false

-- The `continue` of the loops of `executableHeadBehavior`: a modification that did not change the
-- executable bit does not count.
skips_executable : DeltaRecord → String → Bool
skips_executable rec field =
    is_modified rec.kind
    && not (contains_string field rec.changed_fields)
    && not (head_count_increase rec)

executable_file : FactPayload → Bool
executable_file (filesystem namespace operation executable) = executable
executable_file _ = false

executable_artifact : FactPayload → Bool
executable_artifact (artifact executable) = executable
executable_artifact _ = false

unfoldable pub executable_head_behavior : DeltaRecord → Bool
unfolding skips_executable executable_file executable_artifact
executable_head_behavior rec =
    is_filesystem_fact rec.fact_kind
      && any (λ f. executable_file f && not (skips_executable rec "filesystem.executable"))
          rec.head_facts
    || is_artifact_fact rec.fact_kind
      && any (λ f. executable_artifact f && not (skips_executable rec "artifact.executable"))
          rec.head_facts

mutates : String → Bool
mutates op =
    str_eq op "create"
    || str_eq op "write"
    || str_eq op "delete"
    || str_eq op "rename"
    || str_eq op "chmod"
    || str_eq op "permission-change"

reads : String → Bool
reads op = str_eq op "read" || str_eq op "stat" || str_eq op "metadata" || str_eq op "metadata-read"

-- The severity of the first access outside the configured roots, `none` if there is none.
pub outside_root_severity : List FactPayload → Result Code (Option Severity)
outside_root_severity [] = ok none
outside_root_severity (filesystem namespace operation executable ∷ fs) =
    let rest = outside_root_severity fs in
    if not (str_eq namespace "absolute-unmapped")
    then rest
    else if mutates operation
    then ok (some high)
    else if reads operation
    then ok (some medium)
    else err invalid_delta_record
outside_root_severity (_ ∷ fs) = outside_root_severity fs

pub repeatability_rank : RepeatabilityAssessment → ℕ
repeatability_rank stable = 0
repeatability_rank single = 1
repeatability_rank variable = 2
repeatability_rank not_assessable = 3
repeatability_rank _ = 4

unfoldable pub repeatability_worse : RepeatabilityAssessment → RepeatabilityAssessment → Bool
unfolding repeatability_rank
repeatability_worse base head = ltb (repeatability_rank base) (repeatability_rank head)

abbrev pub spec_with : DeltaRecord → Rule → Severity → Confidence → FindingSpec
spec_with rec rule severity confidence = record {
  rule = rule;
  severity = severity;
  confidence = confidence;
  disposition = requires_review;
  record_ids = rec.id ∷ [];
  scenario_ids = rec.scenario_ids;
  base_observed = rec.base_observed;
  head_observed = rec.head_observed;
  evidence = evidence_for_record rec;
  limitations = rec.limitations;
  scope = "record";
}

-- The closure `add`.
abbrev pub spec : DeltaRecord → Rule → Severity → FindingSpec
spec rec rule severity =
    spec_with rec rule severity (classify_policy_confidence rec.basis rec.source true)

abbrev pub when : Bool → FindingSpec → List FindingSpec
when true s = s ∷ []
when false s = []

abbrev pub is_stability : DeltaKind → Bool
is_stability stability_changed = true
is_stability _ = false

abbrev pub is_coverage : DeltaKind → Bool
is_coverage coverage_changed = true
is_coverage _ = false

pub det_confidence : DeltaRecord → Confidence
det_confidence rec =
    if is_coverage_limited rec.basis || not (is_complete rec.head_occurrence.coverage)
    then low_confidence
    else medium_confidence

-- The early return for lost coverage without a positive head observation.
unfoldable pub coverage_lost : DeltaRecord → Bool
coverage_lost rec = is_coverage rec.kind && not (rec.head_observed && not (is_empty rec.head_facts))

abbrev pub outside_specs : DeltaRecord → Option Severity → List FindingSpec
outside_specs rec none = []
outside_specs rec (some severity) = spec rec fs_002 severity ∷ []

unfoldable pub fs_002_specs : DeltaRecord → Result Code (List FindingSpec)
fs_002_specs rec =
    if head_positive rec && is_filesystem_fact rec.fact_kind
    then (do severity ← outside_root_severity rec.head_facts; ok (outside_specs rec severity))
    else ok []

-- What is added before GR-FS-002, and after it.
unfoldable pub specs_before : DeltaRecord → List FindingSpec
specs_before rec =
    when (head_warning rec.fact_kind && warning_kind rec.kind) (spec rec obs_001 medium)
    ++ (when (head_positive rec && is_process_new rec) (spec rec proc_001 medium)
        ++ when (head_positive rec && executable_head_behavior rec) (spec rec fs_001 high))

unfoldable pub specs_after : DeltaRecord → List FindingSpec
specs_after rec =
    when (head_positive rec && is_network_fact rec.fact_kind) (spec rec net_001 high)
    ++ (when (head_positive rec && is_artifact_fact rec.fact_kind) (spec rec art_001 medium)
        ++ (when
              (is_stability rec.kind
                && repeatability_worse rec.base_occurrence.repeatability
                    rec.head_occurrence.repeatability)
              (spec_with rec det_001 medium (det_confidence rec))
            ++ when (head_positive rec && is_resource_fact rec.fact_kind)
                (spec rec limit_001 high)))

abbrev pub lost_severity : DeltaRecord → Severity
lost_severity rec = if is_complete rec.head_occurrence.coverage then medium else high

unfoldable pub specs_for_record : DeltaRecord → Result Code (List FindingSpec)
specs_for_record rec =
    if coverage_lost rec
    then ok (spec rec obs_001 (lost_severity rec) ∷ [])
    else do outside ← fs_002_specs rec; ok (specs_before rec ++ (outside ++ specs_after rec))
