-- ===== src/Policy/Tests.antt =====
-- The policy at concrete inputs: the theorems where their hypotheses hold, and runs.
use glassroot.Common.{
  ◌≡◌, refl, true, false, List, [], ◌∷◌, map, count, length, str_eq, Unique, ok, if◌then◌else◌, ltb,
  sort, sorted_unique,
}
use glassroot.Model.{
  medium, high, high_confidence, passed, requires_review, failed, waived, DeltaKind,
  complete_observation, host_observed, complete, stable, OccurrenceProfile, network_connection,
  other_payload, DeltaRecord, BehavioralDelta, Finding,
}
use glassroot.Policy.Confidence.{classify_policy_confidence}
use glassroot.Policy.Rules.{
  FindingSpec, net_001, spec, specs_for_record, specs_before, specs_after, fs_002_specs,
  coverage_lost, head_positive, head_warning, warning_kind, is_process_new,
  executable_head_behavior, is_filesystem_fact, is_network_fact, is_artifact_fact, is_resource_fact,
  repeatability_worse, evidence_for_record,
}
use glassroot.Policy.Evaluate.{
  Limits, FindingId, Evaluation, evaluate_findings, evaluate_rules, make_findings, make_finding,
  global_specs, record_findings, records_findings, finding_lt, check_findings, summary_step,
  summarize_from, summarize_findings as summarize_evaluated, overall_disposition, incomplete,
  sort_limitations,
}
use glassroot.Policy.Evaluate.Outcome.{fails, evaluate_findings-overall}
use glassroot.Policy.Waivers.{
  Waiver, BaseState, BaseAssessment, AppliedFinding, WaiverStatus, WaiverStatusRecord, waive,
  as_applied, apply_base_waivers, apply_waivers, apply_waiver, apply_target, target_status, by_id,
  waiver_eligible_finding,
}
use glassroot.Policy.Governance.{
  ConfigState, ConfigAssessment, WaiverHeadState, WaiverHeadAssessment, ApplicationLimits,
  governance_findings, add_governance, config_governance_specs, waiver_governance_specs,
}
use glassroot.Policy.Application.{
  Application, apply, check_original, applied_lt, overall_effective_disposition, summarize_findings,
  summarize_statuses, count_invalid, summarize_application,
}

abbrev quiet_profile : OccurrenceProfile
quiet_profile = record {
  planned_repetition_count = 1;
  complete_repetition_count = 1;
  incomplete_repetition_count = 0;
  minimum_known_count = 0;
  maximum_known_count = 0;
  total_known_count = 0;
  coverage = complete;
  repeatability = stable;
  repetitions = [];
}

-- A connection that only the head makes.
abbrev connection : DeltaRecord
connection = record {
  id = "r1";
  kind = DeltaKind.added;
  basis = complete_observation;
  fact_kind = network_connection;
  source = host_observed;
  scenario_ids = "s1" ∷ [];
  base_observed = false;
  head_observed = true;
  base_occurrence = quiet_profile;
  head_occurrence = record quiet_profile {
    minimum_known_count = 1;
    maximum_known_count = 1;
    total_known_count = 1;
  };
  base_facts = [];
  head_facts = other_payload ∷ [];
  base_evidence = [];
  head_evidence = "e1" ∷ [];
  evidence = "e1" ∷ [];
  anchor_digest = "";
  base_semantic_digests = [];
  head_semantic_digests = [];
  changed_fields = [];
  limitations = [];
}

abbrev connection_specs : List FindingSpec
connection_specs = spec connection net_001 high ∷ []

host_observed-high :
    classify_policy_confidence complete_observation host_observed true ≡ high_confidence
unfolding classify_policy_confidence
host_observed-high = refl

abbrev limits : Limits
limits = record {
  max_findings = 100;
  max_findings_per_delta_record = 8;
  max_delta_record_ids_per_finding = 16;
  max_scenario_ids_per_finding = 16;
  max_evidence_refs_per_finding = 16;
  max_evidence_refs_total = 100;
  max_limitations_per_finding = 16;
}

-- Ids that differ where the rules do.
abbrev finding_id : FindingId
finding_id rule ids scope scenarios = rule

abbrev delta : BehavioralDelta
delta = record {
  execution_complete = true;
  evidence_complete = true;
  evidence_context = record { synthetic_evidence = true; executes_target_code = true };
  scenario_ids = "s1" ∷ [];
  records = connection ∷ [];
}

abbrev net_finding : Finding
net_finding = record {
  id = "GR-NET-001";
  rule_id = "GR-NET-001";
  severity = high;
  confidence = high_confidence;
  disposition = requires_review;
  delta_record_ids = "r1" ∷ [];
  scenario_ids = "s1" ∷ [];
  evidence = "e1" ∷ [];
  base_observed = false;
  head_observed = true;
  waived = false;
  limitations = [];
}

abbrev synthetic_finding : Finding
synthetic_finding = record {
  id = "GR-OBS-001";
  rule_id = "GR-OBS-001";
  severity = medium;
  confidence = high_confidence;
  disposition = requires_review;
  delta_record_ids = [];
  scenario_ids = [];
  evidence = [];
  base_observed = false;
  head_observed = false;
  waived = false;
  limitations =
      record {
        id = "synthetic-evidence";
        summary =
            "Policy evaluation is based on synthetic evidence; it is not target workload behavior.";
        details = "";
      }
      ∷ [];
}

abbrev evaluation : Evaluation
evaluation = record {
  overall = requires_review;
  findings = net_finding ∷ synthetic_finding ∷ [];
  summary = record {
    total_findings = 2;
    info = 0;
    low = 0;
    medium = 1;
    high = 1;
    critical = 0;
    requires_review = 2;
    failed = 0;
    passed = 0;
    waived = 0;
  };
}

evaluated : evaluate_findings limits finding_id delta ≡ ok evaluation
unfolding evaluate_findings evaluate_rules make_findings make_finding global_specs record_findings
    records_findings finding_lt check_findings summary_step summarize_from summarize_evaluated
    overall_disposition specs_for_record specs_before specs_after fs_002_specs coverage_lost
    head_positive head_warning warning_kind is_process_new executable_head_behavior
    is_filesystem_fact is_network_fact is_artifact_fact is_resource_fact repeatability_worse
    evidence_for_record classify_policy_confidence sorted_unique sort sort_limitations
evaluated = refl

evaluate_findings-overall_example :
    (evaluation.overall ≡ (
      if incomplete delta
      then failed
      else if ltb 0 (length evaluation.findings)
      then requires_review
      else passed))
    × (count fails evaluation.findings ≡ (if incomplete delta then 1 else 0))
evaluate_findings-overall_example =
    evaluate_findings-overall limits finding_id delta evaluation evaluated

abbrev waiver : Waiver
waiver = record {
  id = "w1";
  finding_id = "GR-NET-001";
  rule_id = "GR-NET-001";
  owner = "team";
  reason = "known";
  issued_at = 1;
  expires_at = 10;
}

abbrev base : BaseAssessment
base = record {
  state = BaseState.valid;
  raw_digest = "d";
  waivers = waiver ∷ [];
  semantic_digest = "s";
}

distinct : Unique str_eq (map (λ (f : Finding). f.id) (net_finding ∷ synthetic_finding ∷ []))
distinct = (refl, (refl, tt))

abbrev waived_net : List AppliedFinding × List WaiverStatusRecord
waived_net = apply_base_waivers (net_finding ∷ synthetic_finding ∷ []) base 5

abbrev application_limits : ApplicationLimits
application_limits = record {
  max_governance_findings = 10;
  max_applied_findings = 10;
  max_original_findings = 10;
}

abbrev same_config : ConfigAssessment
same_config = record { state = ConfigState.unchanged; head_digest = "d"; changes = [] }

abbrev same_waivers : WaiverHeadAssessment
same_waivers = record {
  state = WaiverHeadState.unchanged;
  raw_digest = "d";
  semantic_digest = "s";
  changes = [];
}

abbrev application : Application
application = record {
  overall = passed;
  applied_findings = waive base waiver (as_applied net_finding) ∷ [];
  waiver_statuses =
      record {
        waiver_id = "w1";
        finding_id = "GR-NET-001";
        rule_id = "GR-NET-001";
        status = WaiverStatus.applied;
      }
      ∷ [];
  summary = record {
    total_findings = 1;
    builtin_findings = 1;
    configuration_findings = 0;
    waiver_governance_findings = 0;
    effective_passed = 0;
    effective_requires_review = 0;
    effective_failed = 0;
    effective_waived = 1;
    info = 0;
    low = 0;
    medium = 0;
    high = 1;
    critical = 0;
    applied_waivers = 1;
    expired_waivers = 0;
    unused_waivers = 0;
    invalid_waivers = 0;
  };
}

applied :
    apply application_limits finding_id (net_finding ∷ []) same_config base same_waivers 5
    ≡ ok application
unfolding apply check_original apply_base_waivers apply_waivers apply_waiver apply_target
    target_status by_id waiver_eligible_finding governance_findings add_governance
    config_governance_specs waiver_governance_specs applied_lt overall_effective_disposition
    summarize_findings summarize_statuses count_invalid summarize_application sort
applied = refl
