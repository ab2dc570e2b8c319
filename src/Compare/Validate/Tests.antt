-- ===== src/Compare/Validate/Tests.antt =====
-- A document with an attempt of each side, and documents that are refused.
use glassroot.Common.{
  ℕ, ◌≡◌, ◌≤◌, refl, String, true, false, none, some, List, [], ◌∷◌, map, All, ok, err,
}
use glassroot.Common.Int.{pos}
use glassroot.Model.{workload_reported, resource_limit}
use glassroot.Compare.Facts.{
  invalid_limits, invalid_attempt_inventory, duplicate_fact_id, Revision, base_revision,
  head_revision, CoverageState, Fact, AttemptTrace, RawEvidence,
}
use glassroot.Compare.Match.Counting.{Distinct}
use glassroot.Compare.Validate.{
  TraceDocument, default_limits, validate_limits, validate_trace_document, coordinate,
  trace_set_schema, profile_version,
}
use glassroot.Compare.Validate.Checked.{
  validate_trace_document-Checked, all_fact_ids, Numbered, BaseFirst, fact_total, AttemptChecked,
}

abbrev pub digest : String
digest = "sha256:0000000000000000000000000000000000000000000000000000000000000000"

abbrev evidence : Revision → RawEvidence
evidence side = record {
  event_stream_digest = digest;
  event_stream_path = "events";
  event_id = "e";
  event_sequence = 1;
  revision = side;
  scenario_id = "s";
  repetition = 1;
}

abbrev fact : Revision → String → Fact
fact side id = record {
  id = id;
  semantic_digest = digest;
  kind = resource_limit;
  source = workload_reported;
  process = none;
  filesystem = none;
  network = none;
  artifact = none;
  scenario = none;
  warning = none;
  resource = some (record {
    limit_kind = "memory";
    limit_value = pos 1;
    observed_value = pos 2;
    exceeded = true;
  });
  evidence = evidence side ∷ [];
}

abbrev attempt : Revision → String → ℕ → List Fact → AttemptTrace
attempt side id ordinal facts = record {
  attempt_id = id;
  ordinal = ordinal;
  revision = side;
  scenario_id = "s";
  repetition = 1;
  coverage = CoverageState.complete;
  facts = facts;
}

abbrev pub document : List AttemptTrace → TraceDocument
document attempts = record {
  schema_version = trace_set_schema;
  profile_version = profile_version;
  plan_digest = digest;
  manifest_digest = digest;
  run_id = "run";
  execution_complete = true;
  evidence_complete = true;
  evidence_context = record { synthetic_evidence = false; executes_target_code = true };
  attempts = attempts;
  limitations = [];
}

abbrev pub both_sides : TraceDocument
both_sides = document (
    attempt base_revision "a" 1 (fact base_revision "f" ∷ []) ∷ attempt head_revision "b" 2 [] ∷ [])

abbrev pub equal_sides : TraceDocument
equal_sides = document (attempt base_revision "a" 1 [] ∷ attempt head_revision "b" 2 [] ∷ [])

accepted : validate_trace_document default_limits both_sides ≡ ok tt
unfolding validate_trace_document
accepted = refl

head_first :
    validate_trace_document default_limits
      (document (attempt head_revision "b" 1 [] ∷ attempt base_revision "a" 2 [] ∷ []))
    ≡ err invalid_attempt_inventory
unfolding validate_trace_document
head_first = refl

fact_twice :
    validate_trace_document default_limits (
      document (
        attempt base_revision "a" 1 (fact base_revision "f" ∷ [])
        ∷ attempt head_revision "b" 2 (fact head_revision "f" ∷ [])
        ∷ []))
    ≡ err duplicate_fact_id
unfolding validate_trace_document
fact_twice = refl

limit_zero : validate_limits (record default_limits { max_attempts = 0 }) ≡ err invalid_limits
unfolding validate_limits
limit_zero = refl

validate_trace_document-Checked_example :
    Distinct (map (λ (a : AttemptTrace). a.attempt_id) both_sides.attempts)
    × Distinct (map coordinate both_sides.attempts)
    × Distinct (all_fact_ids both_sides.attempts)
    × Numbered 0 both_sides.attempts
    × BaseFirst false both_sides.attempts
    × (fact_total both_sides.attempts ≤ default_limits.max_facts_total)
    × All AttemptChecked both_sides.attempts
validate_trace_document-Checked_example =
    validate_trace_document-Checked default_limits both_sides accepted
