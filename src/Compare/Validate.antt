-- ===== src/Compare/Validate.antt =====
-- What a document of traces must satisfy to be compared (internal/compare/comparator.go
-- `validateTraceDocument` and what it calls), and the limits of a comparator (limits.go). The sets of
-- what was seen are lists. Limits are natural numbers; the code refuses a negative one as it does zero.
pub mod Checked
pub mod Tests
use glassroot.Common.{
  ℕ, zero, suc, ◌+◌, ◌*◌, String, Bool, true, false, not, ◌||◌, ◌&&◌, Option, none, some, List, [],
  ◌∷◌, any, length, contains_string, Result, ok, err, ◌>>=◌, ◌>>◌, reject_if, str_eq, ltb, ◌==◌,
  if◌then◌else◌, join_nul, valid_digest,
}
use glassroot.Model.{
  ObservationSource, host_observed, network_broker_observed, sandbox_runtime_observed,
  guest_agent_reported, workload_reported, static_analysis_derived, model_inferred,
  synthetic_test_generated, other_source, FactKind, Limitation, EvidenceContext,
}
use glassroot.Compare.Facts.{
  Code, invalid_limits, unsupported_normalization_profile, invalid_trace_set,
  invalid_attempt_inventory, duplicate_attempt, duplicate_fact_id, invalid_semantic_digest,
  unsupported_fact_kind, invalid_observation_source, invalid_fact_payload,
  evidence_reference_invalid, comparison_limit, Revision, revision_name, is_base, is_head,
  RawEvidence, Fact, AttemptTrace, itoa, is_process, is_filesystem, is_network, is_artifact,
  is_scenario, is_warning, is_resource,
}

pub record Limits : Type 0 where
  pub max_scenarios : ℕ
  pub max_attempts : ℕ
  pub max_facts_per_attempt : ℕ
  pub max_facts_total : ℕ
  pub max_distinct_semantic_variants : ℕ
  pub max_distinct_anchors : ℕ
  pub max_variants_per_anchor : ℕ
  pub max_delta_records : ℕ
  pub max_changed_fields_per_record : ℕ
  pub max_evidence_refs_per_record : ℕ
  pub max_evidence_refs_total : ℕ
  pub max_limitations_per_record : ℕ
  pub max_limitations_total : ℕ
  pub max_delta_json_bytes : ℕ

-- `DefaultLimits`, which are the greatest.
abbrev pub default_limits : Limits
default_limits = record {
  max_scenarios = 64;
  max_attempts = 1280;
  max_facts_per_attempt = 10000;
  max_facts_total = 100000;
  max_distinct_semantic_variants = 100000;
  max_distinct_anchors = 100000;
  max_variants_per_anchor = 1024;
  max_delta_records = 100000;
  max_changed_fields_per_record = 128;
  max_evidence_refs_per_record = 1024;
  max_evidence_refs_total = 200000;
  max_limitations_per_record = 1000;
  max_limitations_total = 10000;
  max_delta_json_bytes = 67108864;
}

abbrev limit_values : Limits → List ℕ
limit_values l =
    l.max_scenarios ∷ l.max_attempts ∷ l.max_facts_per_attempt ∷ l.max_facts_total
    ∷ l.max_distinct_semantic_variants ∷ l.max_distinct_anchors ∷ l.max_variants_per_anchor
    ∷ l.max_delta_records ∷ l.max_changed_fields_per_record ∷ l.max_evidence_refs_per_record
    ∷ l.max_evidence_refs_total ∷ l.max_limitations_per_record ∷ l.max_limitations_total
    ∷ l.max_delta_json_bytes ∷ []

abbrev out_of_bounds : List ℕ → List ℕ → Bool
out_of_bounds (v ∷ vs) (m ∷ ms) = v == 0 || ltb m v || out_of_bounds vs ms
out_of_bounds _ _ = false

unfoldable pub validate_limits : Limits → Result Code Limits
validate_limits l = do
  reject_if (out_of_bounds (limit_values l) (limit_values default_limits)) invalid_limits
  ok l

pub record TraceDocument : Type 0 where
  pub schema_version : String
  pub profile_version : String
  pub plan_digest : String
  pub manifest_digest : String
  pub run_id : String
  pub execution_complete : Bool
  pub evidence_complete : Bool
  pub evidence_context : EvidenceContext
  pub attempts : List AttemptTrace
  pub limitations : List Limitation

abbrev is_there : {A : Type 0} → Option A → ℕ
is_there none = 0
is_there (some a) = 1

abbrev pub payload_count : Fact → ℕ
payload_count f =
    is_there f.process
    + is_there f.filesystem
    + is_there f.network
    + is_there f.artifact
    + is_there f.scenario
    + is_there f.warning
    + is_there f.resource

abbrev pub is_supported_fact_kind : FactKind → Bool
is_supported_fact_kind k =
    is_process k
    || is_filesystem k
    || is_network k
    || is_artifact k
    || is_scenario k
    || is_warning k
    || is_resource k

abbrev pub is_supported_source : ObservationSource → Bool
is_supported_source (other_source s) = false
is_supported_source _ = true

-- `ref` is evidence of the attempt.
abbrev pub refers_to : AttemptTrace → RawEvidence → Bool
refers_to a ref = not (
    not (str_eq (revision_name ref.revision) (revision_name a.revision))
    || not (str_eq ref.scenario_id a.scenario_id)
    || not (ref.repetition == a.repetition)
    || str_eq ref.event_id ""
    || ref.event_sequence == 0
    || not (valid_digest ref.event_stream_digest)
    || str_eq ref.event_stream_path "")

unfoldable pub validate_evidence : AttemptTrace → List RawEvidence → Result Code Unit
unfolding valid_digest
validate_evidence a [] = ok tt
validate_evidence a (ref ∷ refs) = do
  reject_if (not (refers_to a ref)) evidence_reference_invalid
  validate_evidence a refs

-- The ids of facts that were seen, with that of the fact.
unfoldable pub validate_fact : AttemptTrace → Fact → List String → Result Code (List String)
unfolding validate_evidence valid_digest
validate_fact a f seen = do
  reject_if (str_eq f.id "") invalid_trace_set
  reject_if (contains_string f.id seen) duplicate_fact_id
  reject_if (not (valid_digest f.semantic_digest)) invalid_semantic_digest
  reject_if (not (is_supported_fact_kind f.kind)) unsupported_fact_kind
  reject_if (not (is_supported_source f.source)) invalid_observation_source
  reject_if (not (payload_count f == 1)) invalid_fact_payload
  validate_evidence a f.evidence
  ok (f.id ∷ seen)

unfoldable pub validate_facts : AttemptTrace → List Fact → List String → Result Code (List String)
unfolding validate_fact
validate_facts a [] seen = ok seen
validate_facts a (f ∷ fs) seen = validate_fact a f seen >>= λ seen'. validate_facts a fs seen'

pub record Seen : Type 0 where
  pub attempts : List String
  pub coordinates : List String
  pub fact_ids : List String
  pub facts : ℕ
  pub saw_head : Bool
  pub index : ℕ

abbrev pub nothing_seen : Seen
nothing_seen = record {
  attempts = [];
  coordinates = [];
  fact_ids = [];
  facts = 0;
  saw_head = false;
  index = 0;
}

abbrev pub coordinate : AttemptTrace → String
coordinate a = join_nul (revision_name a.revision ∷ a.scenario_id ∷ itoa a.repetition ∷ [])

abbrev pub seen_too : AttemptTrace → List String → Seen → Seen
seen_too a ids s = record {
  attempts = a.attempt_id ∷ s.attempts;
  coordinates = coordinate a ∷ s.coordinates;
  fact_ids = ids;
  facts = s.facts + length a.facts;
  saw_head = s.saw_head || is_head a.revision;
  index = suc s.index;
}

unfoldable pub validate_attempt : Limits → AttemptTrace → Seen → Result Code Seen
unfolding validate_facts join_nul itoa
validate_attempt limits a s = do
  reject_if (str_eq a.attempt_id "" || str_eq a.scenario_id "" || a.repetition == 0)
      invalid_attempt_inventory
  reject_if (contains_string a.attempt_id s.attempts) duplicate_attempt
  reject_if (contains_string (coordinate a) s.coordinates) duplicate_attempt
  reject_if (not (is_head a.revision) && is_base a.revision && s.saw_head) invalid_attempt_inventory
  reject_if (not (is_head a.revision) && not (is_base a.revision)) invalid_attempt_inventory
  reject_if (ltb limits.max_facts_per_attempt (length a.facts)) comparison_limit
  reject_if (ltb limits.max_facts_total (s.facts + length a.facts)) comparison_limit
  reject_if (not (s.index + 1 == a.ordinal)) invalid_attempt_inventory
  ids ← validate_facts a a.facts s.fact_ids
  ok (seen_too a ids s)

unfoldable pub validate_attempts : Limits → List AttemptTrace → Seen → Result Code Seen
unfolding validate_attempt
validate_attempts limits [] s = ok s
validate_attempts limits (a ∷ xs) s =
    validate_attempt limits a s >>= λ s'. validate_attempts limits xs s'

abbrev pub trace_set_schema : String
trace_set_schema = "glassroot.dev/normalized-trace/v1alpha1"

abbrev pub profile_version : String
profile_version = "glassroot.dev/normalization-profile/v1alpha1"

unfoldable pub validate_trace_document : Limits → TraceDocument → Result Code Unit
unfolding validate_attempts valid_digest
validate_trace_document limits doc = do
  reject_if
      (not (str_eq doc.schema_version trace_set_schema)
        || not (str_eq doc.profile_version profile_version))
      unsupported_normalization_profile
  reject_if (not (valid_digest doc.plan_digest) || not (valid_digest doc.manifest_digest))
      invalid_trace_set
  reject_if (str_eq doc.run_id "") invalid_trace_set
  reject_if (length doc.attempts == 0 || ltb limits.max_attempts (length doc.attempts))
      invalid_attempt_inventory
  seen ← validate_attempts limits doc.attempts nothing_seen
  ok tt
