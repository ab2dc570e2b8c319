-- ===== src/Model.antt =====
-- The versioned records that the other parts exchange (internal/model). A Go string type with
-- constants is a data type with a constructor for each constant and one for every other text.
use glassroot.Common.{ℕ, String, Bool, List, true, false}

pub data Severity : Type 0 where
  info low medium high critical : Severity
  other_severity : String → Severity

pub data Confidence : Type 0 where
  low_confidence medium_confidence high_confidence unknown_confidence : Confidence
  other_confidence : String → Confidence

pub data Disposition : Type 0 where
  passed requires_review failed waived : Disposition
  other_disposition : String → Disposition

pub data DeltaKind : Type 0 where
  added removed modified count_changed order_changed stability_changed coverage_changed : DeltaKind
  other_kind : String → DeltaKind

pub data ComparisonBasis : Type 0 where
  complete_observation single_sample repetition_variable coverage_limited ambiguous_correlation :
      ComparisonBasis
  other_basis : String → ComparisonBasis

pub data ObservationSource : Type 0 where
  host_observed network_broker_observed sandbox_runtime_observed guest_agent_reported :
      ObservationSource
  workload_reported static_analysis_derived model_inferred synthetic_test_generated :
      ObservationSource
  other_source : String → ObservationSource

pub data CoverageAssessment : Type 0 where
  complete partial none_covered : CoverageAssessment
  other_coverage : String → CoverageAssessment

pub data RepeatabilityAssessment : Type 0 where
  stable variable single not_assessable : RepeatabilityAssessment
  other_repeatability : String → RepeatabilityAssessment

pub record Limitation : Type 0 where
  pub id : String
  pub summary : String
  pub details : String

pub record RepetitionOccurrence : Type 0 where
  pub repetition : ℕ
  pub coverage : CoverageAssessment
  pub count_known : Bool
  pub count : ℕ

pub record OccurrenceProfile : Type 0 where
  pub planned_repetition_count : ℕ
  pub complete_repetition_count : ℕ
  pub incomplete_repetition_count : ℕ
  pub minimum_known_count : ℕ
  pub maximum_known_count : ℕ
  pub total_known_count : ℕ
  pub coverage : CoverageAssessment
  pub repeatability : RepeatabilityAssessment
  pub repetitions : List RepetitionOccurrence

abbrev pub is_failed : Disposition → Bool
is_failed failed = true
is_failed _ = false

abbrev pub is_review : Disposition → Bool
is_review requires_review = true
is_review _ = false

-- `observe.FactKind` as a record names it; "sequence" is the kind of an order change.
pub data FactKind : Type 0 where
  process_start process_exit : FactKind
  filesystem_create filesystem_read filesystem_write filesystem_delete filesystem_rename : FactKind
  filesystem_chmod dns_query network_connection artifact_activity : FactKind
  scenario_started scenario_completed observer_warning unsupported_observation : FactKind
  resource_limit sequence : FactKind
  other_fact : String → FactKind

-- What the policy reads of a fact's payload.
pub data FactPayload : Type 0 where
  -- namespace of the path, operation, executable
  filesystem : String → String → Bool → FactPayload
  artifact : Bool → FactPayload
  other_payload : FactPayload

-- An evidence reference is known by its key, as `evidenceKey` computes it.
pub record DeltaRecord : Type 0 where
  pub id : String
  pub kind : DeltaKind
  pub basis : ComparisonBasis
  pub fact_kind : FactKind
  pub source : ObservationSource
  pub anchor_digest : String
  pub scenario_ids : List String
  pub base_observed : Bool
  pub head_observed : Bool
  pub base_occurrence : OccurrenceProfile
  pub head_occurrence : OccurrenceProfile
  pub base_facts : List FactPayload
  pub head_facts : List FactPayload
  pub base_evidence : List String
  pub head_evidence : List String
  pub evidence : List String
  pub base_semantic_digests : List String
  pub head_semantic_digests : List String
  pub changed_fields : List String
  pub limitations : List Limitation

pub record EvidenceContext : Type 0 where
  pub synthetic_evidence : Bool
  pub executes_target_code : Bool

pub record BehavioralDelta : Type 0 where
  pub execution_complete : Bool
  pub evidence_complete : Bool
  pub evidence_context : EvidenceContext
  pub scenario_ids : List String
  pub records : List DeltaRecord

pub record Finding : Type 0 where
  pub id : String
  pub rule_id : String
  pub severity : Severity
  pub confidence : Confidence
  pub disposition : Disposition
  pub delta_record_ids : List String
  pub scenario_ids : List String
  pub evidence : List String
  pub base_observed : Bool
  pub head_observed : Bool
  pub waived : Bool
  pub limitations : List Limitation
