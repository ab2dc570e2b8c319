-- ===== src/Policy/Confidence.antt =====
-- `classifyPolicyConfidence` (internal/policy/rules.go): how far a finding is to be believed, from
-- the basis of the comparison and the source of the observation.
use glassroot.Common.{ℕ, Bool, if◌then◌else◌, ltb}
use glassroot.Model.{
  Confidence, low_confidence, medium_confidence, high_confidence, ComparisonBasis,
  complete_observation, single_sample, repetition_variable, ObservationSource, guest_agent_reported,
  workload_reported, static_analysis_derived, model_inferred, synthetic_test_generated,
}

-- One more than `confidenceRank`, which is -1 for what it does not know.
pub confidence_rank : Confidence → ℕ
confidence_rank low_confidence = 1
confidence_rank medium_confidence = 2
confidence_rank high_confidence = 3
confidence_rank _ = 0

pub basis_confidence : ComparisonBasis → Confidence
basis_confidence complete_observation = high_confidence
basis_confidence single_sample = medium_confidence
basis_confidence repetition_variable = medium_confidence
basis_confidence _ = low_confidence

pub source_cap : ObservationSource → Bool → Confidence
source_cap guest_agent_reported target = medium_confidence
source_cap workload_reported target = medium_confidence
source_cap static_analysis_derived target = medium_confidence
source_cap model_inferred target = low_confidence
source_cap synthetic_test_generated target = if target then low_confidence else high_confidence
source_cap _ target = high_confidence

unfoldable pub classify_policy_confidence : ComparisonBasis → ObservationSource → Bool → Confidence
unfolding confidence_rank basis_confidence source_cap
classify_policy_confidence basis source target =
    let conf = basis_confidence basis in
    let cap = source_cap source target in
    if ltb (confidence_rank cap) (confidence_rank conf) then cap else conf
