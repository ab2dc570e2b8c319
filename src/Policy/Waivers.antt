-- ===== src/Policy/Waivers.antt =====
-- The waivers of the trusted base (internal/policy/application.go `applyBaseWaivers`,
-- `waiverEligibleFinding`; the types of application_types.go and internal/waiver/types.go). An
-- instant is a number of nanoseconds.
pub mod Resolve
pub mod Effect
use glassroot.Common.{
  ℕ, suc, zero, String, Bool, true, false, not, ◌&&◌, ◌||◌, Option, none, some, List, [], ◌∷◌, map,
  str_eq, if◌then◌else◌, ltb,
}
use glassroot.Model.{Disposition, waived, is_review, Finding}

pub record Waiver : Type 0 where
  pub id : String
  pub finding_id : String
  pub rule_id : String
  pub owner : String
  pub reason : String
  pub issued_at : ℕ
  pub expires_at : ℕ

pub data BaseState : Type 0 where
  absent valid invalid unsupported_entry_kind : BaseState

pub record BaseAssessment : Type 0 where
  pub state : BaseState
  pub raw_digest : String
  pub waivers : List Waiver
  pub semantic_digest : String

pub data WaiverStatus : Type 0 where
  applied expired not_yet_valid unused target_rule_mismatch target_ineligible invalid : WaiverStatus

pub record WaiverStatusRecord : Type 0 where
  pub waiver_id : String
  pub finding_id : String
  pub rule_id : String
  pub status : WaiverStatus

pub data FindingOrigin : Type 0 where
  builtin_policy trusted_configuration waiver_governance : FindingOrigin

pub record AppliedWaiver : Type 0 where
  pub id : String
  pub target_finding_id : String
  pub rule_id : String
  pub owner : String
  pub reason : String
  pub issued_at : ℕ
  pub expires_at : ℕ
  pub base_raw_digest : String
  pub semantic_waiver_set_digest : String

pub record GovernanceReference : Type 0 where
  pub kind : String
  pub path : String
  pub change_kind : String
  pub security_effect : String
  pub waiver_id : String
  pub state : String
  pub raw_digest : String
  pub semantic_digest : String

pub record AppliedFinding : Type 0 where
  pub origin : FindingOrigin
  pub original : Finding
  pub effective_disposition : Disposition
  pub applied_waiver : Option AppliedWaiver
  pub governance_reference : Option GovernanceReference

abbrev pub eligible_rule : String → Bool
eligible_rule rule =
    str_eq rule "GR-PROC-001"
    || str_eq rule "GR-FS-001"
    || str_eq rule "GR-FS-002"
    || str_eq rule "GR-NET-001"
    || str_eq rule "GR-ART-001"
    || str_eq rule "GR-DET-001"
    || str_eq rule "GR-LIMIT-001"

unfoldable pub waiver_eligible_finding : Finding → Bool
waiver_eligible_finding f = is_review f.disposition && eligible_rule f.rule_id

-- `byID[id]`: the place of the last finding with the id.
unfoldable pub by_id : List String → String → Option ℕ
by_id [] id = none
by_id (x ∷ xs) id = elim (by_id xs id) [
  | some i ↦ some (suc i)
  | none ↦ if str_eq x id then some 0 else none
]

abbrev pub element {ℓ} : {A : Type ℓ} → List A → ℕ → Option A
element [] i = none
element (x ∷ xs) zero = some x
element (x ∷ xs) (suc i) = element xs i

abbrev pub update {ℓ} : {A : Type ℓ} → (A → A) → ℕ → List A → List A
update g i [] = []
update g zero (x ∷ xs) = g x ∷ xs
update g (suc i) (x ∷ xs) = x ∷ update g i xs

abbrev pub applied_by : BaseAssessment → Waiver → AppliedWaiver
applied_by base w = record {
  id = w.id;
  target_finding_id = w.finding_id;
  rule_id = w.rule_id;
  owner = w.owner;
  reason = w.reason;
  issued_at = w.issued_at;
  expires_at = w.expires_at;
  base_raw_digest = base.raw_digest;
  semantic_waiver_set_digest = base.semantic_digest;
}

abbrev pub waive : BaseAssessment → Waiver → AppliedFinding → AppliedFinding
waive base w a = record a {
  effective_disposition = waived;
  applied_waiver = some (applied_by base w);
}

abbrev with_status : Waiver → WaiverStatus → WaiverStatusRecord
with_status w status = record {
  waiver_id = w.id;
  finding_id = w.finding_id;
  rule_id = w.rule_id;
  status = status;
}

-- The default case of the switch, for the finding at the place `i`.
unfoldable pub target_status : Waiver → Finding → WaiverStatus
target_status w f =
    if not (str_eq f.rule_id w.rule_id)
    then target_rule_mismatch
    else if not (waiver_eligible_finding f)
    then target_ineligible
    else applied

abbrev pub is_applied : WaiverStatus → Bool
is_applied applied = true
is_applied _ = false

unfoldable pub apply_target :
    BaseAssessment
    → Waiver
    → List AppliedFinding
    → ℕ
    → AppliedFinding
    → List AppliedFinding × WaiverStatus
apply_target base w findings i a =
    let status = target_status w a.original in
    ((if is_applied status then update (waive base w) i findings else findings), status)

-- One turn of the loop over the waivers.
unfoldable pub apply_waiver :
    BaseAssessment
    → ℕ
    → List String
    → List AppliedFinding
    → Waiver
    → List AppliedFinding × WaiverStatus
apply_waiver base at ids findings w =
    if ltb at w.issued_at
    then (findings, not_yet_valid)
    else if not (ltb at w.expires_at)
    then (findings, expired)
    else elim (by_id ids w.finding_id) [
      | none ↦ (findings, unused)
      | some i ↦ elim (element findings i) [
        | none ↦ (findings, unused)
        | some a ↦ apply_target base w findings i a
      ]
    ]

unfoldable pub apply_waivers :
    BaseAssessment
    → ℕ
    → List String
    → List AppliedFinding
    → List Waiver
    → List AppliedFinding × List WaiverStatusRecord
apply_waivers base at ids findings [] = (findings, [])
apply_waivers base at ids findings (w ∷ ws) =
    let one = apply_waiver base at ids findings w in
    let rest = apply_waivers base at ids one.0 ws in (rest.0, with_status w one.1 ∷ rest.1)

abbrev pub as_applied : Finding → AppliedFinding
as_applied f = record {
  origin = builtin_policy;
  original = f;
  effective_disposition = f.disposition;
  applied_waiver = none;
  governance_reference = none;
}

abbrev pub is_valid_state : BaseState → Bool
is_valid_state valid = true
is_valid_state _ = false

unfoldable pub apply_base_waivers :
    List Finding → BaseAssessment → ℕ → List AppliedFinding × List WaiverStatusRecord
apply_base_waivers findings base at =
    let start = map as_applied findings in
    if is_valid_state base.state
    then apply_waivers base at (map (λ (f : Finding). f.id) findings) start base.waivers
    else (start, [])
