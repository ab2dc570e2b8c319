-- ===== src/Policy/Governance.antt =====
-- The governance findings (internal/policy/application.go `governanceFindings`, `configGovernanceSpecs`,
-- `waiverGovernanceSpecs`; the types of internal/config/change.go, trusted.go and
-- internal/waiver/types.go). The id of a governance finding, a hash, is a parameter.
pub mod Counts
use Prim.Native.String.{◌++◌ as str_append}
use glassroot.Common.{
  ℕ, suc, ◌+◌, String, Bool, true, false, not, ◌&&◌, ◌||◌, Option, none, some, List, [], ◌∷◌, ◌++◌,
  map, any, length, Result, ok, err, ◌>>=◌, ◌>>◌, reject_if, if◌then◌else◌, ltb, string_lt, sort,
}
use glassroot.Model.{
  Severity, info, low, medium, high, critical, other_severity, Confidence, high_confidence,
  Disposition, passed, requires_review, failed, waived, other_disposition, Finding,
}
use glassroot.Policy.Evaluate.{FindingId}
use glassroot.Policy.Waivers.{
  BaseState, BaseAssessment, WaiverStatus, WaiverStatusRecord, FindingOrigin, builtin_policy,
  trusted_configuration, waiver_governance, GovernanceReference, AppliedFinding, apply_base_waivers,
}

pub data SecurityEffect : Type 0 where
  privilege_increase privilege_decrease execution_definition_change observation_weakened
        observation_strengthened policy_change informational unknown :
      SecurityEffect

abbrev effect_name : SecurityEffect → String
effect_name privilege_increase = "privilege-increase"
effect_name privilege_decrease = "privilege-decrease"
effect_name execution_definition_change = "execution-definition-change"
effect_name observation_weakened = "observation-weakened"
effect_name observation_strengthened = "observation-strengthened"
effect_name policy_change = "policy-change"
effect_name informational = "informational"
effect_name unknown = "unknown"

pub record ConfigChange : Type 0 where
  pub path : String
  pub kind : String
  pub effect : SecurityEffect

-- `HeadAssessmentState`; `unset` is the empty string.
pub data ConfigState : Type 0 where
  unset unchanged content_changed_equivalent modified_valid modified_invalid removed
        unsupported_entry_kind :
      ConfigState

abbrev config_state_name : ConfigState → String
config_state_name unset = ""
config_state_name unchanged = "unchanged"
config_state_name content_changed_equivalent = "content-changed-but-semantically-equivalent"
config_state_name modified_valid = "modified-valid"
config_state_name modified_invalid = "modified-invalid"
config_state_name removed = "removed"
config_state_name unsupported_entry_kind = "unsupported-entry-kind"

pub record ConfigAssessment : Type 0 where
  pub state : ConfigState
  pub head_digest : String
  pub changes : List ConfigChange

pub record GovernanceSpec : Type 0 where
  pub severity : Severity
  pub confidence : Confidence
  pub disposition : Disposition
  pub scope : String
  pub ref : GovernanceReference

abbrev no_reference : GovernanceReference
no_reference = record {
  kind = "";
  path = "";
  change_kind = "";
  security_effect = "";
  waiver_id = "";
  state = "";
  raw_digest = "";
  semantic_digest = "";
}

severity_for_config_effect : SecurityEffect → Severity
severity_for_config_effect privilege_decrease = medium
severity_for_config_effect observation_strengthened = medium
severity_for_config_effect informational = low
severity_for_config_effect _ = high

abbrev review_spec : Severity → String → GovernanceReference → GovernanceSpec
review_spec severity scope ref = record {
  severity = severity;
  confidence = high_confidence;
  disposition = requires_review;
  scope = scope;
  ref = ref;
}

config_change_spec : ConfigAssessment → ConfigChange → GovernanceSpec
unfolding severity_for_config_effect
config_change_spec a ch =
    review_spec (severity_for_config_effect ch.effect)
      (str_append "config:" (
        str_append ch.path
          (str_append ":" (str_append ch.kind (str_append ":" (effect_name ch.effect))))))
      (record no_reference {
        kind = "config-change";
        path = ch.path;
        change_kind = ch.kind;
        security_effect = effect_name ch.effect;
        raw_digest = a.head_digest;
      })

abbrev config_state_spec : ConfigAssessment → GovernanceSpec
config_state_spec a =
    review_spec high (str_append "config-state:" (config_state_name a.state)) (record no_reference {
      kind = "config-file-state";
      state = config_state_name a.state;
      raw_digest = a.head_digest;
    })

specs_for_state : ConfigState → ConfigAssessment → List GovernanceSpec
unfolding config_change_spec
specs_for_state unset a = []
specs_for_state unchanged a = []
specs_for_state content_changed_equivalent a = []
specs_for_state modified_valid a = map (config_change_spec a) a.changes
specs_for_state _ a = config_state_spec a ∷ []

unfoldable pub config_governance_specs : ConfigAssessment → List GovernanceSpec
unfolding specs_for_state
config_governance_specs a = specs_for_state a.state a

pub data WaiverHeadState : Type 0 where
  unset absent_on_both unchanged added removed content_changed_equivalent modified_valid
        modified_invalid unsupported_entry_kind :
      WaiverHeadState

abbrev head_state_name : WaiverHeadState → String
head_state_name unset = ""
head_state_name absent_on_both = "absent-on-both"
head_state_name unchanged = "unchanged"
head_state_name added = "added"
head_state_name removed = "removed"
head_state_name content_changed_equivalent = "content-changed-but-semantically-equivalent"
head_state_name modified_valid = "modified-valid"
head_state_name modified_invalid = "modified-invalid"
head_state_name unsupported_entry_kind = "unsupported-entry-kind"

pub data WaiverChangeKind : Type 0 where
  added removed target_changed owner_changed reason_changed issued_at_changed expiry_changed :
      WaiverChangeKind

abbrev change_kind_name : WaiverChangeKind → String
change_kind_name added = "waiver-added"
change_kind_name removed = "waiver-removed"
change_kind_name target_changed = "waiver-target-changed"
change_kind_name owner_changed = "waiver-owner-changed"
change_kind_name reason_changed = "waiver-reason-changed"
change_kind_name issued_at_changed = "waiver-issued-at-changed"
change_kind_name expiry_changed = "waiver-expiry-changed"

pub record WaiverChange : Type 0 where
  pub waiver_id : String
  pub kind : WaiverChangeKind

pub record WaiverHeadAssessment : Type 0 where
  pub state : WaiverHeadState
  pub raw_digest : String
  pub semantic_digest : String
  pub changes : List WaiverChange

abbrev base_state_name : BaseState → String
base_state_name BaseState.absent = "absent"
base_state_name BaseState.valid = "valid"
base_state_name BaseState.invalid = "invalid"
base_state_name BaseState.unsupported_entry_kind = "unsupported-entry-kind"

abbrev status_name : WaiverStatus → String
status_name WaiverStatus.applied = "applied"
status_name WaiverStatus.expired = "expired"
status_name WaiverStatus.not_yet_valid = "not-yet-valid"
status_name WaiverStatus.unused = "unused"
status_name WaiverStatus.target_rule_mismatch = "target-rule-mismatch"
status_name WaiverStatus.target_ineligible = "target-ineligible"
status_name WaiverStatus.invalid = "invalid"

abbrev base_state_spec : BaseAssessment → GovernanceSpec
base_state_spec base = record {
  severity = high;
  confidence = high_confidence;
  disposition = failed;
  scope = str_append "base-state:" (base_state_name base.state);
  ref = record no_reference {
    kind = "waiver-base-state";
    state = base_state_name base.state;
    raw_digest = base.raw_digest;
  };
}

base_state_specs : BaseAssessment → BaseState → List GovernanceSpec
base_state_specs base BaseState.invalid = base_state_spec base ∷ []
base_state_specs base BaseState.unsupported_entry_kind = base_state_spec base ∷ []
base_state_specs base _ = []

abbrev status_spec : BaseAssessment → WaiverStatusRecord → GovernanceSpec
status_spec base st =
    review_spec medium
      (str_append "waiver-status:"
        (str_append st.waiver_id (str_append ":" (status_name st.status))))
      (record no_reference {
        kind = "waiver-status";
        waiver_id = st.waiver_id;
        state = status_name st.status;
        semantic_digest = base.semantic_digest;
      })

abbrev pub unapplied : WaiverStatus → Bool
unapplied WaiverStatus.expired = true
unapplied WaiverStatus.not_yet_valid = true
unapplied WaiverStatus.unused = true
unapplied WaiverStatus.target_rule_mismatch = true
unapplied WaiverStatus.target_ineligible = true
unapplied _ = false

status_specs : BaseAssessment → List WaiverStatusRecord → List GovernanceSpec
status_specs base [] = []
status_specs base (st ∷ sts) =
    let rest = status_specs base sts in
    if unapplied st.status then status_spec base st ∷ rest else rest

abbrev head_state_spec : WaiverHeadAssessment → GovernanceSpec
head_state_spec head =
    review_spec high (str_append "head-state:" (head_state_name head.state)) (record no_reference {
      kind = "waiver-head-state";
      state = head_state_name head.state;
      raw_digest = head.raw_digest;
      semantic_digest = head.semantic_digest;
    })

change_severity : WaiverChangeKind → Severity
change_severity target_changed = high
change_severity expiry_changed = high
change_severity added = high
change_severity removed = high
change_severity _ = medium

head_change_spec : WaiverHeadAssessment → WaiverChange → GovernanceSpec
unfolding change_severity
head_change_spec head ch =
    review_spec (change_severity ch.kind)
      (str_append "head-change:"
        (str_append ch.waiver_id (str_append ":" (change_kind_name ch.kind))))
      (record no_reference {
        kind = "waiver-head-change";
        waiver_id = ch.waiver_id;
        state = change_kind_name ch.kind;
        raw_digest = head.raw_digest;
        semantic_digest = head.semantic_digest;
      })

head_specs : WaiverHeadState → WaiverHeadAssessment → List GovernanceSpec
unfolding head_change_spec
head_specs absent_on_both head = []
head_specs unchanged head = []
head_specs content_changed_equivalent head = []
head_specs unset head = []
head_specs modified_valid head = map (head_change_spec head) head.changes
head_specs _ head = head_state_spec head ∷ []

unfoldable pub waiver_governance_specs :
    BaseAssessment → WaiverHeadAssessment → List WaiverStatusRecord → List GovernanceSpec
unfolding base_state_specs status_specs head_specs
waiver_governance_specs base head statuses =
    base_state_specs base base.state ++ (status_specs base statuses ++ head_specs head.state head)

-- Both governance rules are in the catalog, so looking one up does not fail.
unfoldable pub make_governance_finding : FindingId → String → GovernanceSpec → Finding
make_governance_finding finding_id rule sp = record {
  id = finding_id rule [] sp.scope [];
  rule_id = rule;
  severity = sp.severity;
  confidence = sp.confidence;
  disposition = sp.disposition;
  delta_record_ids = [];
  scenario_ids = [];
  evidence = [];
  base_observed = false;
  head_observed = true;
  waived = false;
  limitations = [];
}

abbrev pub governed : FindingId → String → FindingOrigin → GovernanceSpec → AppliedFinding
governed finding_id rule origin sp = record {
  origin = origin;
  original = make_governance_finding finding_id rule sp;
  effective_disposition = (make_governance_finding finding_id rule sp).disposition;
  applied_waiver = none;
  governance_reference = some sp.ref;
}

pub data ApplicationCode : Type 0 where
  governance_finding_limit application_limit invalid_original_finding duplicate_finding_id :
      ApplicationCode

pub record ApplicationLimits : Type 0 where
  pub max_governance_findings : ℕ
  pub max_applied_findings : ℕ
  pub max_original_findings : ℕ

-- The closure `add` on each spec, after `n` findings.
unfoldable pub add_governance :
    ApplicationLimits
    → FindingId
    → String
    → FindingOrigin
    → ℕ
    → List GovernanceSpec
    → Result ApplicationCode (List AppliedFinding)
add_governance limits finding_id rule origin n [] = ok []
add_governance limits finding_id rule origin n (sp ∷ sps) = do
  reject_if (ltb limits.max_governance_findings (n + 1)) governance_finding_limit
  rest ← add_governance limits finding_id rule origin (n + 1) sps
  ok (governed finding_id rule origin sp ∷ rest)

unfoldable pub governance_findings :
    ApplicationLimits
    → FindingId
    → ConfigAssessment
    → BaseAssessment
    → WaiverHeadAssessment
    → List WaiverStatusRecord
    → Result ApplicationCode (List AppliedFinding)
governance_findings limits finding_id config base head statuses = do
  configured ←
      add_governance limits finding_id "GR-CONFIG-001" trusted_configuration 0
        (config_governance_specs config)
  waivers ←
      add_governance limits finding_id "GR-WAIVER-001" waiver_governance (length configured)
        (waiver_governance_specs base head statuses)
  ok (configured ++ waivers)
