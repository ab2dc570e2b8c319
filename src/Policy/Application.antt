-- ===== src/Policy/Application.antt =====
-- What `Apply` makes of an evaluation, the trusted configuration and the trusted waivers
-- (internal/policy/application.go), after its checks of digests and of the binding and before the
-- JSON text.
pub mod Distinct
pub mod Overall
use Prim.Native.String.{◌++◌ as str_append}
use glassroot.Common.{
  ℕ, ◌+◌, String, Bool, true, false, List, [], ◌∷◌, ◌++◌, any, length, Result, ok, err, ◌>>=◌, ◌>>◌,
  reject_if, if◌then◌else◌, ltb, string_lt, sort, str_eq, ◌||◌, join_nul,
}
use glassroot.Model.{
  Severity, info, low, medium, high, critical, other_severity, Disposition, passed, requires_review,
  failed, waived, other_disposition, is_failed, is_review, Finding,
}
use glassroot.Policy.Evaluate.{FindingId}
use glassroot.Policy.Waivers.{
  BaseAssessment, WaiverStatus, WaiverStatusRecord, FindingOrigin, builtin_policy,
  trusted_configuration, waiver_governance, AppliedFinding, apply_base_waivers,
}
use glassroot.Policy.Governance.{
  ConfigAssessment, WaiverHeadAssessment, ApplicationCode, application_limit,
  invalid_original_finding, duplicate_finding_id, ApplicationLimits, governance_findings,
}

rank_disposition : Disposition → String
rank_disposition failed = "0"
rank_disposition requires_review = "1"
rank_disposition waived = "2"
rank_disposition passed = "3"
rank_disposition _ = "9"

rank_severity : Severity → String
rank_severity critical = "0"
rank_severity high = "1"
rank_severity medium = "2"
rank_severity low = "3"
rank_severity info = "4"
rank_severity _ = "9"

origin_name : FindingOrigin → String
origin_name builtin_policy = "builtin-policy"
origin_name trusted_configuration = "trusted-configuration"
origin_name waiver_governance = "waiver-governance"

abbrev first : List String → String
first [] = ""
first (x ∷ xs) = x

sort_key : AppliedFinding → String
unfolding rank_disposition rank_severity origin_name join_nul
sort_key a = join_nul (
    rank_disposition a.effective_disposition
    ∷ rank_severity a.original.severity
    ∷ origin_name a.origin
    ∷ a.original.rule_id
    ∷ first a.original.scenario_ids
    ∷ first a.original.delta_record_ids
    ∷ a.original.id
    ∷ [])

unfoldable pub applied_lt : AppliedFinding → AppliedFinding → Bool
unfolding sort_key
applied_lt a b = string_lt (sort_key a) (sort_key b)

abbrev pub effective_failed : AppliedFinding → Bool
effective_failed a = is_failed a.effective_disposition

abbrev pub effective_review : AppliedFinding → Bool
effective_review a = is_review a.effective_disposition

unfoldable pub overall_effective_disposition : List AppliedFinding → Disposition
overall_effective_disposition findings =
    if any effective_failed findings
    then failed
    else if any effective_review findings
    then requires_review
    else passed

pub record ApplicationSummary : Type 0 where
  pub total_findings : ℕ
  pub builtin_findings : ℕ
  pub configuration_findings : ℕ
  pub waiver_governance_findings : ℕ
  pub effective_passed : ℕ
  pub effective_requires_review : ℕ
  pub effective_failed : ℕ
  pub effective_waived : ℕ
  pub info : ℕ
  pub low : ℕ
  pub medium : ℕ
  pub high : ℕ
  pub critical : ℕ
  pub applied_waivers : ℕ
  pub expired_waivers : ℕ
  pub unused_waivers : ℕ
  pub invalid_waivers : ℕ

count_origin : FindingOrigin → ApplicationSummary → ApplicationSummary
count_origin builtin_policy s = record s { builtin_findings = s.builtin_findings + 1 }
count_origin trusted_configuration s = record s {
  configuration_findings = s.configuration_findings + 1;
}
count_origin waiver_governance s = record s {
  waiver_governance_findings = s.waiver_governance_findings + 1;
}

count_effective : Disposition → ApplicationSummary → ApplicationSummary
count_effective passed s = record s { effective_passed = s.effective_passed + 1 }
count_effective requires_review s = record s {
  effective_requires_review = s.effective_requires_review + 1;
}
count_effective failed s = record s { effective_failed = s.effective_failed + 1 }
count_effective waived s = record s { effective_waived = s.effective_waived + 1 }
count_effective _ s = s

count_severity : Severity → ApplicationSummary → ApplicationSummary
count_severity Severity.info s = record s { info = s.info + 1 }
count_severity Severity.low s = record s { low = s.low + 1 }
count_severity Severity.medium s = record s { medium = s.medium + 1 }
count_severity Severity.high s = record s { high = s.high + 1 }
count_severity Severity.critical s = record s { critical = s.critical + 1 }
count_severity _ s = s

count_status : WaiverStatus → ApplicationSummary → ApplicationSummary
count_status WaiverStatus.applied s = record s { applied_waivers = s.applied_waivers + 1 }
count_status WaiverStatus.expired s = record s { expired_waivers = s.expired_waivers + 1 }
count_status WaiverStatus.invalid s = record s { invalid_waivers = s.invalid_waivers + 1 }
count_status _ s = record s { unused_waivers = s.unused_waivers + 1 }

unfoldable pub summarize_findings : List AppliedFinding → ApplicationSummary → ApplicationSummary
unfolding count_origin count_effective count_severity
summarize_findings [] s = s
summarize_findings (f ∷ fs) s = summarize_findings fs (
    count_severity f.original.severity
      (count_effective f.effective_disposition (count_origin f.origin s)))

unfoldable pub summarize_statuses :
    List WaiverStatusRecord → ApplicationSummary → ApplicationSummary
unfolding count_status
summarize_statuses [] s = s
summarize_statuses (st ∷ sts) s = summarize_statuses sts (count_status st.status s)

abbrev failed_governance : AppliedFinding → Bool
failed_governance f = of_governance f.origin (effective_failed f)
  where
    of_governance : FindingOrigin → Bool → Bool
    of_governance waiver_governance b = b
    of_governance _ b = false

unfoldable pub count_invalid : List AppliedFinding → ApplicationSummary → ApplicationSummary
count_invalid [] s = s
count_invalid (f ∷ fs) s =
    count_invalid fs
      (if failed_governance f then record s { invalid_waivers = s.invalid_waivers + 1 } else s)

unfoldable pub summarize_application :
    List AppliedFinding → List WaiverStatusRecord → ApplicationSummary
summarize_application findings statuses = count_invalid findings (
    summarize_statuses statuses (
      summarize_findings findings (record {
        total_findings = length findings;
        builtin_findings = 0;
        configuration_findings = 0;
        waiver_governance_findings = 0;
        effective_passed = 0;
        effective_requires_review = 0;
        effective_failed = 0;
        effective_waived = 0;
        info = 0;
        low = 0;
        medium = 0;
        high = 0;
        critical = 0;
        applied_waivers = 0;
        expired_waivers = 0;
        unused_waivers = 0;
        invalid_waivers = 0;
      })))

pub record Application : Type 0 where
  pub overall : Disposition
  pub applied_findings : List AppliedFinding
  pub waiver_statuses : List WaiverStatusRecord
  pub summary : ApplicationSummary

abbrev status_lt : WaiverStatusRecord → WaiverStatusRecord → Bool
status_lt a b =
    string_lt (str_append a.waiver_id (name a.status)) (str_append b.waiver_id (name b.status))
  where
    name : WaiverStatus → String
    name WaiverStatus.applied = "applied"
    name WaiverStatus.expired = "expired"
    name WaiverStatus.not_yet_valid = "not-yet-valid"
    name WaiverStatus.unused = "unused"
    name WaiverStatus.target_rule_mismatch = "target-rule-mismatch"
    name WaiverStatus.target_ineligible = "target-ineligible"
    name WaiverStatus.invalid = "invalid"

abbrev is_waived : Disposition → Bool
is_waived waived = true
is_waived _ = false

-- The loop over the findings in `validateApplicationBinding`.
unfoldable pub check_original : List String → List Finding → Result ApplicationCode (Unit {0})
check_original seen [] = ok tt
check_original seen (f ∷ fs) = do
  reject_if (str_eq f.id "" || str_eq f.rule_id "" || f.waived || is_waived f.disposition)
      invalid_original_finding
  reject_if (any (str_eq f.id) seen) duplicate_finding_id
  check_original (f.id ∷ seen) fs

-- Statuses with the same key come in any order in the source; here in theirs.
unfoldable pub apply :
    ApplicationLimits
    → FindingId
    → List Finding
    → ConfigAssessment
    → BaseAssessment
    → WaiverHeadAssessment
    → ℕ
    → Result ApplicationCode Application
apply limits finding_id findings config base head at = do
  check_original [] findings
  reject_if (ltb limits.max_original_findings (length findings)) application_limit
  let waivers = apply_base_waivers findings base at
  governance ← governance_findings limits finding_id config base head waivers.1
  let applied = waivers.0 ++ governance
  reject_if (ltb limits.max_applied_findings (length applied)) application_limit
  let sorted = sort applied_lt applied
  let statuses = sort status_lt waivers.1
  ok (record {
    overall = overall_effective_disposition sorted;
    applied_findings = sorted;
    waiver_statuses = statuses;
    summary = summarize_application sorted statuses;
  })
