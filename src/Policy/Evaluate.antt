-- ===== src/Policy/Evaluate.antt =====
-- The evaluation of a valid delta (internal/policy/rules.go `evaluateRules`, `makeFinding`, and
-- internal/policy/evaluator.go from the call of `evaluateRules` on). A context is not cancelled
-- here, and the id of a finding, a hash, is a parameter.
pub mod Outcome
use glassroot.Common.{
  ℕ, zero, suc, ◌+◌, ◌^◌, String, Bool, true, false, not, ◌&&◌, ◌||◌, Option, none, some, List, [],
  ◌∷◌, ◌++◌, str_eq, any, count, length, Result, ok, err, ◌>>=◌, ◌>>◌, reject_if, if◌then◌else◌,
  ltb, ◌==◌, string_lt, sort, sorted_unique,
}
use glassroot.Model.{
  Severity, info, low, medium, high, critical, other_severity, Confidence, low_confidence,
  high_confidence, other_confidence, Disposition, passed, requires_review, failed, waived,
  other_disposition, Limitation, DeltaRecord, EvidenceContext, BehavioralDelta, Finding,
}
use glassroot.Policy.Rules.{
  Rule, rule_id, obs_001, proc_001, fs_001, fs_002, net_001, art_001, det_001, limit_001, Code,
  finding_limit, evidence_reference_limit, duplicate_finding_id, FindingSpec, specs_for_record,
}

pub record Limits : Type 0 where
  pub max_findings : ℕ
  pub max_findings_per_delta_record : ℕ
  pub max_delta_record_ids_per_finding : ℕ
  pub max_scenario_ids_per_finding : ℕ
  pub max_evidence_refs_per_finding : ℕ
  pub max_evidence_refs_total : ℕ
  pub max_limitations_per_finding : ℕ

-- The finding's id, from the rule, the record ids, the scope and the scenarios.
abbrev pub FindingId : Type 0
FindingId = String → List String → String → List String → String

pub rule_severity : Rule → Severity
rule_severity fs_001 = high
rule_severity net_001 = high
rule_severity limit_001 = high
rule_severity _ = medium

severity_or : Severity → Severity → Severity
severity_or (other_severity s) d = if str_eq s "" then d else other_severity s
severity_or s d = s

disposition_or : Disposition → Disposition → Disposition
disposition_or (other_disposition s) d = if str_eq s "" then d else other_disposition s
disposition_or s d = s

confidence_or : Confidence → Confidence → Confidence
confidence_or (other_confidence s) d = if str_eq s "" then d else other_confidence s
confidence_or s d = s

limitation_lt : Limitation → Limitation → Bool
limitation_lt a b =
    if not (str_eq a.id b.id)
    then string_lt a.id b.id
    else if not (str_eq a.summary b.summary)
    then string_lt a.summary b.summary
    else string_lt a.details b.details

unfoldable pub sort_limitations : List Limitation → List Limitation
unfolding limitation_lt
sort_limitations = sort limitation_lt

-- Every rule of `Rule` is in the catalog and emitted, so the catalog's lookup does not fail.
unfoldable pub make_finding : Limits → FindingId → FindingSpec → Result Code Finding
unfolding severity_or disposition_or confidence_or rule_severity
make_finding limits finding_id sp = do
  let ids = sorted_unique sp.record_ids
  let scenarios = sorted_unique sp.scenario_ids
  let scope = if str_eq sp.scope "" then "record" else sp.scope
  reject_if
      (ltb limits.max_delta_record_ids_per_finding (length ids)
        || ltb limits.max_scenario_ids_per_finding (length scenarios))
      finding_limit
  let evidence = sorted_unique sp.evidence
  reject_if (ltb limits.max_evidence_refs_per_finding (length evidence)) evidence_reference_limit
  let limitations = sort_limitations sp.limitations
  reject_if (ltb limits.max_limitations_per_finding (length limitations)) finding_limit
  ok (record {
    id = finding_id (rule_id sp.rule) ids scope scenarios;
    rule_id = rule_id sp.rule;
    severity = severity_or sp.severity (rule_severity sp.rule);
    confidence = confidence_or sp.confidence low_confidence;
    disposition = disposition_or sp.disposition requires_review;
    delta_record_ids = ids;
    scenario_ids = scenarios;
    evidence = evidence;
    base_observed = sp.base_observed;
    head_observed = sp.head_observed;
    waived = false;
    limitations = limitations;
  })

abbrev limitation : String → String → Limitation
limitation id summary = record { id = id; summary = summary; details = "" }

abbrev limitation_if : Bool → String → String → List Limitation
limitation_if true id summary = limitation id summary ∷ []
limitation_if false id summary = []

completeness_limitations : BehavioralDelta → List Limitation
completeness_limitations delta =
    limitation_if (not delta.execution_complete) "execution-incomplete"
      "Execution did not complete; missing behavior must not be treated as absent."
    ++ limitation_if (not delta.evidence_complete) "evidence-incomplete"
        "Evidence collection did not complete; missing behavior must not be treated as absent."

unfoldable pub synthetic_context_requires_review : EvidenceContext → Bool
synthetic_context_requires_review ctx = ctx.synthetic_evidence || not ctx.executes_target_code

synthetic_context_limitations : EvidenceContext → List Limitation
synthetic_context_limitations ctx = sort_limitations (
    limitation_if ctx.synthetic_evidence "synthetic-evidence"
      "Policy evaluation is based on synthetic evidence; it is not target workload behavior."
    ++ limitation_if (not ctx.executes_target_code) "synthetic-no-target-execution"
        "No target code was executed; absence of ordinary behavioral deltas is not a real workload pass.")

abbrev global_spec : Severity → Disposition → String → List Limitation → FindingSpec
global_spec severity disposition scope limitations = record {
  rule = obs_001;
  severity = severity;
  confidence = high_confidence;
  disposition = disposition;
  record_ids = [];
  scenario_ids = [];
  base_observed = false;
  head_observed = false;
  evidence = [];
  limitations = limitations;
  scope = scope;
}

unfoldable pub incomplete : BehavioralDelta → Bool
incomplete delta = not delta.execution_complete || not delta.evidence_complete

-- The findings about the delta as a whole.
unfoldable pub global_specs : BehavioralDelta → List FindingSpec
unfolding incomplete completeness_limitations synthetic_context_requires_review
    synthetic_context_limitations
global_specs delta =
    if incomplete delta
    then global_spec high failed "global-incomplete" (completeness_limitations delta) ∷ []
    else if synthetic_context_requires_review delta.evidence_context
    then global_spec medium requires_review "global-synthetic"
        (synthetic_context_limitations delta.evidence_context)
      ∷ []
    else []

unfoldable pub make_findings : Limits → FindingId → List FindingSpec → Result Code (List Finding)
make_findings limits finding_id [] = ok []
make_findings limits finding_id (sp ∷ sps) = do
  f ← make_finding limits finding_id sp
  fs ← make_findings limits finding_id sps
  ok (f ∷ fs)

-- `perRecordRuleCount`: `counted` has a record's id once for each finding made so far.
unfoldable pub record_findings :
    Limits
    → FindingId
    → String
    → List String
    → List FindingSpec
    → Result Code (List Finding × List String)
record_findings limits finding_id id counted [] = ok ([], counted)
record_findings limits finding_id id counted (sp ∷ sps) = do
  let counted' = id ∷ counted
  reject_if (ltb limits.max_findings_per_delta_record (count (str_eq id) counted')) finding_limit
  f ← make_finding limits finding_id sp
  r ← record_findings limits finding_id id counted' sps
  ok (f ∷ r.0, r.1)

unfoldable pub records_findings :
    Limits → FindingId → List String → List DeltaRecord → Result Code (List Finding)
records_findings limits finding_id counted [] = ok []
records_findings limits finding_id counted (rec ∷ recs) = do
  specs ← specs_for_record rec
  r ← record_findings limits finding_id rec.id counted specs
  fs ← records_findings limits finding_id r.1 recs
  ok (r.0 ++ fs)

unfoldable pub evaluate_rules : Limits → FindingId → BehavioralDelta → Result Code (List Finding)
evaluate_rules limits finding_id delta = do
  globals ← make_findings limits finding_id (global_specs delta)
  fs ← records_findings limits finding_id [] delta.records
  ok (globals ++ fs)

pub disposition_rank : Disposition → ℕ
disposition_rank failed = 0
disposition_rank requires_review = 1
disposition_rank passed = 2
disposition_rank waived = 3
disposition_rank _ = 9

pub severity_rank : Severity → ℕ
severity_rank critical = 0
severity_rank high = 1
severity_rank medium = 2
severity_rank low = 3
severity_rank info = 4
severity_rank _ = 9

-- `scenarioRank[id]`, from the place of the first of the ids; the last of equal ids counts.
scenario_rank : ℕ → List String → String → Option ℕ
scenario_rank i [] id = none
scenario_rank i (x ∷ xs) id = elim (scenario_rank (suc i) xs id) [
  | some r ↦ some r
  | none ↦ if str_eq x id then some i else none
]

min_scenario_rank : List String → List String → ℕ
min_scenario_rank order [] = 2 ^ 30
min_scenario_rank order (id ∷ ids) =
    let best = min_scenario_rank order ids in
    elim (scenario_rank 0 order id) [ none ↦ best | some r ↦ if ltb r best then r else best ]

abbrev first : List String → String
first [] = ""
first (x ∷ xs) = x

unfoldable pub finding_lt : BehavioralDelta → Finding → Finding → Bool
unfolding disposition_rank severity_rank scenario_rank min_scenario_rank
finding_lt delta a b =
    let ma = min_scenario_rank delta.scenario_ids a.scenario_ids in
    let mb = min_scenario_rank delta.scenario_ids b.scenario_ids in
    if not (disposition_rank a.disposition == disposition_rank b.disposition)
    then ltb (disposition_rank a.disposition) (disposition_rank b.disposition)
    else if not (severity_rank a.severity == severity_rank b.severity)
    then ltb (severity_rank a.severity) (severity_rank b.severity)
    else if not (str_eq a.rule_id b.rule_id)
    then string_lt a.rule_id b.rule_id
    else if not (ma == mb)
    then ltb ma mb
    else if not (str_eq (first a.delta_record_ids) (first b.delta_record_ids))
    then string_lt (first a.delta_record_ids) (first b.delta_record_ids)
    else string_lt a.id b.id

-- The loop that looks for a repeated id and adds up the references.
unfoldable pub check_findings : Limits → List String → ℕ → List Finding → Result Code (Unit {0})
check_findings limits seen total [] = ok tt
check_findings limits seen total (f ∷ fs) = do
  reject_if (any (str_eq f.id) seen) duplicate_finding_id
  reject_if (ltb limits.max_evidence_refs_total (total + length f.evidence))
      evidence_reference_limit
  check_findings limits (f.id ∷ seen) (total + length f.evidence) fs

pub record EvaluationSummary : Type 0 where
  pub total_findings : ℕ
  pub info : ℕ
  pub low : ℕ
  pub medium : ℕ
  pub high : ℕ
  pub critical : ℕ
  pub requires_review : ℕ
  pub failed : ℕ
  pub passed : ℕ
  pub waived : ℕ

count_severity : Severity → EvaluationSummary → EvaluationSummary
count_severity Severity.info s = record s { info = s.info + 1 }
count_severity Severity.low s = record s { low = s.low + 1 }
count_severity Severity.medium s = record s { medium = s.medium + 1 }
count_severity Severity.high s = record s { high = s.high + 1 }
count_severity Severity.critical s = record s { critical = s.critical + 1 }
count_severity _ s = s

count_disposition : Disposition → EvaluationSummary → EvaluationSummary
count_disposition Disposition.requires_review s = record s {
  requires_review = s.requires_review + 1;
}
count_disposition Disposition.failed s = record s { failed = s.failed + 1 }
count_disposition Disposition.passed s = record s { passed = s.passed + 1 }
count_disposition Disposition.waived s = record s { waived = s.waived + 1 }
count_disposition _ s = s

unfoldable pub summary_step : Finding → EvaluationSummary → EvaluationSummary
unfolding count_severity count_disposition
summary_step f s = count_disposition f.disposition (count_severity f.severity s)

unfoldable pub summarize_from : EvaluationSummary → List Finding → EvaluationSummary
summarize_from s [] = s
summarize_from s (f ∷ fs) = summarize_from (summary_step f s) fs

unfoldable pub summarize_findings : List Finding → EvaluationSummary
summarize_findings fs =
    summarize_from
      (record {
        total_findings = length fs;
        info = 0;
        low = 0;
        medium = 0;
        high = 0;
        critical = 0;
        requires_review = 0;
        failed = 0;
        passed = 0;
        waived = 0;
      })
      fs

unfoldable pub overall_disposition : EvaluationSummary → Disposition
overall_disposition s =
    if ltb 0 s.failed then failed else if ltb 0 s.total_findings then requires_review else passed

pub record Evaluation : Type 0 where
  pub overall : Disposition
  pub findings : List Finding
  pub summary : EvaluationSummary

unfoldable pub evaluate_findings : Limits → FindingId → BehavioralDelta → Result Code Evaluation
evaluate_findings limits finding_id delta = do
  found ← evaluate_rules limits finding_id delta
  let findings = sort (finding_lt delta) found
  reject_if (ltb limits.max_findings (length findings)) finding_limit
  check_findings limits [] 0 findings
  let summary = summarize_findings findings
  ok (record { overall = overall_disposition summary; findings = findings; summary = summary })
