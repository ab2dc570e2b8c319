-- ===== src/Policy/Evaluate/Outcome.antt =====
-- What the overall disposition of an evaluation says.
use glassroot.Common.{
  ◌+◌, ◌≡◌, refl, sym, ap, subst, ◌∙◌, Bool, List, [], ◌∷◌, ◌++◌, String, count, count-append,
  length, Result, ok, >>=-eq-ok, reject_if, if◌then◌else◌, ltb, arith, sort, count-sort, str_eq,
}
use glassroot.Model.{
  passed, requires_review, failed, is_failed, DeltaRecord, BehavioralDelta, Finding,
}
use glassroot.Policy.Rules.{FindingSpec, Code, finding_limit, specs_for_record}
use glassroot.Policy.Rules.Bounds.{fails_spec, specs_for_record-never_fails}
use glassroot.Policy.Evaluate.{
  Limits, FindingId, Evaluation, EvaluationSummary, make_finding, make_findings, record_findings,
  records_findings, evaluate_rules, global_specs, incomplete, synthetic_context_requires_review,
  summary_step, summarize_from, summarize_findings, overall_disposition, finding_lt, check_findings,
  evaluate_findings,
}

abbrev pub fails : Finding → Bool
fails f = is_failed f.disposition

module _ (limits : Limits) (finding_id : FindingId) where
  make_finding-fails :
      (sp : FindingSpec) (f : Finding)
      → make_finding limits finding_id sp ≡ ok f
      → fails f ≡ fails_spec sp
  unfolding make_finding
  make_finding-fails sp f h = ground arith

  make_findings-fails :
      (specs : List FindingSpec) (fs : List Finding)
      → make_findings limits finding_id specs ≡ ok fs
      → (count fails fs ≡ count fails_spec specs) × (length fs ≡ length specs)
  unfolding make_findings
  make_findings-fails [] fs h = ground arith
  make_findings-fails (sp ∷ sps) fs h =
      let (f, ef, h₁) = >>=-eq-ok (make_finding limits finding_id sp) _ h in
      let (rest, er, h₂) = >>=-eq-ok (make_findings limits finding_id sps) _ h₁ in
      ground (arith, make_finding-fails sp f ef, make_findings-fails sps rest er)

  record_findings-fails :
      (id : String) (counted : List String) (specs : List FindingSpec)
      (r : List Finding × List String)
      → record_findings limits finding_id id counted specs ≡ ok r
      → count fails r.0 ≡ count fails_spec specs
  unfolding record_findings
  record_findings-fails id counted [] r h = ground arith
  record_findings-fails id counted (sp ∷ sps) r h =
      let (_, _, h₀) =
        >>=-eq-ok
          (reject_if (ltb limits.max_findings_per_delta_record (count (str_eq id) (id ∷ counted)))
            finding_limit)
          _ h in
      let (f, ef, h₁) = >>=-eq-ok (make_finding limits finding_id sp) _ h₀ in
      let (rest, er, h₂) =
        >>=-eq-ok (record_findings limits finding_id id (id ∷ counted) sps) _ h₁ in
      ground
        (arith, make_finding-fails sp f ef, record_findings-fails id (id ∷ counted) sps rest er)

  records_findings-fails :
      (counted : List String) (recs : List DeltaRecord) (fs : List Finding)
      → records_findings limits finding_id counted recs ≡ ok fs
      → count fails fs ≡ 0
  unfolding records_findings
  records_findings-fails counted [] fs h = ground arith
  records_findings-fails counted (rec ∷ recs) fs h =
      let (specs, es, h₁) = >>=-eq-ok (specs_for_record rec) _ h in
      let (r, er, h₂) = >>=-eq-ok (record_findings limits finding_id rec.id counted specs) _ h₁ in
      let (rest, et, h₃) = >>=-eq-ok (records_findings limits finding_id r.1 recs) _ h₂ in
      let eq : fs ≡ r.0 ++ rest = cc h₃ in
      rw eq (
        count-append fails r.0 rest
        ∙ omega (
          arith,
          record_findings-fails rec.id counted specs r er,
          specs_for_record-never_fails rec specs es,
          records_findings-fails r.1 recs rest et,
        ))

  global_specs-fails :
      (delta : BehavioralDelta)
      → count fails_spec (global_specs delta) ≡ (if incomplete delta then 1 else 0)
  unfolding global_specs incomplete synthetic_context_requires_review
  global_specs-fails delta = ground arith

  evaluate_rules-fails :
      (delta : BehavioralDelta) (fs : List Finding)
      → evaluate_rules limits finding_id delta ≡ ok fs
      → count fails fs ≡ (if incomplete delta then 1 else 0)
  unfolding evaluate_rules
  evaluate_rules-fails delta fs h =
      let (globals, eg, h₁) =
        >>=-eq-ok (make_findings limits finding_id (global_specs delta)) _ h in
      let (rest, er, h₂) = >>=-eq-ok (records_findings limits finding_id [] delta.records) _ h₁ in
      let eq : fs ≡ globals ++ rest = cc h₂ in
      rw eq (
        count-append fails globals rest
        ∙ omega (
          arith,
          make_findings-fails (global_specs delta) globals eg,
          records_findings-fails [] delta.records rest er,
          global_specs-fails delta,
        ))

summary_step-failed :
    (f : Finding) (s : EvaluationSummary)
    → (summary_step f s).failed ≡ s.failed + count fails (f ∷ [])
unfolding summary_step
summary_step-failed f s = ground arith

summary_step-total :
    (f : Finding) (s : EvaluationSummary) → (summary_step f s).total_findings ≡ s.total_findings
unfolding summary_step
summary_step-total f s = ground arith

summarize_from-failed :
    (s : EvaluationSummary) (fs : List Finding)
    → (summarize_from s fs).failed ≡ s.failed + count fails fs
unfolding summarize_from
summarize_from-failed s [] = omega arith
summarize_from-failed s (f ∷ fs) =
    summarize_from-failed (summary_step f s) fs ∙ ground (arith, summary_step-failed f s)

summarize_from-total :
    (s : EvaluationSummary) (fs : List Finding)
    → (summarize_from s fs).total_findings ≡ s.total_findings
unfolding summarize_from
summarize_from-total s [] = refl
summarize_from-total s (f ∷ fs) =
    summarize_from-total (summary_step f s) fs ∙ summary_step-total f s

abbrev finished : List Finding → Evaluation
finished fs = record {
  overall = overall_disposition (summarize_findings fs);
  findings = fs;
  summary = summarize_findings fs;
}

-- The tail of `evaluate`: what it returns is the sorted list, its summary and the disposition.
pub evaluated :
    (limits : Limits) (finding_id : FindingId) (delta : BehavioralDelta) (e : Evaluation)
    → evaluate_findings limits finding_id delta ≡ ok e
    → (found : List Finding) × (evaluate_rules limits finding_id delta ≡ ok found)
      × (e.findings ≡ sort (finding_lt delta) found)
      × (e.overall ≡ overall_disposition (summarize_findings e.findings))
unfolding evaluate_findings
evaluated limits finding_id delta e h =
    let (found, ef, h₁) = >>=-eq-ok (evaluate_rules limits finding_id delta) _ h in
    let fs : List Finding = sort (finding_lt delta) found in
    let (_, _, h₂) =
      >>=-eq-ok (reject_if (ltb limits.max_findings (length fs)) finding_limit) _ h₁ in
    let (_, _, h₃) = >>=-eq-ok (check_findings limits [] 0 fs) _ h₂ in
    let eq : finished fs ≡ e = result-ok (finished fs) e h₃ in
    (found, ef, ap (λ x. x.findings) (sym eq), subst Disposed eq refl)
  where
    Disposed : Evaluation → Type 0
    Disposed x = x.overall ≡ overall_disposition (summarize_findings x.findings)

    result-ok : (x y : Evaluation) → ◌≡◌ {A = Result Code Evaluation} (ok x) (ok y) → x ≡ y
    result-ok x y h = cc

summarize_findings-failed : (fs : List Finding) → (summarize_findings fs).failed ≡ count fails fs
unfolding summarize_findings
summarize_findings-failed fs = summarize_from-failed _ fs ∙ omega arith

summarize_findings-total : (fs : List Finding) → (summarize_findings fs).total_findings ≡ length fs
unfolding summarize_findings
summarize_findings-total fs = summarize_from-total _ fs

overall-summarize :
    (fs : List Finding)
    → overall_disposition (summarize_findings fs) ≡ (
        if ltb 0 (count fails fs)
        then failed
        else if ltb 0 (length fs)
        then requires_review
        else passed)
unfolding overall_disposition
overall-summarize fs = rw (summarize_findings-failed fs, summarize_findings-total fs) refl

-- When an evaluation succeeds, its overall disposition is failed exactly if the delta's execution or
-- evidence is incomplete, otherwise passed exactly if there is no finding; and exactly one finding
-- fails in the first case and none in the other.
pub evaluate_findings-overall :
    (limits : Limits) (finding_id : FindingId) (delta : BehavioralDelta) (e : Evaluation)
    → evaluate_findings limits finding_id delta ≡ ok e
    → (e.overall ≡ (
        if incomplete delta
        then failed
        else if ltb 0 (length e.findings)
        then requires_review
        else passed))
      × (count fails e.findings ≡ (if incomplete delta then 1 else 0))
evaluate_findings-overall limits finding_id delta e h =
    let (found, ef, sorted, disposed) = evaluated limits finding_id delta e h in
    let counted : count fails e.findings ≡ (if incomplete delta then 1 else 0) = rw sorted (
      count-sort (finding_lt delta) fails found
      ∙ evaluate_rules-fails limits finding_id delta found ef) in
    (disposed ∙ overall-summarize e.findings ∙ ground (arith, counted), counted)
