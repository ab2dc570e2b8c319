-- ===== src/Compare/Document/Observed.antt =====
-- What the records of a document show of the facts of all its scenarios.
use glassroot.Common.{
  ℕ, ◌+◌, ◌≡◌, refl, sym, ap, ◌∙◌, Bool, true, false, not, Option, none, some, List, [], ◌∷◌, ◌++◌,
  map, count, count-append, count-sort, Result, ok, err, >>=-eq-ok, reject_if, str_eq,
  if◌then◌else◌, Bool-cases, inl, inr, arith, ltb, length,
}
use glassroot.Model.{DeltaRecord, Limitation}
use glassroot.Compare.Facts.{
  Code, AttemptTrace, evidence_reference_limit, delta_limit, delta_too_large, serialization_failed,
}
use glassroot.Compare.Variants.{Names, Hashes, Variant, build_variants, prepare}
use glassroot.Compare.Match.{compare_scenario}
use glassroot.Compare.Match.Counting.{count-map, count-ext, All-pure}
use glassroot.Compare.Match.Marks.{Side, of_base, of_head, pick, observed, equal_at}
use glassroot.Compare.Match.Reported.{compare_scenario-observed}
use glassroot.Compare.Validate.{Limits, TraceDocument, validate_trace_document}
use glassroot.Compare.Document.{
  ScenarioGroup, scenario_limitations, coverage_record, coverage_records, compare_scenarios,
  group_scenarios, sort_records, record_before, with_id, FrozenDelta, within_size, compare_document,
}

-- The variants of the facts of some attempts, or none where an anchor cannot be made.
abbrev variants_from : Result Code (List Variant) → List Variant
variants_from (ok vs) = vs
variants_from (err e) = []

abbrev pub variants_of : Names → Hashes → List AttemptTrace → List Variant
variants_of names hashes attempts =
    variants_from (prepare hashes attempts (build_variants names attempts))

-- The variants of one side of a scenario with no counterpart that has the same occurrences.
abbrev pub differing : Names → Hashes → Side → ScenarioGroup → ℕ
differing names hashes side g =
    let base = variants_of names hashes g.base in
    let head = variants_of names hashes g.head in
    count (λ (v : Variant). not (equal_at base head v.key)) (pick side base head)

abbrev pub total_differing : Names → Hashes → Side → List ScenarioGroup → ℕ
total_differing names hashes side [] = 0
total_differing names hashes side (g ∷ gs) =
    differing names hashes side g + total_differing names hashes side gs

prepared :
    (names : Names) (hashes : Hashes) (attempts : List AttemptTrace) (vs : List Variant)
    → prepare hashes attempts (build_variants names attempts) ≡ ok vs
    → prepare hashes attempts (build_variants names attempts)
      ≡ ok (variants_of names hashes attempts)
prepared names hashes attempts vs h = rw h refl

scenario-observed :
    (names : Names) (hashes : Hashes) (side : Side) (g : ScenarioGroup)
    (found : List DeltaRecord × ℕ)
    → compare_scenario names hashes g.id g.base g.head ≡ ok found
    → count (observed side) found.0 ≡ differing names hashes side g
unfolding compare_scenario
scenario-observed names hashes side g found h =
    let (b, hb, h₁) = >>=-eq-ok (prepare hashes g.base (build_variants names g.base)) _ h in
    let (c, hc, h₂) = >>=-eq-ok (prepare hashes g.head (build_variants names g.head)) _ h₁ in
    compare_scenario-observed names hashes g.id g.base g.head (variants_of names hashes g.base)
      (variants_of names hashes g.head) found.0 found.1 side (prepared names hashes g.base b hb)
      (prepared names hashes g.head c hc) h

coverage_records-observed :
    (hashes : Hashes) (side : Side) (g : ScenarioGroup)
    → count (observed side) (coverage_records hashes g) ≡ 0
unfolding coverage_record
coverage_records-observed hashes side g = none_of side (scenario_limitations g)
  where
    none_of :
        (side' : Side) (ls : List Limitation)
        → count (observed side') (map (coverage_record hashes g) ls) ≡ 0
    none_of side' [] = refl
    none_of of_base (l ∷ ls) = none_of of_base ls
    none_of of_head (l ∷ ls) = none_of of_head ls

scenarios-observed :
    (names : Names) (hashes : Hashes) (limits : Limits) (side : Side) (gs : List ScenarioGroup)
    (records out : List DeltaRecord) (refs : ℕ)
    → compare_scenarios names hashes limits gs records refs ≡ ok out
    → count (observed side) out
      ≡ count (observed side) records + total_differing names hashes side gs
unfolding compare_scenarios
scenarios-observed names hashes limits side [] records out refs h =
    let same : records ≡ out = cc in omega (arith, ap (count (observed side)) same)
scenarios-observed names hashes limits side (g ∷ gs) records out refs h =
    let (found, e, h₁) = >>=-eq-ok (compare_scenario names hashes g.id g.base g.head) _ h in
    let (_, _, h₂) =
      >>=-eq-ok
        (reject_if (ltb limits.max_evidence_refs_total (refs + found.1)) evidence_reference_limit) _
        h₁ in
    let (_, _, h₃) =
      >>=-eq-ok
        (reject_if
          (ltb limits.max_delta_records (length (records ++ coverage_records hashes g ++ found.0)))
          delta_limit)
        _ h₂ in
    omega (
      arith,
      scenarios-observed names hashes limits side gs
          (records ++ coverage_records hashes g ++ found.0) out (refs + found.1) h₃,
      count-append (observed side) (records ++ coverage_records hashes g) found.0,
      count-append (observed side) records (coverage_records hashes g),
      coverage_records-observed hashes side g,
      scenario-observed names hashes side g found e,
    )

with_id-observed :
    (hashes : Hashes) (side : Side) (r : DeltaRecord)
    → observed side (with_id hashes r) ≡ observed side r
with_id-observed hashes of_base r = elim (Bool-cases (str_eq r.id "")) [
  | inl e ↦ rw e refl
  | inr e ↦ rw e refl
]
with_id-observed hashes of_head r = elim (Bool-cases (str_eq r.id "")) [
  | inl e ↦ rw e refl
  | inr e ↦ rw e refl
]

pub same_delta :
    (limits : Limits) (d d' : FrozenDelta) (o : Option ℕ) → within_size limits d o ≡ ok d' → d ≡ d'
same_delta limits d d' none h = absurd (clash h)
  where
    clash : ◌≡◌ {A = Result Code FrozenDelta} (err serialization_failed) (ok d') → ⊥
    clash e = cc
same_delta limits d d' (some n) h = taken (ltb limits.max_delta_json_bytes n) h
  where
    taken : (c : Bool) → (if c then err delta_too_large else ok d) ≡ ok d' → d ≡ d'
    taken true e = cc
    taken false e = cc

zero_add : (n : ℕ) → 0 + n ≡ n
zero_add n = omega arith

-- If a document is compared, then for both sides, the records of the delta that show the side are as
-- many as the variants of its facts, in all scenarios, that have no counterpart with the same
-- occurrences on the other side of their scenario.
pub compare_document-observed :
    (names : Names) (hashes : Hashes) (json : FrozenDelta → Option ℕ) (limits : Limits)
    (doc : TraceDocument) (d : FrozenDelta) (side : Side)
    → compare_document names hashes json limits doc ≡ ok d
    → count (observed side) d.delta.records
      ≡ total_differing names hashes side (group_scenarios doc.attempts)
unfolding compare_document
compare_document-observed names hashes json limits doc d side h =
    let (_, _, h₁) = >>=-eq-ok (validate_trace_document limits doc) _ h in
    let (records, e, h₂) =
      >>=-eq-ok (compare_scenarios names hashes limits (group_scenarios doc.attempts) [] 0) _ h₁ in
    let same = same_delta limits _ d _ h₂ in
    ap (λ (x : FrozenDelta). count (observed side) x.delta.records) (sym same)
    ∙ count-map (observed side) (with_id hashes) (sort_records names records)
    ∙ count-ext _ (observed side) (sort_records names records)
        (All-pure (sort_records names records) (with_id-observed hashes side))
    ∙ count-sort (record_before names) (observed side) records
    ∙ scenarios-observed names hashes limits side (group_scenarios doc.attempts) [] records 0 e
    ∙ zero_add (total_differing names hashes side (group_scenarios doc.attempts))
