-- ===== src/Compare/Validate/Checked.antt =====
-- What a document that is accepted satisfies (internal/compare/comparator.go `validateTraceDocument`).
use glassroot.Common.{
  ℕ, suc, ◌+◌, ◌≤◌, ◌≡◌, refl, sym, subst, String, Bool, true, false, not, ◌||◌, ◌&&◌, List, [],
  ◌∷◌, ◌++◌, map, length, All, contains_string, ok, >>=-eq-ok, reject_if-eq-ok, ok_injective,
  str_eq, eq_iff, ltb, ◌==◌, Bool-cases, inl, inr, arith, valid_digest,
}
use glassroot.Compare.Facts.{
  unsupported_normalization_profile, invalid_trace_set, invalid_attempt_inventory,
  duplicate_attempt, duplicate_fact_id, invalid_semantic_digest, unsupported_fact_kind,
  invalid_observation_source, invalid_fact_payload, evidence_reference_invalid, comparison_limit,
  RawEvidence, Fact, AttemptTrace, is_base, is_head,
}
use glassroot.Compare.Match.Counting.{str_eq_refl, Distinct}
use glassroot.Compare.Validate.{
  Limits, TraceDocument, trace_set_schema, profile_version, is_supported_fact_kind,
  is_supported_source, payload_count, refers_to, validate_evidence, validate_fact, validate_facts,
  Seen, nothing_seen, coordinate, seen_too, validate_attempt, validate_attempts,
  validate_trace_document,
}

-- Each text is new when it is reached.
abbrev New : List String → List String → Type 0
New known [] = Unit
New known (x ∷ xs) = (contains_string x known ≡ false) × New (x ∷ known) xs

New-outside :
    (known xs : List String) (y : String)
    → contains_string y known ≡ true
    → New known xs
    → contains_string y xs ≡ false
New-outside known [] y h n = refl
New-outside known (x ∷ xs) y h n =
    let rest = New-outside (x ∷ known) xs y (ground (arith, h)) n.1 in
    elim (Bool-cases (str_eq x y)) [
      | inr other ↦ ground (arith, other, rest)
      | inl same ↦
          let e = (eq_iff x y).0 same in
          let here : contains_string y known ≡ false =
            subst (λ z. contains_string z known ≡ false) e n.0 in
          absurd (ground (arith, here, h))
    ]

New-Distinct : (known xs : List String) → New known xs → Distinct xs
New-Distinct known [] n = tt
New-Distinct known (x ∷ xs) n = (
  New-outside (x ∷ known) xs x (ground (arith, str_eq_refl x)) n.1,
  New-Distinct (x ∷ known) xs n.1,
)

abbrev pub fact_ids : List Fact → List String
fact_ids fs = map (λ (f : Fact). f.id) fs

-- The ids of the facts of all attempts.
abbrev pub all_fact_ids : List AttemptTrace → List String
all_fact_ids [] = []
all_fact_ids (a ∷ xs) = fact_ids a.facts ++ all_fact_ids xs

abbrev pub fact_total : List AttemptTrace → ℕ
fact_total [] = 0
fact_total (a ∷ xs) = length a.facts + fact_total xs

abbrev pub Numbered : ℕ → List AttemptTrace → Type 0
Numbered n [] = Unit
Numbered n (a ∷ xs) = (a.ordinal ≡ n + 1) × Numbered (suc n) xs

-- An attempt is of the base, unless one of the head stands before it: then it is of the head.
abbrev pub BaseFirst : Bool → List AttemptTrace → Type 0
BaseFirst saw_head [] = Unit
BaseFirst saw_head (a ∷ xs) =
    ((is_head a.revision || is_base a.revision && not saw_head) ≡ true)
    × BaseFirst (saw_head || is_head a.revision) xs

-- A fact has one payload, a digest, and evidence of its attempt alone.
abbrev pub FactChecked : AttemptTrace → Fact → Type 0
FactChecked a f =
    (payload_count f ≡ 1)
    × (valid_digest f.semantic_digest ≡ true)
    × All (λ ref. refers_to a ref ≡ true) f.evidence

abbrev pub AttemptChecked : AttemptTrace → Type 0
AttemptChecked a = All (FactChecked a) a.facts

evidence-checked :
    (a : AttemptTrace) (refs : List RawEvidence)
    → validate_evidence a refs ≡ ok tt
    → All (λ ref. refers_to a ref ≡ true) refs
unfolding validate_evidence
evidence-checked a [] h = tt
evidence-checked a (ref ∷ refs) h =
    let (good, h₁) = reject_if-eq-ok (not (refers_to a ref)) evidence_reference_invalid _ h in
    (ground (arith, good), evidence-checked a refs h₁)

is_one : (n : ℕ) → not (n == 1) ≡ false → n ≡ 1
is_one n h = ground (arith, h)

not-not : (b : Bool) → not b ≡ false → b ≡ true
not-not true h = refl
not-not false h = cc

fact-checked :
    (a : AttemptTrace) (f : Fact) (seen out : List String)
    → validate_fact a f seen ≡ ok out
    → FactChecked a f × (contains_string f.id seen ≡ false) × (f.id ∷ seen ≡ out)
unfolding validate_fact
fact-checked a f seen out h =
    let (_, h₁) = reject_if-eq-ok (str_eq f.id "") invalid_trace_set _ h in
    let (new, h₂) = reject_if-eq-ok (contains_string f.id seen) duplicate_fact_id _ h₁ in
    let (digest, h₃) =
      reject_if-eq-ok (not (valid_digest f.semantic_digest)) invalid_semantic_digest _ h₂ in
    let (_, h₄) =
      reject_if-eq-ok (not (is_supported_fact_kind f.kind)) unsupported_fact_kind _ h₃ in
    let (_, h₅) =
      reject_if-eq-ok (not (is_supported_source f.source)) invalid_observation_source _ h₄ in
    let (one, h₆) = reject_if-eq-ok (not (payload_count f == 1)) invalid_fact_payload _ h₅ in
    let (_, e, h₇) = >>=-eq-ok (validate_evidence a f.evidence) _ h₆ in
    (
      (
        is_one (payload_count f) one,
        not-not (valid_digest f.semantic_digest) digest,
        evidence-checked a f.evidence e,
      ),
      new,
      ok_injective h₇,
    )

facts-checked :
    (a : AttemptTrace) (fs : List Fact) (seen out : List String)
    → validate_facts a fs seen ≡ ok out
    → All (FactChecked a) fs
      × ((rest : List String) → New out rest → New seen (fact_ids fs ++ rest))
unfolding validate_facts
facts-checked a [] seen out h = (tt, (λ rest n. subst (λ k. New k rest) (sym (ok_injective h)) n))
facts-checked a (f ∷ fs) seen out h =
    let (next, e, h₁) = >>=-eq-ok (validate_fact a f seen) _ h in
    let (good, new, same) = fact-checked a f seen next e in
    let (others, more) = facts-checked a fs next out h₁ in
    (
      (good, others),
      (λ rest n. (new, subst (λ k. New k (fact_ids fs ++ rest)) (sym same) (more rest n))),
    )

-- What one step of the loop has found out.
abbrev Stepped : Limits → AttemptTrace → Seen → Seen → Type 0
Stepped limits a s out =
    (contains_string a.attempt_id s.attempts ≡ false)
    × (contains_string (coordinate a) s.coordinates ≡ false)
    × ((is_head a.revision || is_base a.revision && not s.saw_head) ≡ true)
    × (s.facts + length a.facts ≤ limits.max_facts_total)
    × (a.ordinal ≡ s.index + 1)
    × (ids : List String) × (validate_facts a a.facts s.fact_ids ≡ ok ids)
    × (seen_too a ids s ≡ out)

attempt-Stepped :
    (limits : Limits) (a : AttemptTrace) (s out : Seen)
    → validate_attempt limits a s ≡ ok out
    → Stepped limits a s out
unfolding validate_attempt
attempt-Stepped limits a s out h =
    let (_, h₁) =
      reject_if-eq-ok (str_eq a.attempt_id "" || str_eq a.scenario_id "" || a.repetition == 0)
        invalid_attempt_inventory _ h in
    let (id, h₂) =
      reject_if-eq-ok (contains_string a.attempt_id s.attempts) duplicate_attempt _ h₁ in
    let (place, h₃) =
      reject_if-eq-ok (contains_string (coordinate a) s.coordinates) duplicate_attempt _ h₂ in
    let (late, h₄) =
      reject_if-eq-ok (not (is_head a.revision) && is_base a.revision && s.saw_head)
        invalid_attempt_inventory _ h₃ in
    let (known, h₅) =
      reject_if-eq-ok (not (is_head a.revision) && not (is_base a.revision))
        invalid_attempt_inventory _ h₄ in
    let (_, h₆) =
      reject_if-eq-ok (ltb limits.max_facts_per_attempt (length a.facts)) comparison_limit _ h₅ in
    let (total, h₇) =
      reject_if-eq-ok (ltb limits.max_facts_total (s.facts + length a.facts)) comparison_limit _
        h₆ in
    let (number, h₈) =
      reject_if-eq-ok (not (s.index + 1 == a.ordinal)) invalid_attempt_inventory _ h₇ in
    let (ids, e, h₉) = >>=-eq-ok (validate_facts a a.facts s.fact_ids) _ h₈ in
    (
      id,
      place,
      sides (is_head a.revision) (is_base a.revision) s.saw_head late known,
      ground (arith, total),
      ground (arith, number),
      ids,
      e,
      ok_injective h₉,
    )
  where
    sides :
        (head base saw : Bool)
        → (not head && base && saw) ≡ false
        → (not head && not base) ≡ false
        → (head || base && not saw) ≡ true
    sides head base saw late known = ground arith

-- What the loop has found out of the attempts that it has read.
abbrev Read : Limits → List AttemptTrace → Seen → Type 0
Read limits xs s =
    New s.attempts (map (λ (a : AttemptTrace). a.attempt_id) xs)
    × New s.coordinates (map coordinate xs)
    × New s.fact_ids (all_fact_ids xs)
    × Numbered s.index xs
    × BaseFirst s.saw_head xs
    × All AttemptChecked xs

attempts-Read :
    (limits : Limits) (xs : List AttemptTrace) (s out : Seen)
    → validate_attempts limits xs s ≡ ok out
    → Read limits xs s
      × (s.facts ≤ limits.max_facts_total → s.facts + fact_total xs ≤ limits.max_facts_total)
unfolding validate_attempts
attempts-Read limits [] s out h = ((tt, tt, tt, tt, tt, tt), (λ b. omega arith))
attempts-Read limits (a ∷ xs) s out h =
    let (next, e, h₁) = >>=-eq-ok (validate_attempt limits a s) _ h in
    let (id, place, side, total, number, ids, facts, same) = attempt-Stepped limits a s next e in
    let (checked, more) = facts-checked a a.facts s.fact_ids ids facts in
    let ((n₁, n₂, n₃, n₄, n₅, n₆), bound) =
      attempts-Read limits xs (seen_too a ids s) out
        (subst (λ t. validate_attempts limits xs t ≡ ok out) (sym same) h₁) in
    (
      ((id, n₁), (place, n₂), more (all_fact_ids xs) n₃, (number, n₄), (side, n₅), (checked, n₆)),
      (λ b. omega (arith, bound total)),
    )

-- If a document is accepted, then no two attempts have the same id or the same coordinate (revision,
-- scenario and repetition); no two facts in the document have the same id; the attempts are numbered
-- from 1 on; those of the base stand before those of the head; there are facts within the limit in
-- all; and each fact has one payload, a digest, and evidence that refers to its own attempt.
pub validate_trace_document-Checked :
    (limits : Limits) (doc : TraceDocument)
    → validate_trace_document limits doc ≡ ok tt
    → Distinct (map (λ (a : AttemptTrace). a.attempt_id) doc.attempts)
      × Distinct (map coordinate doc.attempts)
      × Distinct (all_fact_ids doc.attempts)
      × Numbered 0 doc.attempts
      × BaseFirst false doc.attempts
      × (fact_total doc.attempts ≤ limits.max_facts_total)
      × All AttemptChecked doc.attempts
unfolding validate_trace_document
validate_trace_document-Checked limits doc h =
    let (_, h₁) =
      reject_if-eq-ok
        (not (str_eq doc.schema_version trace_set_schema)
          || not (str_eq doc.profile_version profile_version))
        unsupported_normalization_profile _ h in
    let (_, h₂) =
      reject_if-eq-ok (not (valid_digest doc.plan_digest) || not (valid_digest doc.manifest_digest))
        invalid_trace_set _ h₁ in
    let (_, h₃) = reject_if-eq-ok (str_eq doc.run_id "") invalid_trace_set _ h₂ in
    let (_, h₄) =
      reject_if-eq-ok (length doc.attempts == 0 || ltb limits.max_attempts (length doc.attempts))
        invalid_attempt_inventory _ h₃ in
    let (out, e, _) = >>=-eq-ok (validate_attempts limits doc.attempts nothing_seen) _ h₄ in
    let ((n₁, n₂, n₃, n₄, n₅, n₆), bound) = attempts-Read limits doc.attempts nothing_seen out e in
    (
      New-Distinct [] _ n₁,
      New-Distinct [] _ n₂,
      New-Distinct [] _ n₃,
      n₄,
      n₅,
      omega (arith, bound (omega arith)),
      n₆,
    )
