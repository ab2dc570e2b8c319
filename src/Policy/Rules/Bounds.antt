-- ===== src/Policy/Rules/Bounds.antt =====
-- How many findings one record gives, and what they share.
use glassroot.Common.{
  ℕ, ◌≡◌, refl, subst, count, count-append, Bool, true, false, ◌&&◌, Option, none, some, List, [],
  ◌∷◌, ◌++◌, Result, ok, >>=-eq-ok, arith, Bool-cases, inl, inr,
}
use glassroot.Model.{DeltaRecord, requires_review, is_failed, Severity}
use glassroot.Policy.Rules.{
  FindingSpec, Code, obs_001, lost_severity, when, spec, specs_for_record, specs_before,
  specs_after, fs_002_specs, coverage_lost, head_positive, is_stability, is_filesystem_fact,
  outside_root_severity, outside_specs,
}

pub ok_inj :
    (xs ys : List FindingSpec) → ◌≡◌ {A = Result Code (List FindingSpec)} (ok xs) (ok ys) → xs ≡ ys
ok_inj xs ys e = cc

abbrev one_if : Bool → ℕ
one_if true = 1
one_if false = 0

pub stability-not_positive :
    (rec : DeltaRecord) → is_stability rec.kind ≡ true → head_positive rec ≡ false
unfolding head_positive
stability-not_positive rec h = ground arith

abbrev pub fails_spec : FindingSpec → Bool
fails_spec s = is_failed s.disposition

count-when :
    (b : Bool) (s : FindingSpec) → s.disposition ≡ requires_review → count fails_spec (when b s) ≡ 0
count-when true s h = rw h refl
count-when false s h = refl

fails-before : (rec : DeltaRecord) → count fails_spec (specs_before rec) ≡ 0
unfolding specs_before
fails-before rec = simp (count-append, count-when) refl

fails-after : (rec : DeltaRecord) → count fails_spec (specs_after rec) ≡ 0
unfolding specs_after
fails-after rec = simp (count-append, count-when) refl

fails-outside :
    (rec : DeltaRecord) (outside : List FindingSpec)
    → fs_002_specs rec ≡ ok outside
    → count fails_spec outside ≡ 0
unfolding fs_002_specs
fails-outside rec outside h =
    elim (Bool-cases (head_positive rec && is_filesystem_fact rec.fact_kind)) [
      | inl hit ↦
          let (o, found, eq) = >>=-eq-ok (outside_root_severity rec.head_facts) _ (rw hit at h) in
          subst (λ xs. count fails_spec xs ≡ 0) (ok_inj (outside_specs rec o) outside eq)
            (of_severity o)
      | inr miss ↦ subst (λ xs. count fails_spec xs ≡ 0) (ok_inj [] outside (rw miss at h)) refl
    ]
  where
    of_severity : (o : Option Severity) → count fails_spec (outside_specs rec o) ≡ 0
    of_severity none = refl
    of_severity (some x) = refl

-- A record alone only ever asks for review: failing is left to the delta as a whole.
pub specs_for_record-never_fails :
    (rec : DeltaRecord) (specs : List FindingSpec)
    → specs_for_record rec ≡ ok specs
    → count fails_spec specs ≡ 0
unfolding specs_for_record
specs_for_record-never_fails rec specs h = elim (Bool-cases (coverage_lost rec)) [
  | inl lost ↦
      subst (λ xs. count fails_spec xs ≡ 0)
        (ok_inj (spec rec obs_001 (lost_severity rec) ∷ []) specs (rw lost at h)) refl
  | inr kept ↦
      let (outside, eo, eq) = >>=-eq-ok (fs_002_specs rec) _ (rw kept at h) in
      subst (λ xs. count fails_spec xs ≡ 0)
        (ok_inj (specs_before rec ++ (outside ++ specs_after rec)) specs eq)
        (simp (count-append, fails-before, fails-after, fails-outside rec outside eo) refl)
]
