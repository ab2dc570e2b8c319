-- ===== src/Policy/Governance/Counts.antt =====
-- How many governance findings fail and how many ask for review.
use glassroot.Common.{
  ℕ, suc, ◌+◌, ◌≤◌, ◌≡◌, refl, ap, ap₂, ◌∙◌, String, Bool, true, false, List, [], ◌∷◌, ◌++◌, map,
  count, count-append, length, ok, >>=-eq-ok, reject_if, if◌then◌else◌, ltb, arith,
}
use glassroot.Model.{Disposition, is_failed, is_review}
use glassroot.Policy.Evaluate.{FindingId}
use glassroot.Policy.Waivers.{
  BaseState, BaseAssessment, WaiverStatusRecord, FindingOrigin, AppliedFinding, waiver_governance,
  trusted_configuration,
}
use glassroot.Policy.Governance.{
  ConfigState, ConfigChange, ConfigAssessment, WaiverHeadState, WaiverChange, WaiverHeadAssessment,
  GovernanceSpec, governance_finding_limit, ApplicationLimits, governance_findings, add_governance,
  config_governance_specs, waiver_governance_specs, unapplied, governed, make_governance_finding,
  specs_for_state, config_change_spec, base_state_specs, status_specs, head_specs, head_change_spec,
}

pub count-of_map {ℓ κ} :
    {A : Type ℓ} {B : Type κ} (p : B → Bool) (f : A → B) (xs : List A)
    → count p (map f xs) ≡ count (λ x. p (f x)) xs
count-of_map p f [] = refl
count-of_map p f (x ∷ xs) = ground (arith, count-of_map p f xs)

abbrev spec_fails : GovernanceSpec → Bool
spec_fails sp = is_failed sp.disposition

abbrev spec_reviews : GovernanceSpec → Bool
spec_reviews sp = is_review sp.disposition

config_specs-review :
    (config : ConfigAssessment)
    → (count spec_fails (config_governance_specs config) ≡ 0)
      × (count spec_reviews (config_governance_specs config)
          ≡ length (config_governance_specs config))
unfolding config_governance_specs specs_for_state config_change_spec
config_specs-review config = by_state config.state
  where
    mapped :
        (chs : List ConfigChange)
        → (count spec_fails (map (config_change_spec config) chs) ≡ 0)
          × (count spec_reviews (map (config_change_spec config) chs)
              ≡ length (map (config_change_spec config) chs))
    mapped [] = (refl, refl)
    mapped (ch ∷ chs) = ((mapped chs).0, ap suc (mapped chs).1)

    by_state :
        (st : ConfigState)
        → (count spec_fails (specs_for_state st config) ≡ 0)
          × (count spec_reviews (specs_for_state st config) ≡ length (specs_for_state st config))
    by_state ConfigState.modified_valid = mapped config.changes
    by_state ConfigState.unset = (refl, refl)
    by_state ConfigState.unchanged = (refl, refl)
    by_state ConfigState.content_changed_equivalent = (refl, refl)
    by_state _ = (refl, refl)

-- The base's waiver file cannot be used.
abbrev pub bad_base : BaseState → Bool
bad_base BaseState.invalid = true
bad_base BaseState.unsupported_entry_kind = true
bad_base _ = false

status_specs-review :
    (base : BaseAssessment) (statuses : List WaiverStatusRecord)
    → (count spec_fails (status_specs base statuses) ≡ 0)
      × (count spec_reviews (status_specs base statuses)
          ≡ count (λ (s : WaiverStatusRecord). unapplied s.status) statuses)
unfolding status_specs
status_specs-review base [] = (refl, refl)
status_specs-review base (st ∷ sts) = ground (arith, status_specs-review base sts)

head_specs-fails :
    (st : WaiverHeadState) (head : WaiverHeadAssessment) → count spec_fails (head_specs st head) ≡ 0
unfolding head_specs head_change_spec
head_specs-fails WaiverHeadState.modified_valid head = mapped head.changes
  where
    mapped : (chs : List WaiverChange) → count spec_fails (map (head_change_spec head) chs) ≡ 0
    mapped [] = refl
    mapped (ch ∷ chs) = mapped chs
head_specs-fails WaiverHeadState.absent_on_both head = refl
head_specs-fails WaiverHeadState.unchanged head = refl
head_specs-fails WaiverHeadState.content_changed_equivalent head = refl
head_specs-fails WaiverHeadState.unset head = refl
head_specs-fails _ head = refl

base_state_specs-fails :
    (base : BaseAssessment) (st : BaseState)
    → count spec_fails (base_state_specs base st) ≡ (if bad_base st then 1 else 0)
unfolding base_state_specs
base_state_specs-fails base st = ground arith

waiver_specs-fails :
    (base : BaseAssessment) (head : WaiverHeadAssessment) (statuses : List WaiverStatusRecord)
    → (count spec_fails (waiver_governance_specs base head statuses)
        ≡ (if bad_base base.state then 1 else 0))
      × (count (λ (s : WaiverStatusRecord). unapplied s.status) statuses
          ≤ count spec_reviews (waiver_governance_specs base head statuses))
unfolding waiver_governance_specs
waiver_specs-fails base head statuses = (
  simp
      (
        count-append,
        base_state_specs-fails,
        (status_specs-review base statuses).0,
        head_specs-fails,
      )
      (omega arith),
  simp (count-append, (status_specs-review base statuses).1) (omega arith),
)

module _ (limits : ApplicationLimits) (finding_id : FindingId) where
  add_governance-count :
      (q : Disposition → Bool) (rule : String) (origin : FindingOrigin) (n : ℕ)
      (sps : List GovernanceSpec) (fs : List AppliedFinding)
      → add_governance limits finding_id rule origin n sps ≡ ok fs
      → count (λ (a : AppliedFinding). q a.effective_disposition) fs
        ≡ count (λ (sp : GovernanceSpec). q sp.disposition) sps
  unfolding add_governance make_governance_finding
  add_governance-count q rule origin n [] fs h = ground arith
  add_governance-count q rule origin n (sp ∷ sps) fs h =
      let (_, _, h₁) =
        >>=-eq-ok (reject_if (ltb limits.max_governance_findings (n + 1)) governance_finding_limit)
          _ h in
      let (rest, er, h₂) =
        >>=-eq-ok (add_governance limits finding_id rule origin (n + 1) sps) _ h₁ in
      let eq : fs ≡ governed finding_id rule origin sp ∷ rest = cc h₂ in
      rw eq (ground (arith, add_governance-count q rule origin (n + 1) sps rest er))

  governance-count :
      (q : Disposition → Bool) (config : ConfigAssessment) (base : BaseAssessment)
      (head : WaiverHeadAssessment) (statuses : List WaiverStatusRecord) (fs : List AppliedFinding)
      → governance_findings limits finding_id config base head statuses ≡ ok fs
      → count (λ (a : AppliedFinding). q a.effective_disposition) fs
        ≡ count (λ (sp : GovernanceSpec). q sp.disposition) (config_governance_specs config)
          + count
              (λ (sp : GovernanceSpec). q sp.disposition)
              (waiver_governance_specs base head statuses)
  unfolding governance_findings
  governance-count q config base head statuses fs h =
      let cs = config_governance_specs config in
      let ws = waiver_governance_specs base head statuses in
      let (configured, ec, h₁) =
        >>=-eq-ok (add_governance limits finding_id "GR-CONFIG-001" trusted_configuration 0 cs) _
          h in
      let (waivers, ew, h₂) =
        >>=-eq-ok
          (add_governance limits finding_id "GR-WAIVER-001" waiver_governance (length configured)
            ws)
          _ h₁ in
      let eq : fs ≡ configured ++ waivers = cc h₂ in
      rw eq (
        count-append _ configured waivers
        ∙ ap₂ (λ m n. m + n)
            (add_governance-count q "GR-CONFIG-001" trusted_configuration 0 cs configured ec)
            (add_governance-count q "GR-WAIVER-001" waiver_governance (length configured) ws waivers
              ew))

  -- One governance finding fails if the base's waiver file cannot be used and none otherwise; every
  -- change of the configuration and every waiver that was not applied asks for review.
  pub governance_findings-count :
      (config : ConfigAssessment) (base : BaseAssessment) (head : WaiverHeadAssessment)
      (statuses : List WaiverStatusRecord) (fs : List AppliedFinding)
      → governance_findings limits finding_id config base head statuses ≡ ok fs
      → (count (λ (a : AppliedFinding). is_failed a.effective_disposition) fs
          ≡ (if bad_base base.state then 1 else 0))
        × (length (config_governance_specs config)
              + count (λ (s : WaiverStatusRecord). unapplied s.status) statuses
            ≤ count (λ (a : AppliedFinding). is_review a.effective_disposition) fs)
  governance_findings-count config base head statuses fs h = (
    governance-count is_failed config base head statuses fs h
        ∙ omega (arith, (config_specs-review config).0, (waiver_specs-fails base head statuses).0),
    omega (
      arith,
      governance-count is_review config base head statuses fs h,
      (config_specs-review config).1,
      (waiver_specs-fails base head statuses).1,
    ),
  )
