-- ===== src/App/Generation/Steps.antt =====
-- What reconciling does to the generation.
use glassroot.Common.{
  ◌≡◌, refl, sym, ap, subst, inl, inr, String, Bool, true, false, not, ◌||◌, ◌&&◌, str_eq, eq_iff,
  Result, ok, >>=-eq-ok, if◌then◌else◌, arith, Bool-cases,
}
use glassroot.Common.Int.{
  pos, eq_ℤ_refl, increment64, less_ℤ, max_int64, less_ℤ-increment64, less_ℤ_irrefl,
}
use glassroot.App.Target.{Code, AnalysisTarget, target_id}
use glassroot.App.Generation.{
  PrDecisionAction, schedule, PrGenerationState, PullRequestProjection, CurrentPullRequestState,
  PrDecision, check_identity, keyed, target_of, is_closed, select_target, decide_target,
  reconcile_pull_request_generation, noop,
}

abbrev pub is_schedule : PrDecisionAction → Bool
is_schedule schedule = true
is_schedule _ = false

abbrev pub is_noop : PrDecisionAction → Bool
is_noop noop = true
is_noop _ = false

-- The statement about what is returned.
abbrev pub Counted : PrGenerationState → PrDecision × PrGenerationState → Type 0
Counted existing r =
    (r.1.generation
      ≡ (if is_schedule r.0.action then increment64 existing.generation else existing.generation))
    × (r.0.generation ≡ r.1.generation)
    × (is_schedule r.0.action ≡ true
        → (r.0.target_id ≡ r.1.current_target_id)
          × (r.0.superseded_target_id ≡ existing.current_target_id)
          × (r.1.cancelled ≡ false)
          × ((existing.cancelled || not (str_eq existing.current_target_id r.1.current_target_id))
              ≡ true))
    × (is_noop r.0.action ≡ true
        → (str_eq existing.current_target_id r.0.target_id ≡ true) × (existing.cancelled ≡ false))

select_target-Counted :
    (existing : PrGenerationState) (projection : PullRequestProjection) (target : String)
    → Counted existing (select_target (keyed existing projection) target)
unfolding select_target
select_target-Counted existing projection target = ground arith

-- A successful reconciliation raises the generation by one if it schedules an analysis, and then the new
-- target is current, the one before is superseded, and either it was another one or the pull request
-- was cancelled; otherwise the generation stays as it is. The decision names the state's generation.
-- Nothing is done only if the target is current already and was not cancelled.
pub reconcile-Counted :
    (hash : AnalysisTarget → String) (existing : PrGenerationState)
    (projection : PullRequestProjection) (current : CurrentPullRequestState) (profile : String)
    (r : PrDecision × PrGenerationState)
    → reconcile_pull_request_generation hash existing projection current profile ≡ ok r
    → Counted existing r
unfolding reconcile_pull_request_generation decide_target
reconcile-Counted hash existing projection current profile r h =
    let (_, _, h₁) = >>=-eq-ok (check_identity existing projection current) _ h in
    elim (Bool-cases (is_closed projection current)) [
      | inl closed ↦ same _ r (rw closed at h₁) (refl, refl, (λ bad. cc bad), (λ bad. cc bad))
      | inr opened ↦ elim (Bool-cases current.head_inaccessible) [
        | inl gone ↦
            same _ r (rw (opened, gone) at h₁) (refl, refl, (λ bad. cc bad), (λ bad. cc bad))
        | inr there ↦
            let (target, et, h₂) =
              >>=-eq-ok (target_id hash (target_of current profile)) _ (rw (opened, there) at h₁) in
            same _ r h₂ (select_target-Counted existing projection target)
      ]
    ]
  where
    same :
        (x y : PrDecision × PrGenerationState)
        → ◌≡◌ {A = Result Code (PrDecision × PrGenerationState)} (ok x) (ok y)
        → Counted existing x
        → Counted existing y
    same x y e c = subst (Counted existing) (ok_inj e) c
      where
        ok_inj : ◌≡◌ {A = Result Code (PrDecision × PrGenerationState)} (ok x) (ok y) → x ≡ y
        ok_inj e = cc

check_identity-keyed :
    (existing state : PrGenerationState) (projection : PullRequestProjection)
    (current : CurrentPullRequestState)
    → check_identity existing projection current ≡ ok tt
    → check_identity (keyed state projection) projection current ≡ ok tt
unfolding check_identity
check_identity-keyed existing state projection current h = ground (
  arith,
  eq_ℤ_refl projection.installation_id,
  eq_ℤ_refl projection.repository_id,
  eq_ℤ_refl projection.pull_request_number,
)

select_target-keyed :
    (state : PrGenerationState) (projection : PullRequestProjection) (target : String)
    → keyed (select_target (keyed state projection) target).1 projection
      ≡ (select_target (keyed state projection) target).1
unfolding select_target
select_target-keyed state projection target =
    elim (Bool-cases (str_eq state.current_target_id target && not state.cancelled)) [
      | inl kept ↦ rw kept refl
      | inr new ↦ rw new refl
    ]

decide-keyed :
    (hash : AnalysisTarget → String) (state : PrGenerationState)
    (projection : PullRequestProjection) (current : CurrentPullRequestState) (profile : String)
    (r : PrDecision × PrGenerationState)
    → decide_target hash (keyed state projection) projection current profile ≡ ok r
    → keyed r.1 projection ≡ r.1
unfolding decide_target
decide-keyed hash state projection current profile r h =
    elim (Bool-cases (is_closed projection current)) [
      | inl closed ↦ subst Keyed (ok_inj (rw closed at h)) refl
      | inr opened ↦ elim (Bool-cases current.head_inaccessible) [
        | inl gone ↦ subst Keyed (ok_inj (rw (opened, gone) at h)) refl
        | inr there ↦
            let (target, et, h₂) =
              >>=-eq-ok (target_id hash (target_of current profile)) _ (rw (opened, there) at h) in
            subst Keyed (ok_inj h₂) (select_target-keyed state projection target)
      ]
    ]
  where
    Keyed : PrDecision × PrGenerationState → Type 0
    Keyed q = keyed q.1 projection ≡ q.1

    ok_inj :
        {x : PrDecision × PrGenerationState}
        → ◌≡◌ {A = Result Code (PrDecision × PrGenerationState)} (ok x) (ok r)
        → x ≡ r
    ok_inj e = cc

-- What a second call with the same inputs returns: no analysis is scheduled and the state is kept.
abbrev pub Again :
    (AnalysisTarget → String)
    → PullRequestProjection
    → CurrentPullRequestState
    → String
    → PrDecision × PrGenerationState
    → Type 0
Again hash projection current profile r =
    (d : PrDecision) × (reconcile_pull_request_generation hash r.1 projection current profile
      ≡ ok (d, r.1))
    × (is_schedule d.action ≡ false)

select_again :
    (state : PrGenerationState) (target : String)
    → (d : PrDecision) × (select_target (select_target state target).1 target
        ≡ (d, (select_target state target).1))
      × (is_schedule d.action ≡ false)
unfolding select_target
select_again state target =
    elim (Bool-cases (str_eq state.current_target_id target && not state.cancelled)) [
      | inl kept ↦ rw kept (rw kept (_, refl, refl))
      | inr new ↦ rw new (rw ((eq_iff target target).1 refl) (_, refl, refl))
    ]

-- The part behind the tests, again from the state that it gave.
decide_again :
    (hash : AnalysisTarget → String) (state : PrGenerationState)
    (projection : PullRequestProjection) (current : CurrentPullRequestState) (profile : String)
    (r : PrDecision × PrGenerationState)
    → decide_target hash state projection current profile ≡ ok r
    → (d : PrDecision) × (decide_target hash r.1 projection current profile ≡ ok (d, r.1))
      × (is_schedule d.action ≡ false)
unfolding decide_target
decide_again hash state projection current profile r h =
    elim (Bool-cases (is_closed projection current)) [
      | inl closed ↦ subst Repeats (ok_inj (rw closed at h)) (rw closed (_, refl, refl))
      | inr opened ↦ elim (Bool-cases current.head_inaccessible) [
        | inl gone ↦
            subst Repeats (ok_inj (rw (opened, gone) at h)) (rw (opened, gone) (_, refl, refl))
        | inr there ↦
            let (target, et, h₂) =
              >>=-eq-ok (target_id hash (target_of current profile)) _ (rw (opened, there) at h) in
            let (d, same, idle) = select_again state target in
            subst Repeats (ok_inj h₂) (rw (opened, there, et) (d, ap ok same, idle))
      ]
    ]
  where
    Repeats : PrDecision × PrGenerationState → Type 0
    Repeats q =
        (d : PrDecision) × (decide_target hash q.1 projection current profile ≡ ok (d, q.1))
        × (is_schedule d.action ≡ false)

    ok_inj :
        {x : PrDecision × PrGenerationState}
        → ◌≡◌ {A = Result Code (PrDecision × PrGenerationState)} (ok x) (ok r)
        → x ≡ r
    ok_inj e = cc

-- Reconciling again with the same inputs changes nothing and schedules nothing.
pub reconcile-Again :
    (hash : AnalysisTarget → String) (existing : PrGenerationState)
    (projection : PullRequestProjection) (current : CurrentPullRequestState) (profile : String)
    (r : PrDecision × PrGenerationState)
    → reconcile_pull_request_generation hash existing projection current profile ≡ ok r
    → Again hash projection current profile r
unfolding reconcile_pull_request_generation
reconcile-Again hash existing projection current profile r h =
    let (_, checked, h₁) = >>=-eq-ok (check_identity existing projection current) _ h in
    let (d, same, idle) =
      decide_again hash (keyed existing projection) projection current profile r h₁ in
    let stays = decide-keyed hash existing projection current profile r h₁ in
    let passes : check_identity r.1 projection current ≡ ok tt =
      subst (λ s. check_identity s projection current ≡ ok tt) stays
        (check_identity-keyed existing r.1 projection current checked) in
    (
      d,
      rw passes (
          subst (λ s. decide_target hash s projection current profile ≡ ok (d, r.1)) (sym stays)
            same),
      idle,
    )

-- A generation below the greatest int64 grows if an analysis is scheduled, and is kept if not.
pub reconcile_grows :
    (hash : AnalysisTarget → String) (existing : PrGenerationState)
    (projection : PullRequestProjection) (current : CurrentPullRequestState) (profile : String)
    (r : PrDecision × PrGenerationState)
    → less_ℤ existing.generation (pos max_int64) ≡ true
    → reconcile_pull_request_generation hash existing projection current profile ≡ ok r
    → less_ℤ existing.generation r.1.generation ≡ is_schedule r.0.action
reconcile_grows hash existing projection current profile r below h =
    let (counted, _, _, _) = reconcile-Counted hash existing projection current profile r h in
    elim (Bool-cases (is_schedule r.0.action)) [
      | inl new ↦ rw (counted, new) (less_ℤ-increment64 existing.generation below)
      | inr kept ↦ rw (counted, kept) (less_ℤ_irrefl existing.generation)
    ]
