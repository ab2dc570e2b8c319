-- ===== src/Store/Reconcile/Generations.antt =====
-- The generations of a pull request's state.
use glassroot.Common.{
  ℕ, suc, ◌≤◌, ◌≡◌, refl, ap, subst, String, Bool, true, false, not, ◌||◌, ◌&&◌, none, some, List,
  [], ◌∷◌, find, str_eq, eq_iff, Result, ok, >>=-eq-ok, reject_if, ◌==◌, arith, Bool-cases, inl,
  inr,
}
use glassroot.Common.Int.{max_int64}
use glassroot.App.Target.{AnalysisTarget, target_id}
use glassroot.Store.Leases.{
  Code, transaction_failed, generation_overflow, PrKey, Environment, state_read, state_upsert,
}
use glassroot.Store.Leases.Exclusion.{same_key_refl}
use glassroot.Store.Work.{
  PrEligibility, eligible, ProcessingDecision, scheduled_new_target, no_change_current_target,
  PullRequestSnapshot, CurrentPrState, Work, Hashes, ReconcileResult, eligibility_for, read_current,
  state_of, supersede_current, insert_work, no_state,
}
use glassroot.Store.Reconcile.{
  schedule, withdraw, upsert, put_state, new_state, decide_eligible, decide_snapshot, is_eligible,
  same_eligibility, checked_target, target_of, result, decision_for,
}

abbrev pub is_scheduled : ProcessingDecision → Bool
is_scheduled scheduled_new_target = true
is_scheduled _ = false

find-put :
    (key : PrKey) (s : CurrentPrState) (states : List CurrentPrState)
    → state_of key s ≡ true
    → find (state_of key) (put_state key s states) ≡ some s
unfolding put_state
find-put key s [] h = rw h refl
find-put key s (r ∷ rs) h = elim (Bool-cases (state_of key r)) [
  | inl hit ↦ rw hit (rw h refl)
  | inr miss ↦ rw miss (rw miss (find-put key s rs h))
]

read-put :
    (key : PrKey) (s : CurrentPrState) (states : List CurrentPrState)
    → state_of key s ≡ true
    → read_current key (put_state key s states) ≡ s
unfolding read_current
read-put key s states h =
    ap (λ o. elim o [ none ↦ no_state key | some r ↦ r ]) (find-put key s states h)

-- What a decision does to the state with the generation `before`.
abbrev pub Advanced : PrKey → ℕ → Work × ReconcileResult → Type 0
Advanced key before r =
    ((read_current key r.0.states).generation ≡ r.1.generation)
    × ((read_current key r.0.states).current_target_id ≡ r.1.target_id)
    × (before ≤ r.1.generation)
    × (r.1.generation ≤ suc before)
    × (is_scheduled r.1.decision ≡ true → r.1.generation ≡ suc before)

-- The same of the result alone.
abbrev Bounded : ℕ → ReconcileResult → Type 0
Bounded before r =
    (before ≤ r.generation)
    × (r.generation ≤ suc before)
    × (is_scheduled r.decision ≡ true → r.generation ≡ suc before)

ok-work :
    (a b : Work) (r q : ReconcileResult)
    → ◌≡◌ {A = Result Code (Work × ReconcileResult)} (ok (a, r)) (ok (b, q))
    → (a ≡ b) × (r ≡ q)
ok-work a b r q h = (cc, cc)

upsert-Advanced :
    (fails : Environment) (key : PrKey) (before : ℕ) (r q : Work × ReconcileResult)
    → Bounded before r.1
    → upsert fails key r ≡ ok q
    → Advanced key before q
unfolding upsert
upsert-Advanced fails key before r q b h =
    let (_, _, h₁) = >>=-eq-ok (reject_if (fails state_upsert) transaction_failed) _ h in
    let (same, kept) = ok-work _ q.0 r.1 q.1 h₁ in
    let found = read-put key (new_state key r.1) r.0.states (same_key_refl key) in
    subst (λ m. Advanced key before (q.0, m)) kept
      (subst (λ (w : Work). Advanced key before (w, r.1)) same
        (
          ap (λ (c : CurrentPrState). c.generation) found,
          ap (λ (c : CurrentPrState). c.current_target_id) found,
          b.0,
          b.1,
          b.2,
        ))

schedule-Bounded :
    (fails : Environment) (hashes : Hashes) (target : String) (t : AnalysisTarget)
    (snap : PullRequestSnapshot) (cur : CurrentPrState) (w : Work) (r : Work × ReconcileResult)
    → schedule fails hashes target t snap cur w ≡ ok r
    → Bounded cur.generation r.1
unfolding schedule
schedule-Bounded fails hashes target t snap cur w r h =
    let (_, _, h₁) = >>=-eq-ok (reject_if (cur.generation == max_int64) generation_overflow) _ h in
    let (superseded, _, h₂) = >>=-eq-ok (supersede_current fails cur w) _ h₁ in
    let next = suc cur.generation in
    let job = hashes.job target next in
    let attempt = hashes.attempt job target next in
    let source = hashes.source target job next in
    let (w', _, h₃) =
      >>=-eq-ok (insert_work fails target job attempt source next t snap superseded) _ h₂ in
    subst (Bounded cur.generation)
      (ok-work w' r.0 (result scheduled_new_target next target job attempt source eligible) r.1
        h₃).1
      (omega arith, omega arith, λ s. refl)

withdraw-Bounded :
    (fails : Environment) (eligibility : PrEligibility) (cur : CurrentPrState) (w : Work)
    (r : Work × ReconcileResult)
    → withdraw fails eligibility cur w ≡ ok r
    → Bounded cur.generation r.1
unfolding withdraw
withdraw-Bounded fails eligibility cur w r h =
    elim (Bool-cases (cur.generation == 0 || not (same_eligibility cur.eligibility eligibility))) [
      | inl changed ↦
          let (_, _, h₁) =
            >>=-eq-ok (reject_if (cur.generation == max_int64) generation_overflow) _
              (rw changed at h) in
          let (w', _, h₂) = >>=-eq-ok (supersede_current fails cur w) _ h₁ in
          subst (Bounded cur.generation)
            (ok-work w' r.0
              (result (decision_for eligibility) (suc cur.generation) "" "" "" "" eligibility) r.1
              h₂).1
            (omega arith, omega arith, λ s. refl)
      | inr kept ↦
          subst (Bounded cur.generation)
            (ok-work w r.0
              (result (decision_for eligibility) cur.generation "" "" "" "" eligibility) r.1
              (rw kept at h)).1
            (omega arith, omega arith, λ s. never eligibility s)
    ]
  where
    never :
        (e : PrEligibility)
        → is_scheduled (decision_for e) ≡ true
        → cur.generation ≡ suc cur.generation
    never e s = ground arith

decide_eligible-Advanced :
    (fails : Environment) (hashes : Hashes) (key : PrKey) (snap : PullRequestSnapshot) (w : Work)
    (q : Work × ReconcileResult)
    → decide_eligible fails hashes key snap (read_current key w.states) w ≡ ok q
    → Advanced key (read_current key w.states).generation q
unfolding decide_eligible
decide_eligible-Advanced fails hashes key snap w q h =
    let cur = read_current key w.states in
    let (target, _, h₁) =
      >>=-eq-ok (checked_target (target_id hashes.target (target_of key snap))) _ h in
    elim (Bool-cases
      (same_eligibility cur.eligibility eligible && str_eq cur.current_target_id target)) [
        | inl same ↦
            let kept =
              result no_change_current_target cur.generation target cur.current_job_id "" ""
                eligible in
            let (rows, answer) = ok-work w q.0 kept q.1 (rw same at h₁) in
            let current : cur.current_target_id ≡ target =
              (eq_iff cur.current_target_id target).0 (ground (arith, same)) in
            subst (λ m. Advanced key cur.generation (q.0, m)) answer
              (subst (λ (v : Work). Advanced key cur.generation (v, kept)) rows
                (refl, current, omega arith, omega arith, λ s. cc s))
        | inr new ↦
            let (r, scheduled, h₂) =
              >>=-eq-ok (schedule fails hashes target (target_of key snap) snap cur w) _
                (rw new at h₁) in
            upsert-Advanced fails key cur.generation r q
              (schedule-Bounded fails hashes target (target_of key snap) snap cur w r scheduled) h₂
      ]

-- A decision that succeeds leaves the pull request's state with the generation and the target that it
-- answers; the generation is that of before or the next one, and the next one if an analysis is
-- scheduled.
pub decide_snapshot-Advanced :
    (fails : Environment) (hashes : Hashes) (key : PrKey) (snap : PullRequestSnapshot) (w : Work)
    (q : Work × ReconcileResult)
    → decide_snapshot fails hashes key snap w ≡ ok q
    → Advanced key (read_current key w.states).generation q
unfolding decide_snapshot
decide_snapshot-Advanced fails hashes key snap w q h =
    let cur = read_current key w.states in
    let (_, _, h₁) = >>=-eq-ok (reject_if (fails state_read) transaction_failed) _ h in
    elim (Bool-cases (is_eligible (eligibility_for snap))) [
      | inl good ↦ decide_eligible-Advanced fails hashes key snap w q (rw good at h₁)
      | inr bad ↦
          let (r, withdrawn, h₂) =
            >>=-eq-ok (withdraw fails (eligibility_for snap) cur w) _ (rw bad at h₁) in
          upsert-Advanced fails key cur.generation r q
            (withdraw-Bounded fails (eligibility_for snap) cur w r withdrawn) h₂
    ]
