-- ===== src/Store/Reconcile/Stopping.antt =====
-- What a new generation of a pull request does to the work of the one before.
use glassroot.Common.{
  ℕ, suc, ◌≡◌, refl, ap, subst, ◌∙◌, String, Bool, true, false, not, ◌||◌, ◌&&◌, List, [], ◌∷◌, map,
  any, any-append, any-map, str_eq, eq_iff, Result, ok, >>=-eq-ok, reject_if, ◌==◌, ==_iff, arith,
  Bool-cases, inl, inr,
}
use glassroot.Common.Int.{max_int64}
use glassroot.App.States.{job_terminal}
use glassroot.App.Target.{AnalysisTarget, target_id}
use glassroot.Store.Leases.{
  Code, transaction_failed, generation_overflow, PrKey, Environment, state_read, state_upsert,
  job_supersede, attempt_cancel, source_supersede, target_insert, job_insert, attempt_insert,
  source_insert,
}
use glassroot.Store.Work.{
  PrEligibility, eligible, no_change_current_target, scheduled_new_target, PullRequestSnapshot,
  CurrentPrState, JobRow, AttemptRow, SourceRow, Work, Hashes, ReconcileResult, eligibility_for,
  read_current, attempt_ended, source_open, supersede_job, cancel_attempt, supersede_source,
  supersede_current, validate_source, insert_work,
}
use glassroot.Store.Reconcile.{
  schedule, withdraw, upsert, decide_eligible, decide_snapshot, is_eligible, same_eligibility,
  checked_target, target_of, result, decision_for,
}

abbrev pub of_job : String → JobRow → Bool
of_job job r = str_eq r.job_id job

abbrev pub job_runs : String → JobRow → Bool
job_runs job r = str_eq r.job_id job && not (job_terminal r.state)

abbrev pub attempt_runs : String → AttemptRow → Bool
attempt_runs job r = str_eq r.job_id job && not (attempt_ended r.state)

abbrev pub source_waits : String → SourceRow → Bool
source_waits job r = str_eq r.job_id job && source_open r.state

-- Nothing of the job runs or waits to be run.
abbrev pub Stopped : String → Work → Type 0
Stopped job w =
    (any (job_runs job) w.jobs ≡ false)
    × (any (attempt_runs job) w.attempts ≡ false)
    × (any (source_waits job) w.sources ≡ false)

any-map-none :
    {A : Type 0} (test : A → Bool) (f : A → A) (xs : List A)
    → ((x : A) → test (f x) ≡ false)
    → any test (map f xs) ≡ false
any-map-none test f [] h = refl
any-map-none test f (x ∷ xs) h = ground (arith, h x, any-map-none test f xs h)

supersede_job-stopped : (job : String) (r : JobRow) → job_runs job (supersede_job job r) ≡ false
unfolding supersede_job
supersede_job-stopped job r = elim (Bool-cases (job_runs job r)) [
  | inl runs ↦ rw runs (ground arith)
  | inr stopped ↦ rw stopped stopped
]

cancel_attempt-stopped :
    (job : String) (r : AttemptRow) → attempt_runs job (cancel_attempt job r) ≡ false
unfolding cancel_attempt
cancel_attempt-stopped job r = elim (Bool-cases (attempt_runs job r)) [
  | inl runs ↦ rw runs (ground arith)
  | inr stopped ↦ rw stopped stopped
]

supersede_source-stopped :
    (job : String) (r : SourceRow) → source_waits job (supersede_source job r) ≡ false
unfolding supersede_source
supersede_source-stopped job r = elim (Bool-cases (source_waits job r)) [
  | inl runs ↦ rw runs (ground arith)
  | inr stopped ↦ rw stopped stopped
]

supersede_job-keeps :
    (job other : String) (r : JobRow) → of_job other (supersede_job job r) ≡ of_job other r
unfolding supersede_job
supersede_job-keeps job other r = elim (Bool-cases (job_runs job r)) [
  | inl runs ↦ rw runs refl
  | inr stopped ↦ rw stopped refl
]

ok-same : {A : Type 0} (a b : A) → ◌≡◌ {A = Result Code A} (ok a) (ok b) → a ≡ b
ok-same a b h = cc

-- The job's row stays where it is.
supersede_current-Stopped :
    (fails : Environment) (cur : CurrentPrState) (w after : Work)
    → str_eq cur.current_job_id "" ≡ false
    → supersede_current fails cur w ≡ ok after
    → Stopped cur.current_job_id after
      × ((other : String) → any (of_job other) after.jobs ≡ any (of_job other) w.jobs)
unfolding supersede_current
supersede_current-Stopped fails cur w after named h =
    let job = cur.current_job_id in
    let (_, _, h₁) =
      >>=-eq-ok
        (reject_if (fails job_supersede || fails attempt_cancel || fails source_supersede)
          transaction_failed)
        _ (rw named at h) in
    subst
      (λ (v : Work).
        Stopped job v × ((other : String) → any (of_job other) v.jobs ≡ any (of_job other) w.jobs))
      (ok-same _ after h₁)
      (
        (
          any-map-none (job_runs job) (supersede_job job) w.jobs (supersede_job-stopped job),
          any-map-none (attempt_runs job) (cancel_attempt job) w.attempts
              (cancel_attempt-stopped job),
          any-map-none (source_waits job) (supersede_source job) w.sources
              (supersede_source-stopped job),
        ),
        λ other. any-map (of_job other) (supersede_job job) w.jobs (supersede_job-keeps job other),
      )

other_job :
    (job new : String) (rows : List JobRow)
    → any (of_job job) rows ≡ true
    → any (of_job new) rows ≡ false
    → str_eq new job ≡ false
other_job job new rows present absent = elim (Bool-cases (str_eq new job)) [
  | inr differ ↦ differ
  | inl same ↦
      ground
        (arith, present, subst (λ j. any (of_job j) rows ≡ false) ((eq_iff new job).0 same) absent)
]

-- New work under another id starts nothing of the job.
insert_work-Stopped :
    (fails : Environment) (target new attempt source : String) (generation : ℕ) (t : AnalysisTarget)
    (snap : PullRequestSnapshot) (w after : Work) (job : String)
    → insert_work fails target new attempt source generation t snap w ≡ ok after
    → any (of_job job) w.jobs ≡ true
    → Stopped job w
    → Stopped job after
unfolding insert_work
insert_work-Stopped fails target new attempt source generation t snap w after job h present s =
    let (_, _, h₁) = >>=-eq-ok (reject_if (fails target_insert) transaction_failed) _ h in
    let (_, fresh, h₂) =
      >>=-eq-ok
        (reject_if (fails job_insert || any (λ (r : JobRow). str_eq r.job_id new) w.jobs)
          transaction_failed)
        _ h₁ in
    let (_, _, h₃) =
      >>=-eq-ok
        (reject_if
          (fails attempt_insert
            || any
                (λ (r : AttemptRow).
                  str_eq r.attempt_id attempt || str_eq r.job_id new && r.attempt_number == 1)
                w.attempts)
          transaction_failed)
        _ h₂ in
    let (_, _, h₄) = >>=-eq-ok (validate_source source target new generation t snap) _ h₃ in
    let (_, _, h₅) =
      >>=-eq-ok
        (reject_if
          (fails source_insert || any (λ (r : SourceRow). str_eq r.request_id source) w.sources)
          transaction_failed)
        _ h₄ in
    let differ = other_job job new w.jobs present (ground (arith, fresh)) in
    subst (Stopped job) (ok-same _ after h₅) (
      rw any-append (ground (arith, differ, s.0)),
      rw any-append (ground (arith, differ, s.1)),
      rw any-append (ground (arith, differ, s.2)),
    )

-- A step that gives the pull request another generation has stopped the job.
abbrev Stops : CurrentPrState → Work × ReconcileResult → Type 0
Stops cur r = (r.1.generation == cur.generation) ≡ false → Stopped cur.current_job_id r.0

ok-pair :
    (a b : Work) (r q : ReconcileResult)
    → ◌≡◌ {A = Result Code (Work × ReconcileResult)} (ok (a, r)) (ok (b, q))
    → (a ≡ b) × (r ≡ q)
ok-pair a b r q h = (cc, cc)

schedule-Stops :
    (fails : Environment) (hashes : Hashes) (target : String) (t : AnalysisTarget)
    (snap : PullRequestSnapshot) (cur : CurrentPrState) (w : Work) (r : Work × ReconcileResult)
    → str_eq cur.current_job_id "" ≡ false
    → any (of_job cur.current_job_id) w.jobs ≡ true
    → schedule fails hashes target t snap cur w ≡ ok r
    → Stops cur r
unfolding schedule
schedule-Stops fails hashes target t snap cur w r named present h =
    let (_, _, h₁) = >>=-eq-ok (reject_if (cur.generation == max_int64) generation_overflow) _ h in
    let (superseded, e, h₂) = >>=-eq-ok (supersede_current fails cur w) _ h₁ in
    let next = suc cur.generation in
    let job = hashes.job target next in
    let attempt = hashes.attempt job target next in
    let source = hashes.source target job next in
    let (w', inserted, h₃) =
      >>=-eq-ok (insert_work fails target job attempt source next t snap superseded) _ h₂ in
    let (stopped, kept) = supersede_current-Stopped fails cur w superseded named e in
    λ changed.
      subst (Stopped cur.current_job_id)
        (ok-pair w' r.0 (result scheduled_new_target next target job attempt source eligible) r.1
          h₃).0
        (insert_work-Stopped fails target job attempt source next t snap superseded w'
          cur.current_job_id inserted (kept cur.current_job_id ∙ present) stopped)

withdraw-Stops :
    (fails : Environment) (eligibility : PrEligibility) (cur : CurrentPrState) (w : Work)
    (r : Work × ReconcileResult)
    → str_eq cur.current_job_id "" ≡ false
    → withdraw fails eligibility cur w ≡ ok r
    → Stops cur r
unfolding withdraw
withdraw-Stops fails eligibility cur w r named h =
    elim (Bool-cases (cur.generation == 0 || not (same_eligibility cur.eligibility eligibility))) [
      | inl changed ↦
          let (_, _, h₁) =
            >>=-eq-ok (reject_if (cur.generation == max_int64) generation_overflow) _
              (rw changed at h) in
          let (w', e, h₂) = >>=-eq-ok (supersede_current fails cur w) _ h₁ in
          let (stopped, _) = supersede_current-Stopped fails cur w w' named e in
          λ other.
            subst (Stopped cur.current_job_id)
              (ok-pair w' r.0
                (result (decision_for eligibility) (suc cur.generation) "" "" "" "" eligibility) r.1
                h₂).0
              stopped
      | inr kept ↦
          let (_, same) =
            ok-pair w r.0 (result (decision_for eligibility) cur.generation "" "" "" "" eligibility)
              r.1 (rw kept at h) in
          λ other. ground (
            arith,
            other,
            ap (λ (m : ReconcileResult). m.generation) same,
            (==_iff cur.generation cur.generation).1 refl,
          )
    ]

upsert-Stops :
    (fails : Environment) (key : PrKey) (cur : CurrentPrState) (r q : Work × ReconcileResult)
    → Stops cur r
    → upsert fails key r ≡ ok q
    → Stops cur q
unfolding upsert
upsert-Stops fails key cur r q stops h =
    let (_, _, h₁) = >>=-eq-ok (reject_if (fails state_upsert) transaction_failed) _ h in
    let (same, kept) = ok-pair _ q.0 r.1 q.1 h₁ in
    λ changed.
      subst (Stopped cur.current_job_id) same
        (stops (ap (λ (m : ReconcileResult). m.generation == cur.generation) kept ∙ changed))

decide_eligible-Stops :
    (fails : Environment) (hashes : Hashes) (key : PrKey) (snap : PullRequestSnapshot)
    (cur : CurrentPrState) (w : Work) (q : Work × ReconcileResult)
    → str_eq cur.current_job_id "" ≡ false
    → any (of_job cur.current_job_id) w.jobs ≡ true
    → decide_eligible fails hashes key snap cur w ≡ ok q
    → Stops cur q
unfolding decide_eligible
decide_eligible-Stops fails hashes key snap cur w q named present h =
    let (target, _, h₁) =
      >>=-eq-ok (checked_target (target_id hashes.target (target_of key snap))) _ h in
    elim (Bool-cases
      (same_eligibility cur.eligibility eligible && str_eq cur.current_target_id target)) [
        | inl same ↦
            let (_, answer) =
              ok-pair w q.0
                (result no_change_current_target cur.generation target cur.current_job_id "" ""
                  eligible)
                q.1 (rw same at h₁) in
            λ other. ground (
              arith,
              other,
              ap (λ (m : ReconcileResult). m.generation) answer,
              (==_iff cur.generation cur.generation).1 refl,
            )
        | inr new ↦
            let (r, scheduled, h₂) =
              >>=-eq-ok (schedule fails hashes target (target_of key snap) snap cur w) _
                (rw new at h₁) in
            upsert-Stops fails key cur r q
              (schedule-Stops fails hashes target (target_of key snap) snap cur w r named present
                scheduled)
              h₂
      ]

-- If a decision that succeeds gives a pull request that has a current job another generation, then every
-- row of that job is terminal, every attempt of it has ended, and no source request of it is pending or
-- leased. Condition: the job that the state names is a row of the jobs.
pub decide_snapshot-Stopped :
    (fails : Environment) (hashes : Hashes) (key : PrKey) (snap : PullRequestSnapshot) (w : Work)
    (q : Work × ReconcileResult)
    → str_eq (read_current key w.states).current_job_id "" ≡ false
    → any (of_job (read_current key w.states).current_job_id) w.jobs ≡ true
    → decide_snapshot fails hashes key snap w ≡ ok q
    → (q.1.generation == (read_current key w.states).generation) ≡ false
    → Stopped (read_current key w.states).current_job_id q.0
unfolding decide_snapshot
decide_snapshot-Stopped fails hashes key snap w q named present h =
    let cur = read_current key w.states in
    let (_, _, h₁) = >>=-eq-ok (reject_if (fails state_read) transaction_failed) _ h in
    elim (Bool-cases (is_eligible (eligibility_for snap))) [
      | inl good ↦ decide_eligible-Stops fails hashes key snap cur w q named present (rw good at h₁)
      | inr bad ↦
          let (r, withdrawn, h₂) =
            >>=-eq-ok (withdraw fails (eligibility_for snap) cur w) _ (rw bad at h₁) in
          upsert-Stops fails key cur r q
            (withdraw-Stops fails (eligibility_for snap) cur w r named withdrawn) h₂
    ]
