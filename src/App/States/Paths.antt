-- ===== src/App/States/Paths.antt =====
-- What the state machines let happen over time.
use glassroot.Common.{
  ℕ, suc, ◌+◌, ◌≤◌, ◌≡◌, refl, sym, ap, ◌∙◌, Bool, true, false, not, none, arith,
}
use glassroot.App.States.{
  JobState, AttemptState, CheckPublicationState, job_terminal, transition_job, transition_attempt,
  transition_publication, same_job, job_number, same_attempt, same_publication,
}

abbrev pub one_if : Bool → ℕ
one_if true = 1
one_if false = 0

-- A job that was queued and has changed its state `n` times.
pub data JobPath : JobState → ℕ → Type 0 where
  start : JobPath JobState.queued 0
  move :
      {s : JobState} {n : ℕ} (t : JobState)
      → JobPath s n
      → same_job s t ≡ false
      → transition_job s t ≡ (t, none)
      → JobPath t (suc n)

abbrev pub abandoned : JobState → Bool
abandoned JobState.failed = true
abandoned JobState.superseded = true
abandoned JobState.cancelled = true
abandoned _ = false

job_move :
    (s t : JobState)
    → same_job s t ≡ false
    → transition_job s t ≡ (t, none)
    → (job_terminal s ≡ false) × (abandoned t ≡ false → job_number t ≡ suc (job_number s))
unfolding transition_job
job_move s t h e = ground arith

job_number_live :
    (s : JobState) → job_terminal s ≡ false → (job_number s ≤ 6) × (abandoned s ≡ false)
job_number_live s h = ground arith

-- A job changes its state at most seven times, and one that was not abandoned has been through every
-- stage before its own: a completed one through all seven.
pub JobPath-stages :
    (s : JobState) (n : ℕ) → JobPath s n → (n ≤ 7) × (abandoned s ≡ false → n ≡ job_number s)
JobPath-stages _ _ start = (omega arith, λ h. refl)
JobPath-stages _ _ (move {s} {n} t path h e) =
    let (few, stages) = JobPath-stages s n path in
    let (live, on) = job_move s t h e in
    let (low, kept) = job_number_live s live in
    let here : n ≡ job_number s = stages kept in
    (omega (arith, here, low), λ good. ap suc here ∙ sym (on good))

-- An attempt that was queued, with how often it was leased and how often a lease of it expired.
pub data AttemptPath : AttemptState → ℕ → ℕ → Type 0 where
  start : AttemptPath AttemptState.queued 0 0
  move :
      {s : AttemptState} {leases expiries : ℕ} (t : AttemptState)
      → AttemptPath s leases expiries
      → same_attempt s t ≡ false
      → transition_attempt s t ≡ (t, none)
      → AttemptPath t
          (leases + one_if (same_attempt t AttemptState.leased))
          (expiries + one_if (same_attempt t AttemptState.lease_expired))

-- A lease is running, or was when the attempt completed.
abbrev pub holds_lease : AttemptState → Bool
holds_lease AttemptState.leased = true
holds_lease AttemptState.running = true
holds_lease AttemptState.completed = true
holds_lease _ = false

-- No lease is running.
abbrev pub waits : AttemptState → Bool
waits AttemptState.queued = true
waits AttemptState.lease_expired = true
waits _ = false

attempt_move :
    (s t : AttemptState) (leases expiries : ℕ)
    → same_attempt s t ≡ false
    → transition_attempt s t ≡ (t, none)
    → (holds_lease s ≡ true → leases ≡ suc expiries)
    → (waits s ≡ true → leases ≡ expiries)
    → let l = leases + one_if (same_attempt t AttemptState.leased) in
      let e = expiries + one_if (same_attempt t AttemptState.lease_expired) in
      (holds_lease t ≡ true → l ≡ suc e) × (waits t ≡ true → l ≡ e)
unfolding transition_attempt
attempt_move s t leases expiries h e holds idle = ground arith

-- While an attempt is leased, running or completed, it was leased exactly once more than its leases
-- expired; while it waits, as often: a second lease is only given after the first has expired.
pub AttemptPath-one_lease :
    (s : AttemptState) (leases expiries : ℕ)
    → AttemptPath s leases expiries
    → (holds_lease s ≡ true → leases ≡ suc expiries) × (waits s ≡ true → leases ≡ expiries)
AttemptPath-one_lease _ _ _ start = (λ h. cc h, λ h. refl)
AttemptPath-one_lease _ _ _ (move {s} {leases} {expiries} t path h e) =
    let before = AttemptPath-one_lease s leases expiries path in
    attempt_move s t leases expiries h e before.0 before.1

-- A check publication, with how often it was about to be created.
pub data PublicationPath : CheckPublicationState → ℕ → Type 0 where
  start : PublicationPath CheckPublicationState.absent 0
  move :
      {s : CheckPublicationState} {creates : ℕ} (t : CheckPublicationState)
      → PublicationPath s creates
      → same_publication s t ≡ false
      → transition_publication s t ≡ (t, none)
      → PublicationPath t
          (creates + one_if (same_publication t CheckPublicationState.create_pending))

publication_move :
    (s t : CheckPublicationState) (creates : ℕ)
    → same_publication s t ≡ false
    → transition_publication s t ≡ (t, none)
    → creates ≤ one_if (not (same_publication s CheckPublicationState.absent))
    → creates + one_if (same_publication t CheckPublicationState.create_pending)
      ≤ one_if (not (same_publication t CheckPublicationState.absent))
unfolding transition_publication
publication_move s t creates h e before = ground arith

-- A check is created at most once, even if its publication was ambiguous and is queued again.
pub PublicationPath-created_once :
    (s : CheckPublicationState) (creates : ℕ) → PublicationPath s creates → creates ≤ 1
PublicationPath-created_once s creates path =
    omega (
      arith,
      bound s creates path,
      one_if_le (not (same_publication s CheckPublicationState.absent)),
    )
  where
    bound :
        (s : CheckPublicationState) (creates : ℕ)
        → PublicationPath s creates
        → creates ≤ one_if (not (same_publication s CheckPublicationState.absent))
    bound _ _ start = omega arith
    bound _ _ (move {s} {creates} t path h e) =
        publication_move s t creates h e (bound s creates path)

    one_if_le : (b : Bool) → one_if b ≤ 1
    one_if_le b = ground arith
