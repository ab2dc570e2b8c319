-- ===== src/Store/Reconcile.antt =====
-- `ApplyPullRequestSnapshot` (internal/githubcontrollerstore/store.go). A job and an attempt made from a
-- valid target cannot be refused (internal/githubapp/job.go), so making them is taking their ids.
pub mod Once
pub mod Generations
pub mod Stopping
mod Tests
use glassroot.Common.{
  ℕ, zero, suc, String, Bool, true, false, not, ◌||◌, ◌&&◌, Option, none, some, List, [], ◌∷◌, ◌++◌,
  map, any, find, str_eq, valid_digest, Result, ok, err, ◌>>=◌, ◌>>◌, reject_if, if◌then◌else◌, ltb,
  ◌==◌, Time, valid_time,
}
use glassroot.Common.Int.{ℤ, eq_ℤ, max_int64}
use glassroot.App.Target.{AnalysisTarget, target_id}
use glassroot.App.Target as Target
use glassroot.Store.Leases.{
  Code, record_invalid, transaction_failed, reconcile_lease_stale, generation_overflow, PrKey,
  LeaseRow, ReconcileLease, Environment, invalid_key, valid_id, release_reconcile_lease, begin_tx,
  commit_tx, processed_read, processed_insert, state_read, state_upsert,
}
use glassroot.Store.Work.{
  PrEligibility, unset, eligible, draft, closed, installation_blocked, route_unavailable,
  ProcessingDecision, scheduled_new_target, no_change_current_target, marked_draft, marked_closed,
  duplicate_processed, PullRequestSnapshot, CurrentPrState, Work, Hashes, ReconcileResult,
  eligibility_for, read_current, state_of, supersede_current, insert_work,
}

pub record ProcessedDelivery : Type 0 where
  pub receiver_id : String
  pub outbox_id : String
  pub delivery_id : String
  pub is_pull_request : Bool
  pub projection_digest : String
  pub processed_at : Time

-- A row of processed_deliveries, with what is read back.
pub record ProcessedRow : Type 0 where
  pub receiver_id : String
  pub outbox_id : String
  pub projection_digest : String
  pub generation : ℕ
  pub target_id : String
  pub job_id : String

pub record Db : Type 0 where
  pub leases : List LeaseRow
  pub processed : List ProcessedRow
  pub work : Work

pub record PullRequestReconcileInput : Type 0 where
  pub processed : ProcessedDelivery
  pub lease : ReconcileLease
  pub snapshot : PullRequestSnapshot
  pub now : Time

-- The refusal of `checkProcessed` for another digest has no other use.
pub data ApplyCode : Type 0 where
  of_store : Code → ApplyCode
  processed_delivery_conflict : ApplyCode

abbrev pub lift : {A : Type 0} → Result Code A → Result ApplyCode A
lift (ok a) = ok a
lift (err e) = err (of_store e)

abbrev schema_snapshot : String
schema_snapshot = "glassroot.dev/github-pull-request-snapshot/v1alpha1"

unfoldable pub validate_input : String → PullRequestReconcileInput → Result Code (Unit {0})
validate_input receiver input = do
  let p = input.processed
  reject_if
      (not (str_eq p.receiver_id receiver)
        || str_eq p.outbox_id ""
        || str_eq p.delivery_id ""
        || not (valid_digest p.projection_digest)
        || not p.is_pull_request
        || not (valid_time p.processed_at))
      record_invalid
  reject_if (invalid_key input.lease.key) record_invalid
  reject_if
      (not (valid_id input.lease.owner)
        || input.lease.generation == 0
        || not (valid_time input.now)
        || ltb input.lease.expires_at.nanos input.now.nanos)
      reconcile_lease_stale
  reject_if
      (not (str_eq input.snapshot.schema_version "")
        && not (str_eq input.snapshot.schema_version schema_snapshot))
      record_invalid
  reject_if
      (not (eq_ℤ input.snapshot.number input.lease.key.pull_request_number)
        || not (eq_ℤ input.snapshot.base.repository_id input.lease.key.base_repository_id))
      record_invalid

abbrev pub is_processed : ProcessedDelivery → ProcessedRow → Bool
is_processed p r = str_eq r.receiver_id p.receiver_id && str_eq r.outbox_id p.outbox_id

abbrev pub duplicate : ProcessedRow → ReconcileResult
duplicate r = record {
  decision = duplicate_processed;
  generation = r.generation;
  target_id = r.target_id;
  job_id = r.job_id;
  attempt_id = "";
  source_request_id = "";
  eligibility = unset;
}

abbrev pub same_eligibility : PrEligibility → PrEligibility → Bool
same_eligibility a b = number a == number b
  where
    number : PrEligibility → ℕ
    number PrEligibility.unset = 0
    number PrEligibility.eligible = 1
    number PrEligibility.draft = 2
    number PrEligibility.closed = 3
    number PrEligibility.source_unavailable = 4
    number PrEligibility.installation_blocked = 5
    number PrEligibility.route_unavailable = 6

abbrev pub target_of : PrKey → PullRequestSnapshot → AnalysisTarget
target_of key snap = record {
  installation_id = key.installation_id;
  base_repository_id = snap.base.repository_id;
  head_repository_id = snap.head.repository_id;
  pull_request_number = snap.number;
  base_commit_id = snap.base.commit_id;
  head_commit_id = snap.head.commit_id;
  analysis_profile_version = "glassroot.dev/github-controller-profile/advisory/v1alpha1";
}

abbrev pub checked_target : Result Target.Code String → Result Code String
checked_target (ok id) = ok id
checked_target (err e) = err record_invalid

abbrev pub result :
    ProcessingDecision → ℕ → String → String → String → String → PrEligibility → ReconcileResult
result decision generation target job attempt source eligibility = record {
  decision = decision;
  generation = generation;
  target_id = target;
  job_id = job;
  attempt_id = attempt;
  source_request_id = source;
  eligibility = eligibility;
}

-- The eligible pull request whose target is not the current one.
unfoldable pub schedule :
    Environment
    → Hashes
    → String
    → AnalysisTarget
    → PullRequestSnapshot
    → CurrentPrState
    → Work
    → Result Code (Work × ReconcileResult)
schedule fails hashes target t snap cur w = do
  reject_if (cur.generation == max_int64) generation_overflow
  let next = suc cur.generation
  superseded ← supersede_current fails cur w
  let job = hashes.job target next
  let attempt = hashes.attempt job target next
  let source = hashes.source target job next
  w' ← insert_work fails target job attempt source next t snap superseded
  ok (w', result scheduled_new_target next target job attempt source eligible)

abbrev pub decision_for : PrEligibility → ProcessingDecision
decision_for draft = marked_draft
decision_for closed = marked_closed
decision_for _ = ProcessingDecision.source_unavailable

-- The pull request that is not eligible.
unfoldable pub withdraw :
    Environment → PrEligibility → CurrentPrState → Work → Result Code (Work × ReconcileResult)
withdraw fails eligibility cur w =
    if cur.generation == 0 || not (same_eligibility cur.eligibility eligibility)
    then (do
      reject_if (cur.generation == max_int64) generation_overflow
      w' ← supersede_current fails cur w
      ok (w', result (decision_for eligibility) (suc cur.generation) "" "" "" "" eligibility))
    else ok (w, result (decision_for eligibility) cur.generation "" "" "" "" eligibility)

abbrev pub new_state : PrKey → ReconcileResult → CurrentPrState
new_state key r = record {
  key = key;
  generation = r.generation;
  eligibility = r.eligibility;
  current_target_id = r.target_id;
  current_job_id = r.job_id;
}

unfoldable pub put_state : PrKey → CurrentPrState → List CurrentPrState → List CurrentPrState
put_state key s [] = s ∷ []
put_state key s (r ∷ rs) =
    let rest = put_state key s rs in if state_of key r then s ∷ rs else r ∷ rest

-- The upsert of the state.
unfoldable pub upsert :
    Environment → PrKey → Work × ReconcileResult → Result Code (Work × ReconcileResult)
unfolding put_state
upsert fails key r = do
  reject_if (fails state_upsert) transaction_failed
  ok (record (r.0) { states = put_state key (new_state key r.1) r.0.states }, r.1)

unfoldable pub decide_eligible :
    Environment
    → Hashes
    → PrKey
    → PullRequestSnapshot
    → CurrentPrState
    → Work
    → Result Code (Work × ReconcileResult)
decide_eligible fails hashes key snap cur w = do
  let t = target_of key snap
  target ← checked_target (target_id hashes.target t)
  if same_eligibility cur.eligibility eligible && str_eq cur.current_target_id target
      then ok (
        w,
        result no_change_current_target cur.generation target cur.current_job_id "" "" eligible,
      )
      else do r ← schedule fails hashes target t snap cur w; upsert fails key r

abbrev pub is_eligible : PrEligibility → Bool
is_eligible eligible = true
is_eligible _ = false

unfoldable pub decide_snapshot :
    Environment → Hashes → PrKey → PullRequestSnapshot → Work → Result Code (Work × ReconcileResult)
decide_snapshot fails hashes key snap w = do
  reject_if (fails state_read) transaction_failed
  let cur = read_current key w.states
  if is_eligible (eligibility_for snap)
      then decide_eligible fails hashes key snap cur w
      else do r ← withdraw fails (eligibility_for snap) cur w; upsert fails key r

abbrev pub processed_row : ProcessedDelivery → ReconcileResult → ProcessedRow
processed_row p r = record {
  receiver_id = p.receiver_id;
  outbox_id = p.outbox_id;
  projection_digest = p.projection_digest;
  generation = r.generation;
  target_id = r.target_id;
  job_id = r.job_id;
}

-- A delivery that was not processed yet.
unfoldable pub apply_new :
    Environment → Hashes → PullRequestReconcileInput → Db → Result ApplyCode (Db × ReconcileResult)
apply_new fails hashes input db = do
  r ← lift (decide_snapshot fails hashes input.lease.key input.snapshot db.work)
  reject_if (fails processed_insert) (of_store transaction_failed)
  leases ← lift (release_reconcile_lease fails input.lease db.leases)
  reject_if (fails commit_tx) (of_store transaction_failed)
  ok (
    record {
      leases = leases;
      processed = db.processed ++ processed_row input.processed r.1 ∷ [];
      work = r.0;
    },
    r.1,
  )

unfoldable pub apply_found :
    Environment
    → Hashes
    → PullRequestReconcileInput
    → Db
    → Option ProcessedRow
    → Result ApplyCode (Db × ReconcileResult)
apply_found fails hashes input db none = apply_new fails hashes input db
apply_found fails hashes input db (some row) = do
  reject_if (not (str_eq row.projection_digest input.processed.projection_digest))
      processed_delivery_conflict
  leases ← lift (release_reconcile_lease fails input.lease db.leases)
  reject_if (fails commit_tx) (of_store transaction_failed)
  ok (record db { leases = leases }, duplicate row)

-- On an error nothing is written: the transaction is rolled back.
unfoldable pub apply_pull_request_snapshot :
    Environment
    → Hashes
    → String
    → PullRequestReconcileInput
    → Db
    → Result ApplyCode (Db × ReconcileResult)
apply_pull_request_snapshot fails hashes receiver input db = do
  lift (validate_input receiver input)
  reject_if (fails begin_tx) (of_store transaction_failed)
  reject_if (fails processed_read) (of_store transaction_failed)
  apply_found fails hashes input db (find (is_processed input.processed) db.processed)
