-- ===== src/Store/Work.antt =====
-- What a snapshot of a pull request changes: its state, and the jobs, attempts and source requests
-- (internal/githubcontrollerstore/store.go, from `readCurrent` to `insertTargetJobAttemptSource`; the
-- tables of schema.go). The hashes behind the ids are parameters.
use glassroot.Common.{
  ℕ, String, Bool, true, false, not, ◌||◌, ◌&&◌, none, some, List, [], ◌∷◌, ◌++◌, map, any, find,
  codes, byte_length, str_eq, Result, ok, ◌>>◌, reject_if, if◌then◌else◌, ltb, ◌==◌,
}
use glassroot.Common.Int.{ℤ, nonpositive}
use glassroot.App.States.{JobState, AttemptState, job_terminal}
use glassroot.App.Target.{AnalysisTarget, valid_git_object_id}
use glassroot.Store.Leases.{
  Code, record_invalid, transaction_failed, PrKey, same_key, Environment, job_supersede,
  attempt_cancel, source_supersede, target_insert, job_insert, attempt_insert, source_insert,
}

-- `unset` is the empty text of a pull request that has no row.
pub data PrEligibility : Type 0 where
  unset eligible draft closed source_unavailable installation_blocked route_unavailable :
      PrEligibility

pub data ProcessingDecision : Type 0 where
  scheduled_new_target no_change_current_target marked_draft marked_closed source_unavailable :
      ProcessingDecision
  installation_blocked rerequest_created rerequest_ignored installation_hint_recorded :
      ProcessingDecision
  duplicate_processed legacy_projection_unreconcilable : ProcessingDecision

pub record PullRequestEndpoint : Type 0 where
  pub repository_id : ℤ
  pub owner : String
  pub name : String
  pub commit_id : String
  pub available : Bool

-- `is_closed`: the state is closed.
pub record PullRequestSnapshot : Type 0 where
  pub schema_version : String
  pub number : ℤ
  pub is_closed : Bool
  pub draft : Bool
  pub merged : Bool
  pub base : PullRequestEndpoint
  pub head : PullRequestEndpoint

-- A row of pull_request_state, and `CurrentPRState`.
pub record CurrentPrState : Type 0 where
  pub key : PrKey
  pub generation : ℕ
  pub eligibility : PrEligibility
  pub current_target_id : String
  pub current_job_id : String

pub record JobRow : Type 0 where
  pub job_id : String
  pub target_id : String
  pub generation : ℕ
  pub state : JobState

pub record AttemptRow : Type 0 where
  pub attempt_id : String
  pub job_id : String
  pub attempt_number : ℕ
  pub state : AttemptState

pub data SourceRequestState : Type 0 where
  pending leased completed failed superseded cancelled : SourceRequestState

pub record SourceRow : Type 0 where
  pub request_id : String
  pub job_id : String
  pub generation : ℕ
  pub state : SourceRequestState

pub record Work : Type 0 where
  pub targets : List String
  pub states : List CurrentPrState
  pub jobs : List JobRow
  pub attempts : List AttemptRow
  pub sources : List SourceRow

pub record Hashes : Type 0 where
  pub target : AnalysisTarget → String
  pub job : String → ℕ → String
  pub attempt : String → String → ℕ → String
  pub source : String → String → ℕ → String

pub record ReconcileResult : Type 0 where
  pub decision : ProcessingDecision
  pub generation : ℕ
  pub target_id : String
  pub job_id : String
  pub attempt_id : String
  pub source_request_id : String
  pub eligibility : PrEligibility

unfoldable pub eligibility_for : PullRequestSnapshot → PrEligibility
eligibility_for s =
    if s.is_closed || s.merged
    then closed
    else if s.draft
    then draft
    else if not s.head.available || nonpositive s.head.repository_id || str_eq s.head.commit_id ""
    then source_unavailable
    else eligible

abbrev pub no_state : PrKey → CurrentPrState
no_state key = record {
  key = key;
  generation = 0;
  eligibility = unset;
  current_target_id = "";
  current_job_id = "";
}

abbrev pub state_of : PrKey → CurrentPrState → Bool
state_of key r = same_key r.key key

unfoldable pub read_current : PrKey → List CurrentPrState → CurrentPrState
read_current key states = elim (find (state_of key) states) [ none ↦ no_state key | some r ↦ r ]

abbrev pub attempt_ended : AttemptState → Bool
attempt_ended AttemptState.completed = true
attempt_ended AttemptState.failed = true
attempt_ended AttemptState.cancelled = true
attempt_ended _ = false

abbrev pub source_open : SourceRequestState → Bool
source_open pending = true
source_open leased = true
source_open _ = false

unfoldable pub supersede_job : String → JobRow → JobRow
supersede_job job r =
    if str_eq r.job_id job && not (job_terminal r.state)
    then record r { state = JobState.superseded }
    else r

unfoldable pub cancel_attempt : String → AttemptRow → AttemptRow
cancel_attempt job r =
    if str_eq r.job_id job && not (attempt_ended r.state)
    then record r { state = AttemptState.cancelled }
    else r

unfoldable pub supersede_source : String → SourceRow → SourceRow
supersede_source job r =
    if str_eq r.job_id job && source_open r.state then record r { state = superseded } else r

unfoldable pub supersede_current : Environment → CurrentPrState → Work → Result Code Work
unfolding supersede_job cancel_attempt supersede_source
supersede_current fails cur w = if str_eq cur.current_job_id "" then ok w else do
  reject_if (fails job_supersede || fails attempt_cancel || fails source_supersede)
      transaction_failed
  ok (record w {
    jobs = map (supersede_job cur.current_job_id) w.jobs;
    attempts = map (cancel_attempt cur.current_job_id) w.attempts;
    sources = map (supersede_source cur.current_job_id) w.sources;
  })

abbrev route_character : ℕ → Bool
route_character c =
    not (ltb c 0x20 || c == 0x7f || c == b'/' || c == b'?' || c == b'#' || c == b'\\')

unfoldable pub valid_route_hint : String → Bool
valid_route_hint s =
    not (str_eq s "" || ltb 256 (byte_length (codes s)) || str_eq s "." || str_eq s "..")
    && all_routes (codes s)
  where
    all_routes : List ℕ → Bool
    all_routes [] = true
    all_routes (c ∷ cs) = route_character c && all_routes cs

-- `validateSourceImportRequest` on the request that is made here: its profile and its state are right.
unfoldable pub validate_source :
    String → String → String → ℕ → AnalysisTarget → PullRequestSnapshot → Result Code (Unit {0})
validate_source id target job generation t snap = do
  reject_if
      (str_eq id ""
        || str_eq target ""
        || str_eq job ""
        || generation == 0
        || nonpositive t.installation_id
        || nonpositive snap.number)
      record_invalid
  reject_if
      (nonpositive snap.base.repository_id
        || nonpositive snap.head.repository_id
        || not (valid_route_hint snap.base.owner)
        || not (valid_route_hint snap.base.name)
        || not (valid_route_hint snap.head.owner)
        || not (valid_route_hint snap.head.name)
        || not (valid_git_object_id snap.base.commit_id)
        || not (valid_git_object_id snap.head.commit_id))
      record_invalid

-- The inserts fail on a failing database, and where a unique column has the value already.
unfoldable pub insert_work :
    Environment
    → String
    → String
    → String
    → String
    → ℕ
    → AnalysisTarget
    → PullRequestSnapshot
    → Work
    → Result Code Work
unfolding validate_source
insert_work fails target job attempt source generation t snap w = do
  reject_if (fails target_insert) transaction_failed
  reject_if (fails job_insert || any (λ (r : JobRow). str_eq r.job_id job) w.jobs)
      transaction_failed
  reject_if
      (fails attempt_insert
        || any
            (λ (r : AttemptRow).
              str_eq r.attempt_id attempt || str_eq r.job_id job && r.attempt_number == 1)
            w.attempts)
      transaction_failed
  validate_source source target job generation t snap
  reject_if (fails source_insert || any (λ (r : SourceRow). str_eq r.request_id source) w.sources)
      transaction_failed
  ok (record w {
    targets = if any (str_eq target) w.targets then w.targets else w.targets ++ target ∷ [];
    jobs =
        w.jobs
        ++ record {
          job_id = job;
          target_id = target;
          generation = generation;
          state = JobState.importing_source;
        }
          ∷ [];
    attempts =
        w.attempts
        ++ record {
          attempt_id = attempt;
          job_id = job;
          attempt_number = 1;
          state = AttemptState.queued;
        }
          ∷ [];
    sources =
        w.sources
        ++ record { request_id = source; job_id = job; generation = generation; state = pending }
          ∷ [];
  })
