-- ===== src/App/Generation.antt =====
-- The generations of a pull request's analysis (internal/githubapp/controller.go). With an error the
-- source returns the state it was given, so an error is all that is modelled of it.
pub mod Steps
use glassroot.Common.{
  ℕ, zero, suc, String, Bool, true, false, not, ◌||◌, ◌&&◌, str_eq, Result, ok, err, ◌>>=◌, ◌>>◌,
  reject_if, if◌then◌else◌,
}
use glassroot.Common.Int.{ℤ, pos, negsuc, nonpositive, eq_ℤ, increment64, less_ℤ}
use glassroot.App.Target.{
  Code, invalid_target, invalid_installation_id, invalid_repository_id, invalid_pull_request_number,
  unsupported_action, foreign_check_run, AnalysisTarget, target_id,
}

pub data PrDecisionAction : Type 0 where
  schedule cancel noop unavailable : PrDecisionAction

pub record PrGenerationState : Type 0 where
  pub installation_id : ℤ
  pub repository_id : ℤ
  pub pull_request_number : ℤ
  pub generation : ℤ
  pub current_target_id : String
  pub cancelled : Bool

pub record PullRequestProjection : Type 0 where
  pub action : String
  pub installation_id : ℤ
  pub repository_id : ℤ
  pub pull_request_number : ℤ

pub record CurrentPullRequestState : Type 0 where
  pub installation_id : ℤ
  pub repository_id : ℤ
  pub pull_request_number : ℤ
  pub base_repository_id : ℤ
  pub head_repository_id : ℤ
  pub base_sha : String
  pub head_sha : String
  pub draft : Bool
  pub closed : Bool
  pub head_inaccessible : Bool

-- The decision's reason, a text for readers, is left out.
pub record PrDecision : Type 0 where
  pub action : PrDecisionAction
  pub generation : ℤ
  pub target_id : String
  pub superseded_target_id : String

-- The four tests of the identities.
unfoldable pub check_identity :
    PrGenerationState → PullRequestProjection → CurrentPullRequestState → Result Code (Unit {0})
check_identity existing projection current = do
  reject_if
      (nonpositive projection.installation_id
        || not (eq_ℤ current.installation_id projection.installation_id))
      invalid_installation_id
  reject_if
      (nonpositive projection.repository_id
        || not (eq_ℤ current.repository_id projection.repository_id))
      invalid_repository_id
  reject_if
      (nonpositive projection.pull_request_number
        || not (eq_ℤ current.pull_request_number projection.pull_request_number))
      invalid_pull_request_number
  reject_if
      (not (nonpositive existing.generation)
        && (not (eq_ℤ existing.installation_id projection.installation_id)
            || not (eq_ℤ existing.repository_id projection.repository_id)
            || not (eq_ℤ existing.pull_request_number projection.pull_request_number)))
      invalid_target

abbrev pub keyed : PrGenerationState → PullRequestProjection → PrGenerationState
keyed existing projection = record existing {
  installation_id = projection.installation_id;
  repository_id = projection.repository_id;
  pull_request_number = projection.pull_request_number;
}

abbrev pub target_of : CurrentPullRequestState → String → AnalysisTarget
target_of current profile = record {
  installation_id = current.installation_id;
  base_repository_id = current.base_repository_id;
  head_repository_id = current.head_repository_id;
  pull_request_number = current.pull_request_number;
  base_commit_id = current.base_sha;
  head_commit_id = current.head_sha;
  analysis_profile_version = profile;
}

abbrev pub is_closed : PullRequestProjection → CurrentPullRequestState → Bool
is_closed projection current =
    current.closed
    || current.draft
    || str_eq projection.action "closed"
    || str_eq projection.action "converted_to_draft"

abbrev cancelled_now : PrGenerationState → PrDecision × PrGenerationState
cancelled_now state = (
  record {
    action = cancel;
    generation = state.generation;
    target_id = state.current_target_id;
    superseded_target_id = "";
  },
  record state { cancelled = true },
)

abbrev decision : PrDecisionAction → PrGenerationState → String → PrDecision
decision action state target = record {
  action = action;
  generation = state.generation;
  target_id = target;
  superseded_target_id = "";
}

abbrev scheduled : PrGenerationState → String → PrDecision × PrGenerationState
scheduled state target = (
  record {
    action = schedule;
    generation = increment64 state.generation;
    target_id = target;
    superseded_target_id = state.current_target_id;
  },
  record state {
    generation = increment64 state.generation;
    current_target_id = target;
    cancelled = false;
  },
)

-- The open pull request's part: the current target is kept or a new generation is scheduled.
unfoldable pub select_target : PrGenerationState → String → PrDecision × PrGenerationState
select_target state target =
    if str_eq state.current_target_id target && not state.cancelled
    then (decision noop state target, state)
    else scheduled state target

-- What follows the tests of the identities.
unfoldable pub decide_target :
    (AnalysisTarget → String)
    → PrGenerationState
    → PullRequestProjection
    → CurrentPullRequestState
    → String
    → Result Code (PrDecision × PrGenerationState)
decide_target hash state projection current profile =
    if is_closed projection current
    then ok (cancelled_now state)
    else if current.head_inaccessible
    then ok (decision unavailable state "", state)
    else do target ← target_id hash (target_of current profile); ok (select_target state target)

unfoldable pub reconcile_pull_request_generation :
    (AnalysisTarget → String)
    → PrGenerationState
    → PullRequestProjection
    → CurrentPullRequestState
    → String
    → Result Code (PrDecision × PrGenerationState)
reconcile_pull_request_generation hash existing projection current profile = do
  check_identity existing projection current
  decide_target hash (keyed existing projection) projection current profile
