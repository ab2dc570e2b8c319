-- ===== src/App/Tests.antt =====
-- The app's decisions at concrete inputs.
use glassroot.Common.{ℕ, ◌≤◌, ◌≡◌, refl, String, true, false, ok, byte_length, has_control}
use glassroot.Common.Int.{pos, less_ℤ}
use glassroot.App.Target.{AnalysisTarget, target_id, validate, valid_git_object_id}
use glassroot.App.Generation.{
  schedule, PrGenerationState, PullRequestProjection, CurrentPullRequestState, PrDecision,
  check_identity, decide_target, select_target, reconcile_pull_request_generation,
}
use glassroot.App.Generation.Steps.{
  Counted, Again, is_schedule, reconcile-Counted, reconcile-Again, reconcile_grows,
}
use glassroot.App.States.{
  JobState, AttemptState, CheckPublicationState, transition_job, transition_attempt,
  transition_publication, job_number,
}
use glassroot.App.States.Paths.{
  JobPath, AttemptPath, PublicationPath, abandoned, holds_lease, waits, JobPath-stages,
  AttemptPath-one_lease, PublicationPath-created_once,
}

imported : JobPath JobState.importing_source 1
unfolding transition_job
imported = JobPath.move JobState.importing_source JobPath.start refl refl

JobPath-stages_example :
    (1 ≤ 7)
    × (abandoned JobState.importing_source ≡ false → 1 ≡ job_number JobState.importing_source)
JobPath-stages_example = JobPath-stages JobState.importing_source 1 imported

leased_again : AttemptPath AttemptState.leased 2 1
unfolding transition_attempt
leased_again =
    AttemptPath.move AttemptState.leased
      (AttemptPath.move AttemptState.queued
        (AttemptPath.move AttemptState.lease_expired
          (AttemptPath.move AttemptState.leased AttemptPath.start refl refl) refl refl)
        refl refl)
      refl refl

AttemptPath-one_lease_example :
    (holds_lease AttemptState.leased ≡ true → ◌≡◌ {A = ℕ} 2 2)
    × (waits AttemptState.leased ≡ true → ◌≡◌ {A = ℕ} 2 1)
AttemptPath-one_lease_example = AttemptPath-one_lease AttemptState.leased 2 1 leased_again

requeued : PublicationPath CheckPublicationState.queued 1
unfolding transition_publication
requeued =
    PublicationPath.move CheckPublicationState.queued
      (PublicationPath.move CheckPublicationState.ambiguous
        (PublicationPath.move CheckPublicationState.create_pending PublicationPath.start refl refl)
        refl refl)
      refl refl

PublicationPath-created_once_example : 1 ≤ 1
PublicationPath-created_once_example =
    PublicationPath-created_once CheckPublicationState.queued 1 requeued

abbrev commit : String
commit = "0123456789abcdef0123456789abcdef01234567"

abbrev before : PrGenerationState
before = record {
  installation_id = pos 1;
  repository_id = pos 2;
  pull_request_number = pos 3;
  generation = pos 4;
  current_target_id = "old";
  cancelled = false;
}

abbrev projection : PullRequestProjection
projection = record {
  action = "synchronize";
  installation_id = pos 1;
  repository_id = pos 2;
  pull_request_number = pos 3;
}

abbrev pull_request : CurrentPullRequestState
pull_request = record {
  installation_id = pos 1;
  repository_id = pos 2;
  pull_request_number = pos 3;
  base_repository_id = pos 2;
  head_repository_id = pos 2;
  base_sha = commit;
  head_sha = commit;
  draft = false;
  closed = false;
  head_inaccessible = false;
}

abbrev hash : AnalysisTarget → String
hash t = "new"

abbrev after : PrDecision × PrGenerationState
after = (
  record { action = schedule; generation = pos 5; target_id = "new"; superseded_target_id = "old" },
  record before { generation = pos 5; current_target_id = "new" },
)

reconciled : reconcile_pull_request_generation hash before projection pull_request "p" ≡ ok after
unfolding reconcile_pull_request_generation check_identity decide_target select_target target_id
    validate valid_git_object_id has_control byte_length
reconciled = refl

reconcile-Counted_example : Counted before after
reconcile-Counted_example =
    reconcile-Counted hash before projection pull_request "p" after reconciled

reconcile-Again_example : Again hash projection pull_request "p" after
reconcile-Again_example = reconcile-Again hash before projection pull_request "p" after reconciled

reconcile_grows_example : less_ℤ (pos 4) (pos 5) ≡ is_schedule schedule
reconcile_grows_example =
    reconcile_grows hash before projection pull_request "p" after refl reconciled
