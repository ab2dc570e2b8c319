-- ===== src/Store/Reconcile/Tests.antt =====
-- A snapshot of a pull request at concrete inputs.
use glassroot.Common.{
  ℕ, ◌*◌, ◌≡◌, refl, String, Bool, true, false, [], ◌∷◌, ok, Time, nanos_per_second, select, not,
  byte_length, has_control, valid_digest,
}
use glassroot.Common.Int.{pos}
use glassroot.App.Target.{target_id, validate, valid_git_object_id}
use glassroot.App.States.{JobState, AttemptState}
use glassroot.Store.Leases.{
  PrKey, ReconcileLease, lease, row_of, holds, invalid_key, valid_id, release_reconcile_lease,
}
use glassroot.Store.Leases.Exclusion.{works}
use glassroot.Store.Work.{
  PrEligibility, duplicate_processed, scheduled_new_target, SourceRequestState, PullRequestSnapshot,
  Work, Hashes, ReconcileResult, eligibility_for, read_current, supersede_current, supersede_job,
  cancel_attempt, supersede_source, validate_source, valid_route_hint, insert_work,
}
use glassroot.Store.Reconcile.{
  ProcessedDelivery, Db, PullRequestReconcileInput, validate_input, processed_row, result,
  new_state, put_state, schedule, upsert, decide_eligible, decide_snapshot, apply_new, apply_found,
  apply_pull_request_snapshot,
}
use glassroot.Store.Reconcile.Stopping.{Stopped, decide_snapshot-Stopped}
use glassroot.Store.Reconcile.Once.{apply_pull_request_snapshot_once}
use glassroot.Store.Reconcile.Generations.{Advanced, decide_snapshot-Advanced}

abbrev key : PrKey
key = record { installation_id = pos 1; base_repository_id = pos 2; pull_request_number = pos 3 }

abbrev at_second : ℕ → Time
at_second s = record { nanos = s * nanos_per_second; utc = true }

abbrev commit : String
commit = "0123456789abcdef0123456789abcdef01234567"

abbrev later_commit : String
later_commit = "89abcdef0123456789abcdef0123456789abcdef"

abbrev snapshot : String → Bool → PullRequestSnapshot
snapshot head is_closed = record {
  schema_version = "";
  number = pos 3;
  is_closed = is_closed;
  draft = false;
  merged = false;
  base = record {
    repository_id = pos 2;
    owner = "octo";
    name = "base";
    commit_id = commit;
    available = true;
  };
  head = record {
    repository_id = pos 4;
    owner = "cat";
    name = "fork";
    commit_id = head;
    available = true;
  };
}

abbrev hashes : Hashes
hashes = record {
  target = λ t. t.head_commit_id;
  job = λ target generation. target;
  attempt = λ job target generation. job;
  source = λ target job generation. job;
}

-- The first head is being imported.
abbrev importing : Work
importing = record {
  targets = commit ∷ [];
  states =
      record {
        key = key;
        generation = 1;
        eligibility = PrEligibility.eligible;
        current_target_id = commit;
        current_job_id = commit;
      }
      ∷ [];
  jobs =
      record {
        job_id = commit;
        target_id = commit;
        generation = 1;
        state = JobState.importing_source;
      }
      ∷ [];
  attempts =
      record {
        attempt_id = commit;
        job_id = commit;
        attempt_number = 1;
        state = AttemptState.queued;
      }
      ∷ [];
  sources =
      record {
        request_id = commit;
        job_id = commit;
        generation = 1;
        state = SourceRequestState.pending;
      }
      ∷ [];
}

abbrev answer : ReconcileResult
answer =
    result scheduled_new_target 2 later_commit later_commit later_commit later_commit
      PrEligibility.eligible

-- The second head takes over.
abbrev taken_over : Work
taken_over = record {
  targets = commit ∷ later_commit ∷ [];
  states = new_state key answer ∷ [];
  jobs =
      record { job_id = commit; target_id = commit; generation = 1; state = JobState.superseded }
      ∷ record {
        job_id = later_commit;
        target_id = later_commit;
        generation = 2;
        state = JobState.importing_source;
      }
      ∷ [];
  attempts =
      record {
        attempt_id = commit;
        job_id = commit;
        attempt_number = 1;
        state = AttemptState.cancelled;
      }
      ∷ record {
        attempt_id = later_commit;
        job_id = later_commit;
        attempt_number = 1;
        state = AttemptState.queued;
      }
      ∷ [];
  sources =
      record {
        request_id = commit;
        job_id = commit;
        generation = 1;
        state = SourceRequestState.superseded;
      }
      ∷ record {
        request_id = later_commit;
        job_id = later_commit;
        generation = 2;
        state = SourceRequestState.pending;
      }
      ∷ [];
}

new_head :
    decide_snapshot works hashes key (snapshot later_commit false) importing
    ≡ ok (taken_over, answer)
unfolding decide_snapshot decide_eligible schedule upsert put_state eligibility_for read_current
    supersede_current supersede_job cancel_attempt supersede_source insert_work validate_source
    valid_route_hint target_id validate valid_git_object_id has_control byte_length
new_head = refl

decide_snapshot-Advanced_example : Advanced key 1 (taken_over, answer)
unfolding read_current
decide_snapshot-Advanced_example =
    decide_snapshot-Advanced works hashes key (snapshot later_commit false) importing
      (taken_over, answer) new_head

abbrev held : ReconcileLease
held = lease key "one" 1 (at_second 100) (at_second 110)

abbrev delivery : ProcessedDelivery
delivery = record {
  receiver_id = "receiver";
  outbox_id = "outbox";
  delivery_id = "delivery";
  is_pull_request = true;
  projection_digest = "sha256:0123456789abcdef0123456789abcdef0123456789abcdef0123456789abcdef";
  processed_at = at_second 101;
}

abbrev input : String → PullRequestReconcileInput
input head = record {
  processed = delivery;
  lease = held;
  snapshot = snapshot head false;
  now = at_second 102;
}

abbrev before : Db
before = record { leases = row_of held ∷ []; processed = []; work = importing }

abbrev after : Db
after = record { leases = []; processed = processed_row delivery answer ∷ []; work = taken_over }

processed :
    apply_pull_request_snapshot works hashes "receiver" (input later_commit) before
    ≡ ok (after, answer)
unfolding apply_pull_request_snapshot apply_found apply_new validate_input invalid_key valid_id
    valid_digest release_reconcile_lease decide_snapshot decide_eligible schedule upsert put_state
    eligibility_for read_current supersede_current supersede_job cancel_attempt supersede_source
    insert_work validate_source valid_route_hint target_id validate valid_git_object_id has_control
    byte_length
processed = refl

accepted : validate_input "receiver" (input commit) ≡ ok tt
unfolding validate_input invalid_key valid_id valid_digest byte_length
accepted = refl

-- The same delivery again, with an older snapshot.
apply_pull_request_snapshot_once_example :
    (p : ReconcileResult) × (apply_pull_request_snapshot works hashes "receiver"
        (input commit)
        (record after { leases = row_of held ∷ [] })
      ≡ ok (record after { leases = select (λ r. not (holds held r)) (row_of held ∷ []) }, p))
    × (p.decision ≡ duplicate_processed)
    × (p.generation ≡ 2)
    × (p.target_id ≡ later_commit)
    × (p.job_id ≡ later_commit)
apply_pull_request_snapshot_once_example =
    apply_pull_request_snapshot_once works hashes hashes "receiver" (input later_commit)
      (input commit) before after answer (row_of held ∷ []) processed refl accepted refl

decide_snapshot-Stopped_example : Stopped commit taken_over
unfolding read_current
decide_snapshot-Stopped_example =
    decide_snapshot-Stopped works hashes key (snapshot later_commit false) importing
      (taken_over, answer) refl refl new_head refl
