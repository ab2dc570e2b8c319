-- ===== src/Store/Tests.antt =====
-- The leases and the recorded decisions at concrete inputs.
use glassroot.Common.{
  ℕ, ◌*◌, ◌+◌, ◌≡◌, refl, true, false, [], ◌∷◌, map, ok, err, if◌then◌else◌, ltb, Time,
  nanos_per_second, byte_length, valid_digest,
}
use glassroot.Common.Int.{pos}
use glassroot.Store.Work.{
  unset, rerequest_ignored, installation_hint_recorded, duplicate_processed, ReconcileResult,
}
use glassroot.Store.Reconcile.{ProcessedDelivery, Db, processed_row, result}
use glassroot.Store.Record.{
  record_found, record_processing_decision, accepts, record_processing_decision_once,
}
use glassroot.Store.Leases.{
  PrKey, ReconcileLease, lease, row_of, set_lease, acquire_reconcile_lease, acquire_found,
  release_reconcile_lease, invalid_key, valid_id, reconcile_lease_busy,
}
use glassroot.Store.Leases.Exclusion.{
  Accepted, works, stored_expiry, acquire_reconcile_lease_exclusive,
  release_reconcile_lease_restarts,
}

abbrev key : PrKey
key = record { installation_id = pos 1; base_repository_id = pos 2; pull_request_number = pos 3 }

abbrev at_second : ℕ → Time
at_second s = record { nanos = s * nanos_per_second; utc = true }

abbrev half_past : ℕ → Time
half_past s = record { nanos = s * nanos_per_second + 500_000_000; utc = true }

abbrev limit : ℕ
limit = 30 * nanos_per_second

-- From 100.5 to 110.5 seconds.
abbrev first : ReconcileLease
first = lease key "one" 1 (half_past 100) (half_past 110)

acquired :
    acquire_reconcile_lease works limit key "one" (half_past 100) (10 * nanos_per_second) []
    ≡ ok (row_of first ∷ [], first)
unfolding acquire_reconcile_lease acquire_found invalid_key valid_id byte_length
acquired = refl

accepted : Accepted limit key "two" (at_second 110) (10 * nanos_per_second)
unfolding invalid_key valid_id byte_length
accepted = (refl, refl)

abbrev second : ReconcileLease
second = lease key "two" 2 (at_second 110) (at_second 120)

acquire_reconcile_lease_exclusive_example :
    acquire_reconcile_lease works limit key "two"
      (at_second 110)
      (10 * nanos_per_second)
      (row_of first ∷ [])
    ≡ (if ltb (at_second 110).nanos (stored_expiry first)
        then err reconcile_lease_busy
        else ok (map (set_lease second) (row_of first ∷ []), second))
acquire_reconcile_lease_exclusive_example =
    acquire_reconcile_lease_exclusive works limit key "one" (half_past 100) (10 * nanos_per_second)
      [] (row_of first ∷ []) first "two" (at_second 110) (10 * nanos_per_second) acquired accepted
      refl

let_go : release_reconcile_lease works second (row_of second ∷ []) ≡ ok []
unfolding release_reconcile_lease
let_go = refl

release_reconcile_lease_restarts_example : ◌≡◌ {A = ℕ} 1 1
release_reconcile_lease_restarts_example =
    release_reconcile_lease_restarts works works limit "one" (half_past 100) (10 * nanos_per_second)
      (row_of second ∷ []) [] (row_of first ∷ []) second first refl let_go acquired

abbrev delivery : ProcessedDelivery
delivery = record {
  receiver_id = "receiver";
  outbox_id = "outbox";
  delivery_id = "delivery";
  is_pull_request = false;
  projection_digest = "sha256:0123456789abcdef0123456789abcdef0123456789abcdef0123456789abcdef";
  processed_at = at_second 1;
}

abbrev empty : Db
empty = record {
  leases = row_of first ∷ [];
  processed = [];
  work = record { targets = []; states = []; jobs = []; attempts = []; sources = [] };
}

abbrev hint : ReconcileResult
hint = result installation_hint_recorded 0 "" "" "" "" unset

abbrev hinted : Db
hinted = record empty { processed = processed_row delivery hint ∷ [] }

recorded :
    record_processing_decision works "receiver" delivery installation_hint_recorded
      (at_second 5)
      empty
    ≡ ok (hinted, hint)
unfolding record_processing_decision record_found valid_digest byte_length
recorded = refl

valid_again : accepts "receiver" delivery (at_second 6) ≡ true
unfolding valid_digest byte_length
valid_again = refl

record_processing_decision_once_example :
    (hinted.work ≡ empty.work)
    × (hinted.leases ≡ empty.leases)
    × (r : ReconcileResult) × (record_processing_decision works "receiver" delivery
          rerequest_ignored
          (at_second 6)
          hinted
        ≡ ok (hinted, r))
    × (r.decision ≡ duplicate_processed)
    × (r.generation ≡ hint.generation)
    × (r.target_id ≡ hint.target_id)
    × (r.job_id ≡ hint.job_id)
record_processing_decision_once_example =
    record_processing_decision_once works "receiver" delivery installation_hint_recorded
      rerequest_ignored (at_second 5) (at_second 6) empty hinted hint recorded valid_again
