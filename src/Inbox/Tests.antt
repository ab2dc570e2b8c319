-- ===== src/Inbox/Tests.antt =====
-- The inbox at concrete inputs: the theorems where their hypotheses hold, and runs.
use glassroot.Common.{
  ℕ, String, ◌+◌, ◌*◌, ◌<◌, ◌≡◌, refl, true, false, none, some, [], ◌∷◌, ok, arith, Time, add_nanos,
  format_nano, valid_digest, byte_length, has_control, nanos_per_second, stamp_le,
}
use glassroot.Inbox.Tables.{OutboxRow, pending, leased, Db, Environment}
use glassroot.Inbox.Accept.{
  VerifiedDelivery, SecretGeneration, Disposition, new_enqueued, duplicate_same_delivery,
  schema_receipt, accept, accept_tx, validate_delivery, compact_json, insert_new,
}
use glassroot.Inbox.Accept.Effect.{Effect, accept-Effect}
use glassroot.Inbox.Accept.Idempotent.{accept_again}
use glassroot.Inbox.Lease.{Limits, claimable, claim_outbox, validate_lease_inputs}
use glassroot.Inbox.Lease.Pass.{chosen}
use glassroot.Inbox.Lease.Claim.{
  claimed_db, claim_outbox_total, claimable_near_expiry, claimable_at_seconds,
}
use glassroot.Inbox.History.{Reach, here, next, claims, Reach-Keeps}
use glassroot.Inbox.History.Rows.{Keeps}

abbrev quiet : Environment
quiet = record { fails = λ s. false; decodes = λ s. true }

abbrev digest : String
digest = "sha256:0123456789abcdef0123456789abcdef0123456789abcdef0123456789abcdef"

abbrev noon : Time
noon = record { nanos = 1000 * nanos_per_second; utc = true }

abbrev delivery : VerifiedDelivery
delivery = record {
  receiver_id = "main";
  delivery_id = "d1";
  event = "pull_request";
  body_digest = digest;
  matched_secret = SecretGeneration.current;
  received_at = noon;
  projection_kind = "pull_request";
  projection_json = some "{}";
  receipt = record {
    schema_version = schema_receipt;
    delivery_id = "d1";
    event = "pull_request";
    body_digest = digest;
    projection_kind = "pull_request";
  };
  receipt_json = some "{}";
  disposition = Disposition.enqueued;
  intake_fingerprint = digest;
}

abbrev empty : Db
empty = record { inbox = []; outbox = []; next_sequence = 1 }

accept_enqueues : (accept quiet "main" "outbox-1" delivery empty).1 ≡ ok (new_enqueued "outbox-1")
unfolding accept accept_tx insert_new validate_delivery compact_json valid_digest
accept_enqueues = refl

accept-Effect_example :
    Effect delivery empty
      (accept quiet "main" "outbox-1" delivery empty).0
      (accept quiet "main" "outbox-1" delivery empty).1
accept-Effect_example = accept-Effect quiet delivery "main" "outbox-1" empty

accept_again_example :
    accept quiet "main" "outbox-2" delivery (accept quiet "main" "outbox-1" delivery empty).0
    ≡ ((accept quiet "main" "outbox-1" delivery empty).0, ok duplicate_same_delivery)
accept_again_example =
    accept_again quiet quiet "main" "outbox-1" "outbox-2" delivery empty (new_enqueued "outbox-1")
      (λ s. refl) (λ e. ground arith) accept_enqueues

abbrev limits : Limits
limits = record {
  max_lease_owner_bytes = 128;
  max_claim_limit = 256;
  max_lease_duration_seconds = 86400;
}

abbrev row : OutboxRow
row = record {
  sequence = 1;
  id = "outbox-1";
  receiver_id = "main";
  delivery_id = "d1";
  projection_json = "{}";
  receipt_json = "{}";
  state = pending;
  lease_owner = none;
  lease_generation = 0;
  lease_expires_at = none;
  attempt_count = 0;
  last_failure_code = none;
}

abbrev one : Db
one = record { inbox = []; outbox = row ∷ []; next_sequence = 2 }

abbrev half_minute : ℕ
half_minute = 30 * nanos_per_second

claim_outbox_total_example : claim_outbox quiet limits "worker" noon half_minute 5 one ≡ (
  claimed_db "worker" noon half_minute 5 one,
  ok (chosen "worker" noon (add_nanos noon half_minute) 5 one.outbox),
)
unfolding claimable validate_lease_inputs byte_length has_control
claim_outbox_total_example =
    claim_outbox_total quiet "worker" noon half_minute 5 one (refl, tt) limits (λ s. refl) refl refl

abbrev held_row : OutboxRow
held_row = record row {
  state = leased;
  lease_owner = some "worker";
  lease_generation = 1;
  lease_expires_at = some (format_nano noon);
}

claimable_at_seconds_example :
    let later : Time = record { nanos = 1000 * nanos_per_second + 5; utc = true } in
    (held_row.lease_expires_at ≡ some (format_nano later) → claimable noon held_row ≡ true)
    × (held_row.lease_expires_at ≡ some (format_nano noon) → claimable later held_row ≡ false)
claimable_at_seconds_example = claimable_at_seconds held_row 1000 5 (omega arith) (omega arith) refl

claimable_near_expiry_example : noon.nanos < noon.nanos + nanos_per_second
unfolding claimable format_nano stamp_le
claimable_near_expiry_example = claimable_near_expiry held_row noon refl noon refl refl

abbrev held_db : Db
held_db = record { inbox = []; outbox = held_row ∷ []; next_sequence = 2 }

-- Another worker claims the row after the first one's lease ended.
abbrev reclaimed : Db
reclaimed =
    (claim_outbox quiet limits "other" (add_nanos noon nanos_per_second) half_minute 1 held_db).0

reclaim : Reach held_db reclaimed
reclaim =
    next here (claims quiet limits "other" (add_nanos noon nanos_per_second) half_minute 1 refl)

Reach-Keeps_example : Keeps held_db.outbox reclaimed.outbox
Reach-Keeps_example = Reach-Keeps (refl, tt) reclaim

abbrev twice_held : OutboxRow
twice_held = record held_row { lease_owner = some "other"; lease_generation = 2 }
