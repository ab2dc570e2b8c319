-- ===== src/Inbox/Accept.antt =====
-- `Store.Accept` (internal/githubinbox/store.go): a verified delivery enters the inbox once, and
-- the outbox with it if it is to be processed.
pub mod Effect
pub mod Idempotent
use glassroot.Common.{
  ℕ, suc, String, ◌+◌, Bool, true, false, not, ◌&&◌, ◌||◌, Option, none, some, List, [], ◌∷◌, ◌++◌,
  map, str_eq, any, find, Result, ok, err, ◌>>=◌, ◌>>◌, reject_if, if◌then◌else◌, valid_digest,
  Time, valid_time,
}
use glassroot.Inbox.Tables.{
  Code, record_invalid, serialization_failed, transaction_failed, InboxRow, OutboxRow, Db,
  Environment, pending, begin_tx, insert_inbox, read_existing, count_conflict, insert_outbox,
  commit_tx, transact,
}

pub data Disposition : Type 0 where
  enqueued ignored : Disposition
  other_disposition : String → Disposition

pub data SecretGeneration : Type 0 where
  current previous : SecretGeneration
  other_generation : String → SecretGeneration

pub record Receipt : Type 0 where
  pub schema_version : String
  pub delivery_id : String
  pub event : String
  pub body_digest : String
  pub projection_kind : String

-- `projection_json` and `receipt_json` are what `json.Marshal` gives, `none` where it fails.
pub record VerifiedDelivery : Type 0 where
  pub receiver_id : String
  pub delivery_id : String
  pub event : String
  pub body_digest : String
  pub matched_secret : SecretGeneration
  pub received_at : Time
  pub projection_kind : String
  pub projection_json : Option String
  pub receipt : Receipt
  pub receipt_json : Option String
  pub disposition : Disposition
  pub intake_fingerprint : String

-- `AcceptResult`; `delivery_conflicted` is returned beside the error delivery-conflict.
pub data AcceptResult : Type 0 where
  new_enqueued : String → AcceptResult
  new_ignored duplicate_same_delivery delivery_conflicted : AcceptResult

abbrev pub schema_receipt : String
schema_receipt = "glassroot.dev/github-webhook-receipt/v1alpha1"

known_secret : SecretGeneration → Bool
known_secret (other_generation s) = false
known_secret _ = true

known_disposition : Disposition → Bool
known_disposition (other_disposition s) = false
known_disposition _ = true

unfoldable pub validate_delivery : String → VerifiedDelivery → Result Code (Unit {0})
unfolding known_secret known_disposition
validate_delivery receiver d = do
  reject_if
      (not (str_eq d.receiver_id receiver)
        || str_eq d.delivery_id ""
        || str_eq d.event ""
        || not (valid_digest d.body_digest)
        || not (valid_digest d.intake_fingerprint)
        || not (str_eq d.receipt.schema_version schema_receipt)
        || not (str_eq d.receipt.delivery_id d.delivery_id)
        || not (str_eq d.receipt.event d.event)
        || not (str_eq d.receipt.body_digest d.body_digest)
        || not (str_eq d.receipt.projection_kind d.projection_kind))
      record_invalid
  reject_if (not (known_secret d.matched_secret)) record_invalid
  reject_if (not (valid_time d.received_at)) record_invalid
  reject_if (not (known_disposition d.disposition)) record_invalid

unfoldable pub compact_json : Option String → Result Code String
compact_json none = err serialization_failed
compact_json (some text) = ok text

-- WHERE receiver_id=? AND delivery_id=?
abbrev pub has_delivery : String → String → InboxRow → Bool
has_delivery receiver delivery r = str_eq r.receiver_id receiver && str_eq r.delivery_id delivery

-- What makes INSERT OR IGNORE insert nothing: the primary key or the unique fingerprint is taken.
abbrev pub collides : VerifiedDelivery → InboxRow → Bool
collides d r =
    has_delivery d.receiver_id d.delivery_id r
    || str_eq r.receiver_id d.receiver_id && str_eq r.intake_fingerprint d.intake_fingerprint

abbrev pub inbox_row : VerifiedDelivery → InboxRow
inbox_row d = record {
  receiver_id = d.receiver_id;
  delivery_id = d.delivery_id;
  body_digest = d.body_digest;
  intake_fingerprint = d.intake_fingerprint;
  conflict_count = 0;
}

pub bump_conflict : String → String → InboxRow → InboxRow
bump_conflict receiver delivery r =
    if has_delivery receiver delivery r
    then record r { conflict_count = r.conflict_count + 1 }
    else r

-- The branch of `rows == 0`. The result of the UPDATE is dropped, so it may have done nothing.
unfoldable pub resolve_existing :
    Environment → VerifiedDelivery → Db → Option InboxRow → Result Code (Db × AcceptResult)
unfolding bump_conflict
resolve_existing env d db none = err transaction_failed
resolve_existing env d db (some r) =
    if str_eq r.intake_fingerprint d.intake_fingerprint
    then (do reject_if (env.fails commit_tx) transaction_failed; ok (db, duplicate_same_delivery))
    else do
      reject_if (env.fails commit_tx) transaction_failed
      ok (
        if env.fails count_conflict
            then db
            else record db { inbox = map (bump_conflict d.receiver_id d.delivery_id) db.inbox },
        delivery_conflicted,
      )

abbrev pub outbox_row : VerifiedDelivery → String → String → String → ℕ → OutboxRow
outbox_row d outbox_id projection receipt sequence = record {
  sequence = sequence;
  id = outbox_id;
  receiver_id = d.receiver_id;
  delivery_id = d.delivery_id;
  projection_json = projection;
  receipt_json = receipt;
  state = pending;
  lease_owner = none;
  lease_generation = 0;
  lease_expires_at = none;
  attempt_count = 0;
  last_failure_code = none;
}

-- The fresh delivery's part: the outbox row, if the delivery is to be processed.
pub enqueue :
    Environment → VerifiedDelivery → String → String → String → Db → Result Code (Db × AcceptResult)
enqueue env d outbox_id projection receipt db = do
  reject_if (env.fails insert_outbox || any (λ (r : OutboxRow). str_eq r.id outbox_id) db.outbox)
      transaction_failed
  reject_if (env.fails commit_tx) transaction_failed
  ok (
    record db {
      outbox = db.outbox ++ outbox_row d outbox_id projection receipt db.next_sequence ∷ [];
      next_sequence = suc db.next_sequence;
    },
    new_enqueued outbox_id,
  )

unfoldable pub insert_new :
    Environment
    → VerifiedDelivery
    → String
    → String
    → String
    → Disposition
    → Db
    → Result Code (Db × AcceptResult)
unfolding enqueue
insert_new env d outbox_id projection receipt enqueued db =
    enqueue env d outbox_id projection receipt db
insert_new env d outbox_id projection receipt _ db = do
  reject_if (env.fails commit_tx) transaction_failed
  ok (db, new_ignored)

-- The transaction, behind the validation. `outbox_id` is `computeOutboxID` of the delivery.
unfoldable pub accept_tx :
    Environment → VerifiedDelivery → String → String → String → Db → Result Code (Db × AcceptResult)
unfolding resolve_existing insert_new
accept_tx env d outbox_id projection receipt db = do
  reject_if (env.fails begin_tx) transaction_failed
  reject_if (env.fails insert_inbox) transaction_failed
  if any (collides d) db.inbox
      then (do
        reject_if (env.fails read_existing) transaction_failed
        resolve_existing env d db (find (has_delivery d.receiver_id d.delivery_id) db.inbox))
      else insert_new env d outbox_id projection receipt d.disposition
          (record db { inbox = db.inbox ++ inbox_row d ∷ [] })

unfoldable pub accept :
    Environment → String → String → VerifiedDelivery → Db → Db × Result Code AcceptResult
accept env receiver outbox_id d db = transact db (do
  validate_delivery receiver d
  projection ← compact_json d.projection_json
  receipt ← compact_json d.receipt_json
  accept_tx env d outbox_id projection receipt db)
