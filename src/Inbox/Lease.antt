-- ===== src/Inbox/Lease.antt =====
-- Leases on outbox rows (internal/githubinbox/lease.go): a claim takes rows with a new generation,
-- and only the holder of the current generation acknowledges or releases one.
pub mod Pass
pub mod Claim
pub mod Fencing
use glassroot.Common.{
  ℕ, zero, suc, String, ◌+◌, ◌-◌, ◌*◌, ◌^◌, Bool, true, false, not, ◌&&◌, ◌||◌, Option, none, some,
  List, [], ◌∷◌, map, str_eq, Result, ok, err, ◌>>=◌, ◌>>◌, reject_if, if◌then◌else◌, ltb, ◌==◌,
  Time, valid_time, is_zero, add_nanos, Stamp, format_nano, stamp_le, nanos_per_second, codes,
  byte_length, has_control, take, select, count, find,
}
use glassroot.Inbox.Tables.{
  Code, record_invalid, transaction_failed, outbox_state_invalid, lease_owner_invalid,
  lease_duration_invalid, stale_lease, lease_generation_overflow, attempt_count_overflow,
  OutboxState, pending, leased, acknowledged, OutboxRow, Db, Environment, begin_tx, commit_tx,
  claim_query, claim_close, claim_update, lease_read, lease_finish_update, transact,
}

pub record Limits : Type 0 where
  pub max_lease_owner_bytes : ℕ
  pub max_claim_limit : ℕ
  pub max_lease_duration_seconds : ℕ

abbrev pub max_int64 : ℕ
max_int64 = 2 ^ 63 - 1

pub record LeasedRecord : Type 0 where
  pub id : String
  pub sequence : ℕ
  pub projection_json : String
  pub lease_owner : String
  pub lease_generation : ℕ
  pub attempt_count : ℕ
  pub lease_expires_at : Time
  -- `candidate.previousGen`
  pub previous_generation : ℕ

abbrev pub expired_at : Time → Option Stamp → Bool
expired_at now none = false
expired_at now (some expires) = stamp_le expires (format_nano now)

-- state='pending' OR (state='leased' AND lease_expires_at <= ?)
unfoldable pub claimable : Time → OutboxRow → Bool
claimable now r = elim r.state [
  | pending ↦ true
  | leased ↦ expired_at now r.lease_expires_at
  | acknowledged ↦ false
]

-- Durations are positive or not in nanoseconds; `zero` stands for `duration <= 0`, and a limit of
-- rows likewise.
unfoldable pub validate_lease_inputs : Limits → String → Time → ℕ → ℕ → Result Code (Unit {0})
validate_lease_inputs limits owner now duration limit = do
  reject_if
      (str_eq owner ""
        || ltb limits.max_lease_owner_bytes (byte_length (codes owner))
        || has_control owner)
      lease_owner_invalid
  reject_if (not (valid_time now)) record_invalid
  reject_if (duration == 0 || ltb (limits.max_lease_duration_seconds * nanos_per_second) duration)
      lease_duration_invalid
  reject_if (limit == 0 || ltb limits.max_claim_limit limit) outbox_state_invalid

abbrev pub candidate : String → Time → OutboxRow → LeasedRecord
candidate owner expires r = record {
  id = r.id;
  sequence = r.sequence;
  projection_json = r.projection_json;
  lease_owner = owner;
  lease_generation = r.lease_generation + 1;
  attempt_count = r.attempt_count + 1;
  lease_expires_at = expires;
  previous_generation = r.lease_generation;
}

-- One row of the query, as the loop over `rows.Next()` reads it.
unfoldable pub scan_row : Environment → String → Time → OutboxRow → Result Code LeasedRecord
scan_row env owner expires r = do
  reject_if (r.lease_generation == max_int64) lease_generation_overflow
  reject_if (r.attempt_count == max_int64) attempt_count_overflow
  reject_if (not (env.decodes r.projection_json)) record_invalid
  reject_if (not (env.decodes r.receipt_json)) record_invalid
  ok (candidate owner expires r)

unfoldable pub scan : Environment → String → Time → List OutboxRow → Result Code (List LeasedRecord)
scan env owner expires [] = ok []
scan env owner expires (r ∷ rs) = do
  c ← scan_row env owner expires r
  cs ← scan env owner expires rs
  ok (c ∷ cs)

-- The WHERE clause of the claiming UPDATE.
unfoldable pub takes : Time → LeasedRecord → OutboxRow → Bool
unfolding claimable
takes now c r =
    str_eq r.id c.id
    && r.sequence == c.sequence
    && r.lease_generation == c.previous_generation
    && claimable now r

abbrev pub set_leased : LeasedRecord → OutboxRow → OutboxRow
set_leased c r = record r {
  state = leased;
  lease_owner = some c.lease_owner;
  lease_generation = c.lease_generation;
  lease_expires_at = some (format_nano c.lease_expires_at);
  attempt_count = c.attempt_count;
}

unfoldable pub take_row : Time → LeasedRecord → OutboxRow → OutboxRow
unfolding takes
take_row now c r = if takes now c r then set_leased c r else r

unfoldable pub claim_loop :
    Environment
    → Time
    → List LeasedRecord
    → List OutboxRow
    → Result Code (List OutboxRow × List LeasedRecord)
claim_loop env now [] rows = ok (rows, [])
claim_loop env now (c ∷ cs) rows =
    let n = count (takes now c) rows in
    let skip = claim_loop env now cs rows in
    let go = claim_loop env now cs (map (take_row now c) rows) in
    if env.fails (claim_update c.sequence)
    then err transaction_failed
    else if n == 0
    then skip
    else if n == 1
    then go >>= (λ r. ok (r.0, c ∷ r.1))
    else err outbox_state_invalid

-- ORDER BY sequence LIMIT ?: the table is kept in the order of its sequence.
unfoldable pub claim_tx :
    Environment → String → Time → ℕ → ℕ → Db → Result Code (Db × List LeasedRecord)
claim_tx env owner now duration limit db = do
  reject_if (env.fails begin_tx) transaction_failed
  reject_if (env.fails claim_query) transaction_failed
  candidates ←
      scan env owner (add_nanos now duration) (take limit (select (claimable now) db.outbox))
  reject_if (env.fails claim_close) transaction_failed
  r ← claim_loop env now candidates db.outbox
  reject_if (env.fails commit_tx) transaction_failed
  ok (record db { outbox = r.0 }, r.1)

unfoldable pub claim_outbox :
    Environment → Limits → String → Time → ℕ → ℕ → Db → Db × Result Code (List LeasedRecord)
claim_outbox env limits owner now duration limit db = transact db (do
  validate_lease_inputs limits owner now duration limit
  claim_tx env owner now duration limit db)

-- `ack`, or the failure code of a release.
pub data Finish : Type 0 where
  ack : Finish
  release : String → Finish

abbrev pub with_id : String → OutboxRow → Bool
with_id id r = str_eq r.id id

-- COALESCE(lease_owner,'')
abbrev pub owner_text : Option String → String
owner_text none = ""
owner_text (some o) = o

unfoldable pub finish_row : Finish → OutboxRow → OutboxRow
finish_row ack r = record r { state = acknowledged }
finish_row (release code) r = record r {
  state = pending;
  lease_expires_at = none;
  last_failure_code = some code;
}

unfoldable pub set_finished : String → Finish → OutboxRow → OutboxRow
unfolding finish_row
set_finished id finish r = if with_id id r then finish_row finish r else r

pub update_finished : Environment → String → Finish → Db → Result Code (Db × Unit {0})
unfolding set_finished
update_finished env id finish db = do
  reject_if (env.fails lease_finish_update) transaction_failed
  reject_if (env.fails commit_tx) transaction_failed
  ok (record db { outbox = map (set_finished id finish) db.outbox }, tt)

-- By the kind of the call and the state of the row. A repeated acknowledgement succeeds, whether
-- or not its commit does.
pub finish_state : Environment → String → Finish → OutboxState → Db → Result Code (Db × Unit {0})
unfolding update_finished
finish_state env id ack acknowledged db = ok (db, tt)
finish_state env id finish leased db = update_finished env id finish db
finish_state env id finish _ db = err outbox_state_invalid

unfoldable pub finish_found :
    Environment → String → String → ℕ → Finish → Db → Option OutboxRow → Result Code (Db × Unit {0})
unfolding finish_state
finish_found env id owner generation finish db none = err stale_lease
finish_found env id owner generation finish db (some r) = do
  reject_if
      (not (str_eq (owner_text r.lease_owner) owner) || not (r.lease_generation == generation))
      stale_lease
  finish_state env id finish r.state db

unfoldable pub finish_lease :
    Environment → String → String → ℕ → Time → Finish → Db → Db × Result Code (Unit {0})
finish_lease env id owner generation when finish db = transact db (do
  reject_if (str_eq id "" || str_eq owner "" || generation == 0 || not (valid_time when))
      stale_lease
  reject_if (env.fails begin_tx) transaction_failed
  reject_if (env.fails lease_read) transaction_failed
  finish_found env id owner generation finish db (find (with_id id) db.outbox))

pub acknowledge_outbox : Environment → String → String → ℕ → Time → Db → Db × Result Code (Unit {0})
acknowledge_outbox env id owner generation when db =
    finish_lease env id owner generation when ack db

pub release_outbox :
    Environment → String → String → ℕ → Time → String → Db → Db × Result Code (Unit {0})
release_outbox env id owner generation when failure_code db =
    if not (str_eq failure_code "")
      && (ltb 64 (byte_length (codes failure_code)) || has_control failure_code)
    then (db, err outbox_state_invalid)
    else finish_lease env id owner generation when (release failure_code) db
