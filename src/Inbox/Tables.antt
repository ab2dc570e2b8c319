-- ===== src/Inbox/Tables.antt =====
-- The tables github_inbox and github_outbox (internal/githubinbox/schema.go, types.go). A column
-- that the code writes and never reads back is left out; JSON columns are kept as their text.
use glassroot.Common.{ℕ, String, Option, List, Bool, Result, ok, err, Stamp, ◌≡◌, refl}

pub data Code : Type 0 where
  record_invalid serialization_failed transaction_failed delivery_conflict : Code
  outbox_state_invalid lease_owner_invalid lease_duration_invalid stale_lease : Code
  lease_generation_overflow attempt_count_overflow : Code

pub data OutboxState : Type 0 where
  pending leased acknowledged : OutboxState

pub record InboxRow : Type 0 where
  pub receiver_id : String
  pub delivery_id : String
  pub body_digest : String
  pub intake_fingerprint : String
  pub conflict_count : ℕ

pub record OutboxRow : Type 0 where
  pub sequence : ℕ
  pub id : String
  pub receiver_id : String
  pub delivery_id : String
  pub projection_json : String
  pub receipt_json : String
  pub state : OutboxState
  pub lease_owner : Option String
  pub lease_generation : ℕ
  pub lease_expires_at : Option Stamp
  pub attempt_count : ℕ
  pub last_failure_code : Option String

-- `next_sequence` is what AUTOINCREMENT gives next.
pub record Db : Type 0 where
  pub inbox : List InboxRow
  pub outbox : List OutboxRow
  pub next_sequence : ℕ

-- The statements of the transactions, each of which the database may fail.
pub data Statement : Type 0 where
  begin_tx insert_inbox read_existing count_conflict insert_outbox commit_tx : Statement
  claim_query claim_close lease_read lease_finish_update : Statement
  claim_update : ℕ → Statement

-- What a call meets outside the program: which statements fail, and which stored JSON decodes.
pub record Environment : Type 0 where
  pub fails : Statement → Bool
  pub decodes : String → Bool

-- `defer rollback(tx)`: what a failed transaction wrote is gone.
abbrev pub transact : {A : Type 0} → Db → Result Code (Db × A) → Db × Result Code A
transact db (ok (db', a)) = (db', ok a)
transact db (err e) = (db, err e)

pub transact-eq-ok :
    {A : Type 0} (db : Db) (m : Result Code (Db × A)) {a : A}
    → (transact db m).1 ≡ ok a
    → m ≡ ok ((transact db m).0, a)
transact-eq-ok db (ok p) h = cc h
transact-eq-ok db (err e) h = cc

pub transact-eq-err :
    {A : Type 0} (db : Db) (m : Result Code (Db × A)) {e : Code}
    → (transact db m).1 ≡ err e
    → (transact db m).0 ≡ db
transact-eq-err db (ok p) h = cc
transact-eq-err db (err e) h = refl
