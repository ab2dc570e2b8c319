-- ===== src/Inbox/Accept/Effect.antt =====
-- What `accept` does to the tables, for each of its results, and that it is idempotent.
use glassroot.Common.{
  String, ◌≡◌, refl, Bool, true, false, ◌||◌, Option, none, some, [], ◌∷◌, ◌++◌, str_eq, any, find,
  Result, ok, err, ◌>>=◌, ◌≢◌, arith, Bool-cases, inl, inr,
}
use glassroot.Inbox.Tables.{
  Code, InboxRow, OutboxRow, pending, Db, Environment, commit_tx, begin_tx, insert_inbox,
  insert_outbox, read_existing, transact,
}
use glassroot.Inbox.Accept.{
  VerifiedDelivery, AcceptResult, new_enqueued, new_ignored, duplicate_same_delivery,
  delivery_conflicted, has_delivery, collides, inbox_row, accept, accept_tx, outbox_row,
  resolve_existing, validate_delivery, Disposition, enqueued, ignored, other_disposition,
  compact_json, insert_new,
}

abbrev entered : VerifiedDelivery → Db → Db
entered d db = record db { inbox = db.inbox ++ inbox_row d ∷ [] }

abbrev taken : String → Db → Bool
taken id db = any (λ (r : OutboxRow). str_eq r.id id) db.outbox

-- The delivery is new to the inbox, and is its last row now.
pub record Entered (d : VerifiedDelivery) (db db' : Db) : Type 0 where
  pub fresh : any (collides d) db.inbox ≡ false
  pub recorded : db'.inbox ≡ db.inbox ++ inbox_row d ∷ []

abbrev pub Effect : VerifiedDelivery → Db → Db → Result Code AcceptResult → Type 0
Effect d db db' (ok (new_enqueued id)) =
    Entered d db db'
    × (d.disposition ≡ enqueued)
    × (taken id db ≡ false)
    × ((r : OutboxRow) × (db'.outbox ≡ db.outbox ++ r ∷ [])
        × (r.id ≡ id)
        × (r.delivery_id ≡ d.delivery_id)
        × (r.state ≡ pending)
        × (r.sequence ≡ db.next_sequence))
Effect d db db' (ok new_ignored) =
    Entered d db db' × (d.disposition ≢ enqueued) × (db'.outbox ≡ db.outbox)
Effect d db db' (ok duplicate_same_delivery) =
    (db' ≡ db)
    × ((r : InboxRow) × (find (has_delivery d.receiver_id d.delivery_id) db.inbox ≡ some r)
        × (str_eq r.intake_fingerprint d.intake_fingerprint ≡ true))
Effect d db db' (ok delivery_conflicted) =
    (db'.outbox ≡ db.outbox)
    × ((r : InboxRow) × (find (has_delivery d.receiver_id d.delivery_id) db.inbox ≡ some r)
        × (str_eq r.intake_fingerprint d.intake_fingerprint ≡ false))
Effect d db db' (err e) = db' ≡ db

abbrev TxEffect : VerifiedDelivery → Db → Result Code (Db × AcceptResult) → Type 0
TxEffect d db (ok (db', r)) = Effect d db db' (ok r)
TxEffect d db (err e) = Unit

module _ (env : Environment) (d : VerifiedDelivery) where
  resolve_existing-Effect :
      (db : Db) (found : Option InboxRow)
      → find (has_delivery d.receiver_id d.delivery_id) db.inbox ≡ found
      → TxEffect d db (resolve_existing env d db found)
  unfolding resolve_existing
  resolve_existing-Effect db none h = tt
  resolve_existing-Effect db (some r) h =
      elim (Bool-cases (str_eq r.intake_fingerprint d.intake_fingerprint)) [
        | inl same ↦ rw same (elim (Bool-cases (env.fails commit_tx)) [
          | inl fail ↦ rw fail tt
          | inr go ↦ rw go (refl, (r, h, same))
        ])
        | inr other ↦ rw other (elim (Bool-cases (env.fails commit_tx)) [
          | inl fail ↦ rw fail tt
          | inr go ↦ rw go (ground arith, (r, h, other))
        ])
      ]

  insert_new-Effect :
      (outbox_id projection receipt : String) (k : Disposition) (db : Db)
      → d.disposition ≡ k
      → any (collides d) db.inbox ≡ false
      → TxEffect d db (insert_new env d outbox_id projection receipt k (entered d db))
  unfolding insert_new
  insert_new-Effect id p r enqueued db e h =
      elim (Bool-cases (env.fails insert_outbox || taken id db)) [
        | inl fail ↦ rw fail tt
        | inr free ↦ rw free (elim (Bool-cases (env.fails commit_tx)) [
          | inl fail ↦ rw fail tt
          | inr go ↦ rw go (
            record { fresh = h; recorded = refl },
            e,
            ground arith,
            (outbox_row d id p r db.next_sequence, refl, refl, refl, refl, refl),
          )
        ])
      ]
  insert_new-Effect id p r ignored db e h = elim (Bool-cases (env.fails commit_tx)) [
    | inl fail ↦ rw fail tt
    | inr go ↦ rw go (record { fresh = h; recorded = refl }, ground arith, refl)
  ]
  insert_new-Effect id p r (other_disposition s) db e h = elim (Bool-cases (env.fails commit_tx)) [
    | inl fail ↦ rw fail tt
    | inr go ↦ rw go (record { fresh = h; recorded = refl }, ground arith, refl)
  ]

  accept_tx-Effect :
      (outbox_id projection receipt : String) (db : Db)
      → TxEffect d db (accept_tx env d outbox_id projection receipt db)
  unfolding accept_tx
  accept_tx-Effect id p r db = elim (Bool-cases (env.fails begin_tx)) [
    | inl fail ↦ rw fail tt
    | inr go ↦ rw go (elim (Bool-cases (env.fails insert_inbox)) [
      | inl fail ↦ rw fail tt
      | inr go' ↦ rw go' (elim (Bool-cases (any (collides d) db.inbox)) [
        | inl hit ↦ rw hit (elim (Bool-cases (env.fails read_existing)) [
          | inl fail ↦ rw fail tt
          | inr go'' ↦ rw go'' (resolve_existing-Effect db _ refl)
        ])
        | inr new ↦ rw new (insert_new-Effect id p r d.disposition db refl new)
      ])
    ])
  ]

  bind-Effect :
      {A : Type 0} (db : Db) (m : Result Code A) (f : A → Result Code (Db × AcceptResult))
      → ((a : A) → TxEffect d db (f a))
      → TxEffect d db (m >>= f)
  bind-Effect db (ok a) f h = h a
  bind-Effect db (err e) f h = tt

  transact-Effect :
      (db : Db) (tx : Result Code (Db × AcceptResult))
      → TxEffect d db tx
      → Effect d db (transact db tx).0 (transact db tx).1
  transact-Effect db (ok (db', r)) h = h
  transact-Effect db (err e) h = refl

  -- Every result says what happened to the tables: a new delivery was in no row before, is the
  -- inbox's last row now, and gets a pending outbox row, of an unused id and the next sequence
  -- number, exactly if it is to be processed; a duplicate changes nothing; a conflict leaves the
  -- outbox alone; and a call that fails leaves the tables as they were.
  pub accept-Effect :
      (receiver outbox_id : String) (db : Db)
      → let (db', r) = accept env receiver outbox_id d db in Effect d db db' r
  unfolding accept
  accept-Effect receiver id db = transact-Effect db _ (
      bind-Effect db (validate_delivery receiver d) _ λ _.
        bind-Effect db (compact_json d.projection_json) _
          λ p. bind-Effect db (compact_json d.receipt_json) _ λ r. accept_tx-Effect id p r db)
