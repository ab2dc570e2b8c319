-- ===== src/Inbox/Accept/Idempotent.antt =====
-- A delivery that was taken is taken once: giving it again changes nothing.
use glassroot.Common.{
  String, ◌≡◌, ◌≢◌, refl, true, false, some, [], ◌∷◌, str_eq, eq_iff, any, find, ok, >>=-eq-ok,
  arith, find-append, any_mono, any-find, Bool-cases, inl, inr,
}
use glassroot.Inbox.Tables.{
  InboxRow, Db, Environment, Statement, transact-eq-ok, begin_tx, insert_inbox, read_existing,
  commit_tx,
}
use glassroot.Inbox.Accept.{
  VerifiedDelivery, AcceptResult, new_enqueued, new_ignored, duplicate_same_delivery,
  delivery_conflicted, has_delivery, collides, inbox_row, accept, accept_tx, validate_delivery,
  compact_json,
}
use glassroot.Inbox.Accept.Effect.{Entered, Effect, accept-Effect}

-- The database fails no statement.
abbrev pub Reliable : Environment → Type 0
Reliable env = (s : Statement) → env.fails s ≡ false

-- The inbox has the delivery, with its fingerprint.
abbrev Known : VerifiedDelivery → Db → Type 0
Known d db =
    (r : InboxRow) × (find (has_delivery d.receiver_id d.delivery_id) db.inbox ≡ some r)
    × (str_eq r.intake_fingerprint d.intake_fingerprint ≡ true)

str_eq_self : (s : String) → str_eq s s ≡ true
str_eq_self s = (eq_iff s s).1 refl

Entered-Known : (d : VerifiedDelivery) (db db' : Db) → Entered d db db' → Known d db'
Entered-Known d db db' h = (
  inbox_row d,
  rw
      (
        h.recorded,
        find-append (has_delivery d.receiver_id d.delivery_id) db.inbox (inbox_row d ∷ []),
        any_mono (has_delivery d.receiver_id d.delivery_id) (collides d) db.inbox
            (λ r e. ground arith) h.fresh,
      )
      (ground (arith, str_eq_self d.receiver_id, str_eq_self d.delivery_id)),
  str_eq_self d.intake_fingerprint,
)

Effect-Known :
    (d : VerifiedDelivery) (db db' : Db) (r : AcceptResult)
    → r ≢ delivery_conflicted
    → Effect d db db' (ok r)
    → Known d db'
Effect-Known d db db' (new_enqueued id) n h = Entered-Known d db db' h.0
Effect-Known d db db' new_ignored n h = Entered-Known d db db' h.0
Effect-Known d db db' duplicate_same_delivery n h = rw h.0 h.1
Effect-Known d db db' delivery_conflicted n h = absurd (n refl)

Known-collides : (d : VerifiedDelivery) (db : Db) → Known d db → any (collides d) db.inbox ≡ true
Known-collides d db (row, found, same) = elim (Bool-cases (any (collides d) db.inbox)) [
  | inl hit ↦ hit
  | inr miss ↦ cc (
    any-find (has_delivery d.receiver_id d.delivery_id) db.inbox row found,
    any_mono (has_delivery d.receiver_id d.delivery_id) (collides d) db.inbox (λ r e. ground arith)
        miss,
  )
]

Known-duplicate :
    (env : Environment) (d : VerifiedDelivery) (id p r : String) (db : Db)
    → Reliable env
    → Known d db
    → accept_tx env d id p r db ≡ ok (db, duplicate_same_delivery)
unfolding accept_tx
Known-duplicate env d id p r db quiet (row, found, same) =
    rw
      (
        quiet begin_tx,
        quiet insert_inbox,
        Known-collides d db (row, found, same),
        quiet read_existing,
        found,
      )
      (rw same (rw (quiet commit_tx)))

-- What an accepted delivery has passed before its transaction.
record Admitted (receiver : String) (d : VerifiedDelivery) : Type 0 where
  valid : validate_delivery receiver d ≡ ok tt
  projection : String
  projection_encoded : compact_json d.projection_json ≡ ok projection
  receipt : String
  receipt_encoded : compact_json d.receipt_json ≡ ok receipt

accept-Admitted :
    (env : Environment) (receiver id : String) (d : VerifiedDelivery) (db : Db) {r : AcceptResult}
    → (accept env receiver id d db).1 ≡ ok r
    → Admitted receiver d
unfolding accept
accept-Admitted env receiver id d db h =
    let ran = transact-eq-ok db _ h in
    let (_, v, ran₁) = >>=-eq-ok (validate_delivery receiver d) _ ran in
    let (p, ep, ran₂) = >>=-eq-ok (compact_json d.projection_json) _ ran₁ in
    let (q, eq, ran₃) = >>=-eq-ok (compact_json d.receipt_json) _ ran₂ in
    record { valid = v; projection = p; projection_encoded = ep; receipt = q; receipt_encoded = eq }

Admitted-duplicate :
    (env : Environment) (receiver id : String) (d : VerifiedDelivery) (db : Db)
    → Reliable env
    → Admitted receiver d
    → Known d db
    → accept env receiver id d db ≡ (db, ok duplicate_same_delivery)
unfolding accept
Admitted-duplicate env receiver id d db quiet a known =
    rw (a.valid, a.projection_encoded, a.receipt_encoded)
      (rw (Known-duplicate env d id a.projection a.receipt db quiet known))

-- A delivery that was accepted, whatever the database did meanwhile for the first call, is a
-- duplicate when it comes again and no statement fails, and the tables stay as they are.
pub accept_again :
    (env again : Environment) (receiver id id' : String) (d : VerifiedDelivery) (db : Db)
    (r : AcceptResult)
    → Reliable again
    → r ≢ delivery_conflicted
    → (accept env receiver id d db).1 ≡ ok r
    → let db' = (accept env receiver id d db).0 in
      accept again receiver id' d db' ≡ (db', ok duplicate_same_delivery)
accept_again env again receiver id id' d db r quiet n h =
    let db' = (accept env receiver id d db).0 in
    Admitted-duplicate again receiver id' d db' quiet (accept-Admitted env receiver id d db h)
      (Effect-Known d db db' r n (rw h at (accept-Effect env d receiver id db)))
