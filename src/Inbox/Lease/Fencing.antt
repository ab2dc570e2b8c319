-- ===== src/Inbox/Lease/Fencing.antt =====
-- Finishing a lease: the generation is a fencing token.
use glassroot.Common.{
  ℕ, String, ◌≡◌, refl, true, not, ◌||◌, Option, none, some, map, str_eq, ok, err, reject_if,
  >>=-eq-ok, arith, ◌==◌, Time, valid_time, inl, inr, ◌⊎◌, find,
}
use glassroot.Inbox.Tables.{
  Code, transaction_failed, stale_lease, OutboxRow, OutboxState, pending, leased, acknowledged, Db,
  Environment, begin_tx, lease_read, transact-eq-ok, transact-eq-err,
}
use glassroot.Inbox.Lease.{
  Finish, ack, release, with_id, owner_text, set_finished, update_finished, finish_state,
  finish_found, finish_lease,
}

-- The row is held under this owner and generation, and what the call does to it.
pub record Held (id owner : String) (generation : ℕ) (finish : Finish) (db db' : Db) (r : OutboxRow)
    : Type 0 where
  pub found : find (with_id id) db.outbox ≡ some r
  pub owned : str_eq (owner_text r.lease_owner) owner ≡ true
  pub current : r.lease_generation ≡ generation
  pub effect :
      ((r.state ≡ leased) × (db' ≡ record db { outbox = map (set_finished id finish) db.outbox }))
      ⊎ ((r.state ≡ acknowledged) × (finish ≡ ack) × (db' ≡ db))

module _ (env : Environment) (id owner : String) (generation : ℕ) (finish : Finish) (db : Db) where
  update_finished-eq-ok :
      (p : Db × Unit {0})
      → update_finished env id finish db ≡ ok p
      → p.0 ≡ record db { outbox = map (set_finished id finish) db.outbox }
  unfolding update_finished
  update_finished-eq-ok p h = ground arith

  finish_state-eq-ok :
      (f : Finish) (st : OutboxState) (p : Db × Unit {0})
      → finish_state env id f st db ≡ ok p
      → f ≡ finish
      → ((st ≡ leased) × (p.0 ≡ record db { outbox = map (set_finished id finish) db.outbox }))
        ⊎ ((st ≡ acknowledged) × (finish ≡ ack) × (p.0 ≡ db))
  unfolding finish_state
  finish_state-eq-ok ack acknowledged p h e = inr (refl, cc, cc)
  finish_state-eq-ok ack leased p h e = inl (refl, update_finished-eq-ok p (rw e at h))
  finish_state-eq-ok ack pending p h e = cc
  finish_state-eq-ok (release c) leased p h e = inl (refl, update_finished-eq-ok p (rw e at h))
  finish_state-eq-ok (release c) pending p h e = cc
  finish_state-eq-ok (release c) acknowledged p h e = cc

  finish_found-eq-ok :
      (o : Option OutboxRow) (p : Db × Unit {0})
      → find (with_id id) db.outbox ≡ o
      → finish_found env id owner generation finish db o ≡ ok p
      → (r : OutboxRow) × Held id owner generation finish db p.0 r
  unfolding finish_found
  finish_found-eq-ok none p e h = cc
  finish_found-eq-ok (some r) p e h =
      let (_, checked, h₁) =
        >>=-eq-ok
          (reject_if
            (not (str_eq (owner_text r.lease_owner) owner)
              || not (r.lease_generation == generation))
            stale_lease)
          _ h in
      (
        r,
        record {
          found = e;
          owned = ground arith;
          current = ground arith;
          effect = finish_state-eq-ok finish r.state p h₁ refl;
        },
      )

  pub finish_lease-Held :
      (when : Time)
      → (finish_lease env id owner generation when finish db).1 ≡ ok tt
      → (r : OutboxRow) × Held id owner generation finish db
          (finish_lease env id owner generation when finish db).0
          r
  unfolding finish_lease
  finish_lease-Held when h =
      let ran = transact-eq-ok db _ h in
      let (_, _, h₁) =
        >>=-eq-ok
          (reject_if (str_eq id "" || str_eq owner "" || generation == 0 || not (valid_time when))
            stale_lease)
          _ ran in
      let (_, _, h₂) = >>=-eq-ok (reject_if (env.fails begin_tx) transaction_failed) _ h₁ in
      let (_, _, h₃) = >>=-eq-ok (reject_if (env.fails lease_read) transaction_failed) _ h₂ in
      finish_found-eq-ok (find (with_id id) db.outbox) _ refl h₃

  pub finish_lease_error :
      (when : Time) (e : Code)
      → (finish_lease env id owner generation when finish db).1 ≡ err e
      → (finish_lease env id owner generation when finish db).0 ≡ db
  unfolding finish_lease
  finish_lease_error when e h = transact-eq-err db _ h
