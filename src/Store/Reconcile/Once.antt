-- ===== src/Store/Reconcile/Once.antt =====
-- A delivery is processed once.
use glassroot.Common.{
  ◌≡◌, refl, sym, subst, String, true, not, Option, none, some, List, [], ◌∷◌, ◌++◌, count, find,
  select, str_eq, eq_iff, Result, ok, >>=-eq-ok, reject_if, arith,
}
use glassroot.Store.Leases.{
  transaction_failed, ReconcileLease, LeaseRow, Environment, holds, release_reconcile_lease,
  begin_tx, commit_tx, processed_insert, processed_read,
}
use glassroot.Store.Leases.Exclusion.{works}
use glassroot.Store.Work.{duplicate_processed, Hashes, ReconcileResult}
use glassroot.Store.Reconcile.{
  ProcessedDelivery, ProcessedRow, Db, PullRequestReconcileInput, ApplyCode, of_store,
  processed_delivery_conflict, lift, validate_input, is_processed, duplicate, processed_row,
  decide_snapshot, apply_new, apply_found, apply_pull_request_snapshot,
}

-- The delivery is recorded with what was answered.
abbrev pub Recorded : ProcessedDelivery → ReconcileResult → List ProcessedRow → Type 0
Recorded p r rows =
    (row : ProcessedRow) × (find (is_processed p) rows ≡ some row)
    × (str_eq row.projection_digest p.projection_digest ≡ true)
    × (row.generation ≡ r.generation)
    × (row.target_id ≡ r.target_id)
    × (row.job_id ≡ r.job_id)

pub str_eq_refl : (s : String) → str_eq s s ≡ true
str_eq_refl s = (eq_iff s s).1 refl

pub find-none-append :
    (p : ProcessedDelivery) (r : ReconcileResult) (rows : List ProcessedRow)
    → find (is_processed p) rows ≡ none
    → find (is_processed p) (rows ++ processed_row p r ∷ []) ≡ some (processed_row p r)
find-none-append p r [] h = rw (str_eq_refl p.receiver_id, str_eq_refl p.outbox_id) refl
find-none-append p r (x ∷ xs) h = ground (arith, find-none-append p r xs)

pub ok-db :
    (a b : Db) (r q : ReconcileResult)
    → ◌≡◌ {A = Result ApplyCode (Db × ReconcileResult)} (ok (a, r)) (ok (b, q))
    → (a ≡ b) × (r ≡ q)
ok-db a b r q h = (cc, cc)

apply_new-Recorded :
    (fails : Environment) (hashes : Hashes) (input : PullRequestReconcileInput) (db after : Db)
    (q : ReconcileResult)
    → find (is_processed input.processed) db.processed ≡ none
    → apply_new fails hashes input db ≡ ok (after, q)
    → Recorded input.processed q after.processed
unfolding apply_new
apply_new-Recorded fails hashes input db after q e h =
    let (r, _, h₁) =
      >>=-eq-ok (lift (decide_snapshot fails hashes input.lease.key input.snapshot db.work)) _ h in
    let (_, _, h₂) =
      >>=-eq-ok (reject_if (fails processed_insert) (of_store transaction_failed)) _ h₁ in
    let (leases, _, h₃) =
      >>=-eq-ok (lift (release_reconcile_lease fails input.lease db.leases)) _ h₂ in
    let (_, _, h₄) = >>=-eq-ok (reject_if (fails commit_tx) (of_store transaction_failed)) _ h₃ in
    let (rows, same) = ok-db _ after r.1 q h₄ in
    subst (λ d. Recorded input.processed q d.processed) rows
      (subst
        (λ m. Recorded input.processed m (db.processed ++ processed_row input.processed r.1 ∷ []))
        same
        (
          processed_row input.processed r.1,
          find-none-append input.processed r.1 db.processed e,
          str_eq_refl input.processed.projection_digest,
          refl,
          refl,
          refl,
        ))

apply_found-Recorded :
    (fails : Environment) (hashes : Hashes) (input : PullRequestReconcileInput) (db after : Db)
    (q : ReconcileResult) (found : Option ProcessedRow)
    → find (is_processed input.processed) db.processed ≡ found
    → apply_found fails hashes input db found ≡ ok (after, q)
    → Recorded input.processed q after.processed
unfolding apply_found
apply_found-Recorded fails hashes input db after q none e h =
    apply_new-Recorded fails hashes input db after q e h
apply_found-Recorded fails hashes input db after q (some row) e h =
    let (_, same_digest, h₁) =
      >>=-eq-ok
        (reject_if (not (str_eq row.projection_digest input.processed.projection_digest))
          processed_delivery_conflict)
        _ h in
    let (leases, _, h₂) =
      >>=-eq-ok (lift (release_reconcile_lease fails input.lease db.leases)) _ h₁ in
    let (_, _, h₃) = >>=-eq-ok (reject_if (fails commit_tx) (of_store transaction_failed)) _ h₂ in
    let (rows, same) = ok-db _ after (duplicate row) q h₃ in
    subst (λ d. Recorded input.processed q d.processed) rows
      (subst (λ m. Recorded input.processed m db.processed) same
        (row, e, ground (arith, same_digest), refl, refl, refl))

released_ok :
    (l : ReconcileLease) (rows : List LeaseRow)
    → count (holds l) rows ≡ 1
    → release_reconcile_lease works l rows ≡ ok (select (λ r. not (holds l r)) rows)
unfolding release_reconcile_lease
released_ok l rows h = rw h refl

-- After a delivery was processed, the same delivery (with any snapshot, under any lease that is held, and
-- whatever leases were given and taken meanwhile) is answered as a duplicate with the generation, target
-- and job of the first answer, on a database that works; and only the lease is released.
pub apply_pull_request_snapshot_once :
    (fails : Environment) (hashes hashes' : Hashes) (receiver : String)
    (input again : PullRequestReconcileInput) (db after : Db) (q : ReconcileResult)
    (leases : List LeaseRow)
    → apply_pull_request_snapshot fails hashes receiver input db ≡ ok (after, q)
    → again.processed ≡ input.processed
    → validate_input receiver again ≡ ok tt
    → count (holds again.lease) leases ≡ 1
    → (p : ReconcileResult) × (apply_pull_request_snapshot works hashes' receiver again
          (record after { leases = leases })
        ≡ ok (record after { leases = select (λ r. not (holds again.lease r)) leases }, p))
      × (p.decision ≡ duplicate_processed)
      × (p.generation ≡ q.generation)
      × (p.target_id ≡ q.target_id)
      × (p.job_id ≡ q.job_id)
unfolding apply_pull_request_snapshot apply_found
apply_pull_request_snapshot_once fails hashes hashes' receiver input again db after q leases h same
      valid held =
    let (_, _, h₁) = >>=-eq-ok (lift (validate_input receiver input)) _ h in
    let (_, _, h₂) = >>=-eq-ok (reject_if (fails begin_tx) (of_store transaction_failed)) _ h₁ in
    let (_, _, h₃) =
      >>=-eq-ok (reject_if (fails processed_read) (of_store transaction_failed)) _ h₂ in
    let (row, found, digest, g, t, j) =
      apply_found-Recorded fails hashes input db after q
        (find (is_processed input.processed) db.processed) refl h₃ in
    let found' : find (is_processed again.processed) after.processed ≡ some row =
      subst (λ p. find (is_processed p) after.processed ≡ some row) (sym same) found in
    let digest' : str_eq row.projection_digest again.processed.projection_digest ≡ true =
      subst (λ (p : ProcessedDelivery). str_eq row.projection_digest p.projection_digest ≡ true)
        (sym same) digest in
    (
      duplicate row,
      rw (valid, found', digest', released_ok again.lease leases held) refl,
      refl,
      g,
      t,
      j,
    )
