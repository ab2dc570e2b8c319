-- ===== src/Store/Record.antt =====
-- `RecordProcessingDecision` (internal/githubcontrollerstore/store.go): a decision without a snapshot.
use glassroot.Common.{
  ◌≡◌, refl, subst, String, Bool, true, not, ◌||◌, Option, none, some, [], ◌∷◌, ◌++◌, find, str_eq,
  valid_digest, Result, ok, ◌>>◌, >>=-eq-ok, reject_if, arith, Time, valid_time,
}
use glassroot.Store.Leases.{
  record_invalid, transaction_failed, Environment, begin_tx, commit_tx, processed_read,
  processed_insert,
}
use glassroot.Store.Leases.Exclusion.{works}
use glassroot.Store.Work.{unset, ProcessingDecision, duplicate_processed, ReconcileResult}
use glassroot.Store.Reconcile.{
  ProcessedDelivery, ProcessedRow, Db, ApplyCode, of_store, processed_delivery_conflict,
  is_processed, duplicate, processed_row, result,
}
use glassroot.Store.Reconcile.Once.{Recorded, str_eq_refl, find-none-append, ok-db}

unfoldable pub record_found :
    Environment
    → ProcessedDelivery
    → ProcessingDecision
    → Db
    → Option ProcessedRow
    → Result ApplyCode (Db × ReconcileResult)
record_found fails p decision db none = do
  let r = result decision 0 "" "" "" "" unset
  reject_if (fails processed_insert) (of_store transaction_failed)
  reject_if (fails commit_tx) (of_store transaction_failed)
  ok (record db { processed = db.processed ++ processed_row p r ∷ [] }, r)
record_found fails p decision db (some row) = do
  reject_if (not (str_eq row.projection_digest p.projection_digest)) processed_delivery_conflict
  ok (db, duplicate row)

abbrev pub accepts : String → ProcessedDelivery → Time → Bool
accepts receiver p at = not (
    not (str_eq p.receiver_id receiver)
    || str_eq p.outbox_id ""
    || not (valid_digest p.projection_digest)
    || not (valid_time at))

-- The result, with the database after it.
unfoldable pub record_processing_decision :
    Environment
    → String
    → ProcessedDelivery
    → ProcessingDecision
    → Time
    → Db
    → Result ApplyCode (Db × ReconcileResult)
record_processing_decision fails receiver p decision at db = do
  reject_if (not (accepts receiver p at)) (of_store record_invalid)
  reject_if (fails begin_tx) (of_store transaction_failed)
  reject_if (fails processed_read) (of_store transaction_failed)
  record_found fails p decision db (find (is_processed p) db.processed)

-- The delivery is recorded, and nothing else is changed.
abbrev pub OnlyRecorded : ProcessedDelivery → Db → Db → ReconcileResult → Type 0
OnlyRecorded p db after q =
    Recorded p q after.processed × (after.work ≡ db.work) × (after.leases ≡ db.leases)

record_found-OnlyRecorded :
    (fails : Environment) (p : ProcessedDelivery) (decision : ProcessingDecision) (db after : Db)
    (q : ReconcileResult) (found : Option ProcessedRow)
    → find (is_processed p) db.processed ≡ found
    → record_found fails p decision db found ≡ ok (after, q)
    → OnlyRecorded p db after q
unfolding record_found
record_found-OnlyRecorded fails p decision db after q none e h =
    let r = result decision 0 "" "" "" "" unset in
    let (_, _, h₁) =
      >>=-eq-ok (reject_if (fails processed_insert) (of_store transaction_failed)) _ h in
    let (_, _, h₂) = >>=-eq-ok (reject_if (fails commit_tx) (of_store transaction_failed)) _ h₁ in
    let (rows, same) = ok-db _ after r q h₂ in
    subst (λ d. OnlyRecorded p db d q) rows
      (
        subst (λ m. Recorded p m (db.processed ++ processed_row p r ∷ [])) same
            (
              processed_row p r,
              find-none-append p r db.processed e,
              str_eq_refl p.projection_digest,
              refl,
              refl,
              refl,
            ),
        refl,
        refl,
      )
record_found-OnlyRecorded fails p decision db after q (some row) e h =
    let (_, same_digest, h₁) =
      >>=-eq-ok
        (reject_if (not (str_eq row.projection_digest p.projection_digest))
          processed_delivery_conflict)
        _ h in
    let (rows, same) = ok-db db after (duplicate row) q h₁ in
    subst (λ d. OnlyRecorded p db d q) rows
      (
        subst (λ m. Recorded p m db.processed) same
            (row, e, ground (arith, same_digest), refl, refl, refl),
        refl,
        refl,
      )

-- Recording a decision changes neither the work nor the leases; and recording any decision for the same
-- delivery again, at any valid time and on a database that works, changes nothing and answers that the
-- delivery is a duplicate, with the generation, target and job of the first answer.
pub record_processing_decision_once :
    (fails : Environment) (receiver : String) (p : ProcessedDelivery)
    (decision other : ProcessingDecision) (at again : Time) (db after : Db) (q : ReconcileResult)
    → record_processing_decision fails receiver p decision at db ≡ ok (after, q)
    → accepts receiver p again ≡ true
    → (after.work ≡ db.work)
      × (after.leases ≡ db.leases)
      × (r : ReconcileResult) × (record_processing_decision works receiver p other again after
          ≡ ok (after, r))
      × (r.decision ≡ duplicate_processed)
      × (r.generation ≡ q.generation)
      × (r.target_id ≡ q.target_id)
      × (r.job_id ≡ q.job_id)
unfolding record_processing_decision record_found
record_processing_decision_once fails receiver p decision other at again db after q h valid =
    let (_, _, h₁) =
      >>=-eq-ok (reject_if (not (accepts receiver p at)) (of_store record_invalid)) _ h in
    let (_, _, h₂) = >>=-eq-ok (reject_if (fails begin_tx) (of_store transaction_failed)) _ h₁ in
    let (_, _, h₃) =
      >>=-eq-ok (reject_if (fails processed_read) (of_store transaction_failed)) _ h₂ in
    let (kept, work, leases) =
      record_found-OnlyRecorded fails p decision db after q (find (is_processed p) db.processed)
        refl h₃ in
    let (row, found, digest, g, t, j) = kept in
    (work, leases, duplicate row, rw (valid, found, digest) refl, refl, g, t, j)
