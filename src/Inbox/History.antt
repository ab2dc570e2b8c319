-- ===== src/Inbox/History.antt =====
-- What holds of the inbox over every sequence of its operations, whoever makes them and whichever
-- statements fail.
pub mod Rows
use glassroot.Common.{
  ℕ, String, ◌+◌, ◌≤◌, ◌≡◌, ◌≢◌, refl, sym, ap, subst, Bool, true, not, ◌||◌, Option, none, List,
  [], ◌∷◌, ◌++◌, map, str_eq, Result, Result-cases, add_nanos, ok, err, ◌==◌, Time, valid_time,
  Bool-cases, inl, inr, ◌⊎◌, any, Unique, Unique-map, Unique-append_one,
}
use glassroot.Inbox.Tables.{Code, InboxRow, acknowledged, Db, Environment}
use glassroot.Inbox.Accept.{
  VerifiedDelivery, AcceptResult, new_enqueued, new_ignored, duplicate_same_delivery,
  delivery_conflicted, accept,
}
use glassroot.Inbox.Accept.Effect.{Effect, accept-Effect}
use glassroot.Inbox.Lease.{Limits, LeasedRecord, Finish, claim_outbox, finish_lease}
use glassroot.Inbox.Lease.Pass.{same_id}
use glassroot.Inbox.Lease.Claim.{claim_outbox-eq-pass, claim_outbox_error}
use glassroot.Inbox.Lease.Fencing.{finish_lease-Held, finish_lease_error}
use Rows.{
  Later, Later-refl, Later-trans, Keeps, Keeps-refl, Keeps-append, Keeps-pass, Keeps-finish,
  Unique-pass, Unique-finish, Unique-enqueue,
}

-- One operation of the store, in any environment.
pub data Step (db db' : Db) : Type 0 where
  accepts :
      (env : Environment) (receiver id : String) (d : VerifiedDelivery)
      → db' ≡ (accept env receiver id d db).0
      → Step db db'
  claims :
      (env : Environment) (limits : Limits) (owner : String) (now : Time) (duration limit : ℕ)
      → db' ≡ (claim_outbox env limits owner now duration limit db).0
      → Step db db'
  finishes :
      (env : Environment) (id owner : String) (generation : ℕ) (when : Time) (finish : Finish)
      → db' ≡ (finish_lease env id owner generation when finish db).0
      → Step db db'

pub data Reach (db : Db) : Db → Type 0 where
  here : Reach db db
  next : {db₁ db₂ : Db} → Reach db db₁ → Step db₁ db₂ → Reach db db₂

-- No two outbox rows have one id (the UNIQUE constraint on `id`).
abbrev pub IsValid : Db → Type 0
IsValid db = Unique same_id db.outbox

abbrev Good : Db → Db → Type 0
Good db db' = IsValid db' × Keeps db.outbox db'.outbox

same-Good : (db db' : Db) → IsValid db → db'.outbox ≡ db.outbox → Good db db'
same-Good db db' v e = (rw e v, rw e (Keeps-refl db.outbox))

unchanged-Good : {db db' : Db} → IsValid db → db' ≡ db → Good db db'
unchanged-Good {db} {db'} v e = same-Good db db' v (ap (λ (x : Db). x.outbox) e)

Effect-Good :
    (d : VerifiedDelivery) (db db' : Db) (r : Result Code AcceptResult)
    → IsValid db
    → Effect d db db' r
    → Good db db'
Effect-Good d db db' (ok (new_enqueued id)) v (entered, k, free, (r, e, same, _, _, _)) =
    (rw e (Unique-enqueue db.outbox r v (rw same free)), rw e (Keeps-append db.outbox r))
Effect-Good d db db' (ok new_ignored) v h = same-Good db db' v h.2
Effect-Good d db db' (ok duplicate_same_delivery) v h = unchanged-Good v h.0
Effect-Good d db db' (ok delivery_conflicted) v h = same-Good db db' v h.0
Effect-Good d db db' (err e) v h = unchanged-Good v h

claims-Good :
    (env : Environment) (limits : Limits) (owner : String) (now : Time) (duration limit : ℕ)
    (db : Db)
    → IsValid db
    → Good db (claim_outbox env limits owner now duration limit db).0
claims-Good env limits owner now duration limit db v =
    elim (Result-cases (claim_outbox env limits owner now duration limit db).1) [
      | inl (cs, h) ↦ rw (claim_outbox-eq-pass env owner now duration limit db v limits cs h).0 (
        Unique-pass owner now (add_nanos now duration) limit db.outbox v,
        Keeps-pass owner now (add_nanos now duration) limit db.outbox,
      )
      | inr (e, h) ↦
          unchanged-Good v (claim_outbox_error env owner now duration limit db v limits e h)
    ]

finishes-Good :
    (env : Environment) (id owner : String) (generation : ℕ) (when : Time) (finish : Finish)
    (db : Db)
    → IsValid db
    → Good db (finish_lease env id owner generation when finish db).0
finishes-Good env id owner generation when finish db v =
    elim (Result-cases (finish_lease env id owner generation when finish db).1) [
      | inl (u, h) ↦
          let (r, held) = finish_lease-Held env id owner generation finish db when h in
          elim held.effect [
            | inl (_, e) ↦
                rw e (Unique-finish id finish db.outbox v, Keeps-finish id finish db.outbox)
            | inr (_, _, e) ↦ unchanged-Good v e
          ]
      | inr (e, h) ↦
          unchanged-Good v (finish_lease_error env id owner generation finish db when e h)
    ]

Step-Good : {db db' : Db} → IsValid db → Step db db' → Good db db'
Step-Good {db} {db'} v (accepts env receiver id d e) =
    rw e (Effect-Good d db _ _ v (accept-Effect env d receiver id db))
Step-Good {db} {db'} v (claims env limits owner now duration limit e) =
    rw e (claims-Good env limits owner now duration limit db v)
Step-Good {db} {db'} v (finishes env id owner generation when finish e) =
    rw e (finishes-Good env id owner generation when finish db v)

pub Reach-IsValid : {db db' : Db} → IsValid db → Reach db db' → IsValid db'
Reach-IsValid v here = v
Reach-IsValid v (next r s) = (Step-Good (Reach-IsValid v r) s).0

-- From a valid store, whatever operations follow, no outbox row is lost, and neither its lease
-- generation nor its count of attempts ever falls.
pub Reach-Keeps : {db db' : Db} → IsValid db → Reach db db' → Keeps db.outbox db'.outbox
Reach-Keeps {db} v here id r found = Keeps-refl db.outbox id r found
Reach-Keeps v (next reach s) id r found =
    let (r₁, found₁, later₁) = Reach-Keeps v reach id r found in
    let (r₂, found₂, later₂) = (Step-Good (Reach-IsValid v reach) s).1 id r₁ found₁ in
    (r₂, found₂, Later-trans r r₁ r₂ later₁ later₂)
