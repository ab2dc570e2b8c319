-- ===== src/Store/Leases/Exclusion.antt =====
-- Who can have the lease of a pull request, and when.
use glassroot.Common.{
  ℕ, suc, ◌+◌, ◌≡◌, refl, sym, ap, subst, String, true, false, not, ◌||◌, Option, none, some, List,
  [], ◌∷◌, ◌++◌, map, count, find, select, Result, ok, err, >>=-eq-ok, reject_if, if◌then◌else◌,
  ltb, ◌==◌, Time, valid_time, add_nanos, format_time, parse_time, arith, Bool-cases, inl, inr,
}
use glassroot.Common.Int.{eq_ℤ_refl, max_int64}
use glassroot.Store.Leases.{
  Code, record_invalid, transaction_failed, reconcile_lease_busy, reconcile_lease_stale,
  generation_overflow, PrKey, ReconcileLease, LeaseRow, Environment, invalid_key, valid_id,
  same_key, with_key, lease, row_of, set_lease, acquire_found, acquire_reconcile_lease, holds,
  release_reconcile_lease, lease_release, lease_insert, lease_update, commit_tx, begin_tx,
  lease_read,
}

pub same_key_refl : (k : PrKey) → same_key k k ≡ true
same_key_refl k =
    rw
      (eq_ℤ_refl k.installation_id, eq_ℤ_refl k.base_repository_id, eq_ℤ_refl k.pull_request_number)
      refl

-- The row that stands for a lease, as a later call finds it.
abbrev pub Leased : ReconcileLease → List LeaseRow → Type 0
Leased l leases =
    (r : LeaseRow) × (find (with_key l.key) leases ≡ some r)
    × (r.owner ≡ l.owner)
    × (r.lease_generation ≡ l.generation)
    × (r.expires_at ≡ format_time l.expires_at)

find-new :
    (l : ReconcileLease) (leases : List LeaseRow)
    → find (with_key l.key) leases ≡ none
    → find (with_key l.key) (leases ++ row_of l ∷ []) ≡ some (row_of l)
find-new l [] h = rw (same_key_refl l.key) refl
find-new l (r ∷ rs) h = ground (arith, find-new l rs)

find-set :
    (l : ReconcileLease) (leases : List LeaseRow) (r : LeaseRow)
    → find (with_key l.key) leases ≡ some r
    → find (with_key l.key) (map (set_lease l) leases) ≡ some (record (row_of l) { key = r.key })
find-set l [] r h = cc
find-set l (x ∷ xs) r h = elim (Bool-cases (with_key l.key x)) [
  | inl hit ↦
      subst
        (λ (y : LeaseRow).
          find (with_key l.key) (map (set_lease l) (x ∷ xs))
          ≡ some (record (row_of l) { key = y.key }))
        (some_inj (rw hit at h)) (rw hit (rw hit refl))
  | inr miss ↦ rw miss (rw miss (find-set l xs r (rw miss at h)))
]
  where
    some_inj : ◌≡◌ {A = Option LeaseRow} (some x) (some r) → x ≡ r
    some_inj e = cc

ok-pair :
    (rows after : List LeaseRow) (new l : ReconcileLease)
    → ◌≡◌ {A = Result Code (List LeaseRow × ReconcileLease)} (ok (rows, new)) (ok (after, l))
    → (rows ≡ after) × (new ≡ l)
ok-pair rows after new l h = (cc, cc)

acquire_found-Leased :
    (fails : Environment) (key : PrKey) (owner : String) (now expires : Time)
    (leases after : List LeaseRow) (l : ReconcileLease) (found : Option LeaseRow)
    → find (with_key key) leases ≡ found
    → acquire_found fails key owner now expires leases found ≡ ok (after, l)
    → Leased l after × (l.key ≡ key)
unfolding acquire_found
acquire_found-Leased fails key owner now expires leases after l none e h =
    let (_, _, h₁) = >>=-eq-ok (reject_if (fails lease_insert) transaction_failed) _ h in
    let (_, _, h₂) = >>=-eq-ok (reject_if (fails commit_tx) transaction_failed) _ h₁ in
    let new = lease key owner 1 now expires in
    let (rows, same) = ok-pair (leases ++ row_of new ∷ []) after new l h₂ in
    subst (λ m. Leased m after × (m.key ≡ key)) same
      (subst (λ rs. Leased new rs × (new.key ≡ key)) rows
        ((row_of new, find-new new leases e, refl, refl, refl), refl))
acquire_found-Leased fails key owner now expires leases after l (some r) e h =
    let (_, _, h₁) =
      >>=-eq-ok (reject_if (ltb now.nanos (parse_time r.expires_at).nanos) reconcile_lease_busy) _
        h in
    let (_, _, h₂) =
      >>=-eq-ok (reject_if (r.lease_generation == max_int64) generation_overflow) _ h₁ in
    let (_, _, h₃) = >>=-eq-ok (reject_if (fails lease_update) transaction_failed) _ h₂ in
    let (_, _, h₄) = >>=-eq-ok (reject_if (fails commit_tx) transaction_failed) _ h₃ in
    let new = lease key owner (suc r.lease_generation) now expires in
    let (rows, same) = ok-pair (map (set_lease new) leases) after new l h₄ in
    subst (λ m. Leased m after × (m.key ≡ key)) same
      (subst (λ rs. Leased new rs × (new.key ≡ key)) rows
        ((record (row_of new) { key = r.key }, find-set new leases r e, refl, refl, refl), refl))

-- The arguments that a call accepts.
abbrev pub Accepted : ℕ → PrKey → String → Time → ℕ → Type 0
Accepted limit key owner now duration =
    (invalid_key key ≡ false)
    × ((not (valid_id owner) || not (valid_time now) || duration == 0 || ltb limit duration)
        ≡ false)

abbrev pub works : Environment
works s = false

-- The expiry as the table keeps it: the whole second.
abbrev pub stored_expiry : ReconcileLease → ℕ
stored_expiry l = (parse_time (format_time l.expires_at)).nanos

again_found :
    (key : PrKey) (owner : String) (now expires : Time) (leases : List LeaseRow)
    (l : ReconcileLease) (r : LeaseRow)
    → r.lease_generation ≡ l.generation
    → r.expires_at ≡ format_time l.expires_at
    → (l.generation == max_int64) ≡ false
    → acquire_found works key owner now expires leases (some r) ≡ (
        if ltb now.nanos (stored_expiry l)
        then err reconcile_lease_busy
        else ok (
          map (set_lease (lease key owner (suc l.generation) now expires)) leases,
          lease key owner (suc l.generation) now expires,
        ))
unfolding acquire_found
again_found key owner now expires leases l r g x below =
    rw (g, x, below)
      (elim (Bool-cases (ltb now.nanos (stored_expiry l))) [
        | inl early ↦ rw early refl
        | inr late ↦ rw late refl
      ])

-- After a lease of a pull request was acquired, another call whose arguments are accepted, on a database
-- that works, is refused as busy as long as its time is before the whole second of the lease's expiry,
-- and takes the lease with the next generation from then on: so never two at once before that second,
-- and up to a second before the expiry that the first holder was told.
pub acquire_reconcile_lease_exclusive :
    (fails : Environment) (limit : ℕ) (key : PrKey) (owner : String) (now : Time) (duration : ℕ)
    (leases after : List LeaseRow) (l : ReconcileLease) (other : String) (later : Time) (longer : ℕ)
    → acquire_reconcile_lease fails limit key owner now duration leases ≡ ok (after, l)
    → Accepted limit key other later longer
    → (l.generation == max_int64) ≡ false
    → let next = lease key other (suc l.generation) later (add_nanos later longer) in
      acquire_reconcile_lease works limit key other later longer after ≡ (
        if ltb later.nanos (stored_expiry l)
        then err reconcile_lease_busy
        else ok (map (set_lease next) after, next))
unfolding acquire_reconcile_lease
acquire_reconcile_lease_exclusive fails limit key owner now duration leases after l other later
      longer h ok_args below =
    let (_, _, h₁) = >>=-eq-ok (reject_if (invalid_key key) record_invalid) _ h in
    let (_, _, h₂) =
      >>=-eq-ok
        (reject_if
          (not (valid_id owner) || not (valid_time now) || duration == 0 || ltb limit duration)
          record_invalid)
        _ h₁ in
    let (_, _, h₃) = >>=-eq-ok (reject_if (fails begin_tx) transaction_failed) _ h₂ in
    let (_, _, h₄) = >>=-eq-ok (reject_if (fails lease_read) transaction_failed) _ h₃ in
    let ((r, found, _, g, x), k) =
      acquire_found-Leased fails key owner now (add_nanos now duration) leases after l
        (find (with_key key) leases) refl h₄ in
    let found_key : find (with_key key) after ≡ some r =
      subst (λ q. find (with_key q) after ≡ some r) k found in
    rw (ok_args.0, ok_args.1, found_key)
      (again_found key other later (add_nanos later longer) after l r g x below)

count-released :
    (l : ReconcileLease) (rows : List LeaseRow)
    → count (with_key l.key) (select (λ r. not (holds l r)) rows) + count (holds l) rows
      ≡ count (with_key l.key) rows
count-released l [] = refl
count-released l (r ∷ rs) = ground (arith, count-released l rs)

find-count :
    (k : PrKey) (rows : List LeaseRow) → count (with_key k) rows ≡ 0 → find (with_key k) rows ≡ none
find-count k [] h = refl
find-count k (r ∷ rs) h = ground (arith, find-count k rs)

released :
    (fails : Environment) (l : ReconcileLease) (rows rest : List LeaseRow)
    → release_reconcile_lease fails l rows ≡ ok rest
    → ((count (holds l) rows == 1) ≡ true) × (rest ≡ select (λ r. not (holds l r)) rows)
unfolding release_reconcile_lease
released fails l rows rest h =
    let (_, _, h₁) = >>=-eq-ok (reject_if (fails lease_release) transaction_failed) _ h in
    let (_, one, h₂) =
      >>=-eq-ok (reject_if (not (count (holds l) rows == 1)) reconcile_lease_stale) _ h₁ in
    (ground (arith, one), cc h₂)

first_generation :
    (fails : Environment) (key : PrKey) (owner : String) (now expires : Time)
    (leases after : List LeaseRow) (next : ReconcileLease)
    → acquire_found fails key owner now expires leases none ≡ ok (after, next)
    → next.generation ≡ 1
unfolding acquire_found
first_generation fails key owner now expires leases after next h =
    let (_, _, h₁) = >>=-eq-ok (reject_if (fails lease_insert) transaction_failed) _ h in
    let (_, _, h₂) = >>=-eq-ok (reject_if (fails commit_tx) transaction_failed) _ h₁ in
    let new = lease key owner 1 now expires in
    ap (λ (m : ReconcileLease). m.generation)
      (sym (ok-pair (leases ++ row_of new ∷ []) after new next h₂).1)

-- A released lease leaves no row, so the next lease of the pull request has generation 1 again. The
-- condition is that the pull request has one row, which the primary key makes sure of.
pub release_reconcile_lease_restarts :
    (fails fails' : Environment) (limit : ℕ) (owner : String) (now : Time) (duration : ℕ)
    (leases rest after : List LeaseRow) (l next : ReconcileLease)
    → count (with_key l.key) leases ≡ 1
    → release_reconcile_lease fails l leases ≡ ok rest
    → acquire_reconcile_lease fails' limit l.key owner now duration rest ≡ ok (after, next)
    → next.generation ≡ 1
unfolding acquire_reconcile_lease
release_reconcile_lease_restarts fails fails' limit owner now duration leases rest after l next one
      h q =
    let (held, gone) = released fails l leases rest h in
    let none_left : count (with_key l.key) rest ≡ 0 =
      rw gone (ground (arith, count-released l leases, one, held)) in
    let (_, _, q₁) = >>=-eq-ok (reject_if (invalid_key l.key) record_invalid) _ q in
    let (_, _, q₂) =
      >>=-eq-ok
        (reject_if
          (not (valid_id owner) || not (valid_time now) || duration == 0 || ltb limit duration)
          record_invalid)
        _ q₁ in
    let (_, _, q₃) = >>=-eq-ok (reject_if (fails' begin_tx) transaction_failed) _ q₂ in
    let (_, _, q₄) = >>=-eq-ok (reject_if (fails' lease_read) transaction_failed) _ q₃ in
    first_generation fails' l.key owner now (add_nanos now duration) rest after next
      (rw (find-count l.key rest none_left) at q₄)
