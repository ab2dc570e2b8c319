-- ===== src/Store/Leases.antt =====
-- The leases under which a pull request is reconciled (internal/githubcontrollerstore/store.go,
-- `AcquireReconcileLease` and `releaseReconcileLease`). A duration that is not positive is 0 here.
pub mod Exclusion
use glassroot.Common.{
  ℕ, zero, suc, ◌+◌, String, Bool, true, false, not, ◌||◌, ◌&&◌, Option, none, some, List, [], ◌∷◌,
  ◌++◌, map, all, count, find, select, codes, byte_length, str_eq, Result, ok, err, ◌>>=◌, ◌>>◌,
  reject_if, if◌then◌else◌, ltb, leb, ◌==◌, Time, valid_time, add_nanos, format_time, parse_time,
}
use glassroot.Common.Int.{ℤ, nonpositive, eq_ℤ, max_int64}

pub data Code : Type 0 where
  record_invalid transaction_failed reconcile_lease_busy reconcile_lease_stale generation_overflow :
      Code

pub record PrKey : Type 0 where
  pub installation_id : ℤ
  pub base_repository_id : ℤ
  pub pull_request_number : ℤ

pub record ReconcileLease : Type 0 where
  pub key : PrKey
  pub owner : String
  pub generation : ℕ
  pub acquired_at : Time
  pub expires_at : Time

-- A row of reconcile_leases; the times are RFC 3339 texts, read as their seconds.
pub record LeaseRow : Type 0 where
  pub key : PrKey
  pub owner : String
  pub lease_generation : ℕ
  pub acquired_at : ℕ
  pub expires_at : ℕ

pub data Statement : Type 0 where
  begin_tx lease_read lease_insert lease_update lease_release commit_tx : Statement
  processed_read processed_insert state_read state_upsert : Statement
  job_supersede attempt_cancel source_supersede : Statement
  target_insert job_insert attempt_insert source_insert : Statement

abbrev pub Environment : Type 0
Environment = Statement → Bool

unfoldable pub invalid_key : PrKey → Bool
invalid_key k =
    nonpositive k.installation_id
    || nonpositive k.base_repository_id
    || nonpositive k.pull_request_number

abbrev is_lower : ℕ → Bool
is_lower c = leb b'a' c && leb c b'z'

abbrev starts_lower : List ℕ → Bool
starts_lower [] = false
starts_lower (c ∷ cs) = is_lower c

abbrev id_character : ℕ → Bool
id_character c = is_lower c || leb b'0' c && leb c b'9' || c == b'.' || c == b'_' || c == b'-'

unfoldable pub valid_id : String → Bool
valid_id s =
    starts_lower (codes s) && not (ltb 64 (byte_length (codes s))) && all id_character (codes s)

abbrev pub same_key : PrKey → PrKey → Bool
same_key a b =
    eq_ℤ a.installation_id b.installation_id
    && eq_ℤ a.base_repository_id b.base_repository_id
    && eq_ℤ a.pull_request_number b.pull_request_number

-- WHERE installation_id=? AND base_repository_id=? AND pull_request_number=?
abbrev pub with_key : PrKey → LeaseRow → Bool
with_key k r = same_key r.key k

abbrev pub lease : PrKey → String → ℕ → Time → Time → ReconcileLease
lease key owner generation now expires = record {
  key = key;
  owner = owner;
  generation = generation;
  acquired_at = now;
  expires_at = expires;
}

abbrev pub row_of : ReconcileLease → LeaseRow
row_of l = record {
  key = l.key;
  owner = l.owner;
  lease_generation = l.generation;
  acquired_at = format_time l.acquired_at;
  expires_at = format_time l.expires_at;
}

-- The UPDATE keeps the key's columns.
abbrev pub set_lease : ReconcileLease → LeaseRow → LeaseRow
set_lease l r = if with_key l.key r then record (row_of l) { key = r.key } else r

unfoldable pub acquire_found :
    Environment
    → PrKey
    → String
    → Time
    → Time
    → List LeaseRow
    → Option LeaseRow
    → Result Code (List LeaseRow × ReconcileLease)
acquire_found fails key owner now expires leases none = do
  reject_if (fails lease_insert) transaction_failed
  reject_if (fails commit_tx) transaction_failed
  let l = lease key owner 1 now expires
  ok (leases ++ row_of l ∷ [], l)
acquire_found fails key owner now expires leases (some r) = do
  reject_if (ltb now.nanos (parse_time r.expires_at).nanos) reconcile_lease_busy
  reject_if (r.lease_generation == max_int64) generation_overflow
  reject_if (fails lease_update) transaction_failed
  reject_if (fails commit_tx) transaction_failed
  let l = lease key owner (suc r.lease_generation) now expires
  ok (map (set_lease l) leases, l)

-- On an error nothing is written: the transaction is rolled back.
unfoldable pub acquire_reconcile_lease :
    Environment
    → ℕ
    → PrKey
    → String
    → Time
    → ℕ
    → List LeaseRow
    → Result Code (List LeaseRow × ReconcileLease)
acquire_reconcile_lease fails limit key owner now duration leases = do
  reject_if (invalid_key key) record_invalid
  reject_if (not (valid_id owner) || not (valid_time now) || duration == 0 || ltb limit duration)
      record_invalid
  reject_if (fails begin_tx) transaction_failed
  reject_if (fails lease_read) transaction_failed
  acquire_found fails key owner now (add_nanos now duration) leases (find (with_key key) leases)

abbrev pub holds : ReconcileLease → LeaseRow → Bool
holds l r = with_key l.key r && str_eq r.owner l.owner && r.lease_generation == l.generation

unfoldable pub release_reconcile_lease :
    Environment → ReconcileLease → List LeaseRow → Result Code (List LeaseRow)
release_reconcile_lease fails l leases = do
  reject_if (fails lease_release) transaction_failed
  reject_if (not (count (holds l) leases == 1)) reconcile_lease_stale
  ok (select (λ r. not (holds l r)) leases)
