-- ===== src/Inbox/History/Rows.antt =====
-- One operation on the rows of the outbox: ids stay distinct, and a row lives on.
use glassroot.Common.{
  ℕ, zero, suc, String, ◌≤◌, ◌≡◌, refl, ap₂, subst, ◌∙◌, false, some, List, [], ◌∷◌, ◌++◌, map,
  str_eq, arith, Time, Bool-cases, inl, inr, any, find, Unique, Unique-map, Unique-append_one,
  find-append, any-find,
}
use glassroot.Inbox.Tables.{OutboxRow}
use glassroot.Inbox.Lease.{
  Finish, with_id, claimable, candidate, set_leased, finish_row, set_finished,
}
use glassroot.Inbox.Lease.Pass.{same_id, claim_pass}

-- The same row later: its generation and its number of attempts have not fallen.
pub record Later (r r' : OutboxRow) : Type 0 where
  pub same : r'.id ≡ r.id
  pub generation : r.lease_generation ≤ r'.lease_generation
  pub attempts : r.attempt_count ≤ r'.attempt_count

pub Later-refl : (r : OutboxRow) → Later r r
Later-refl r = record { same = refl; generation = omega arith; attempts = omega arith }

pub Later-trans : (a b c : OutboxRow) → Later a b → Later b c → Later a c
Later-trans a b c h k = record {
  same = k.same ∙ h.same;
  generation = omega arith;
  attempts = omega arith;
}

-- Every row found before is found later.
abbrev pub Keeps : List OutboxRow → List OutboxRow → Type 0
Keeps rows rows' =
    (id : String) (r : OutboxRow)
    → find (with_id id) rows ≡ some r
    → (r' : OutboxRow) × (find (with_id id) rows' ≡ some r') × Later r r'

pub Keeps-refl : (rows : List OutboxRow) → Keeps rows rows
Keeps-refl rows id r h = (r, h, Later-refl r)

pub Keeps-append : (rows : List OutboxRow) (x : OutboxRow) → Keeps rows (rows ++ x ∷ [])
Keeps-append rows x id r h =
    (r, rw (find-append (with_id id) rows (x ∷ []), any-find (with_id id) rows r h) h, Later-refl r)

-- A row in front of two tables.
Keeps-cons :
    (x x' : OutboxRow) (rows rows' : List OutboxRow)
    → Later x x'
    → Keeps rows rows'
    → Keeps (x ∷ rows) (x' ∷ rows')
Keeps-cons x x' rows rows' l k id r h = elim (Bool-cases (str_eq x.id id)) [
  | inl hit ↦ (x', rw (l.same, hit), subst (λ (y : OutboxRow). Later y x') (ground arith) l)
  | inr miss ↦
      let (r', found, later) = k id r (rw miss at h) in (r', rw (l.same, miss) found, later)
]

finish_row-Later : (f : Finish) (r : OutboxRow) → Later r (finish_row f r)
unfolding finish_row
finish_row-Later f r = ground arith

set_finished-Later : (id : String) (f : Finish) (r : OutboxRow) → Later r (set_finished id f r)
unfolding set_finished
set_finished-Later id f r = elim (Bool-cases (str_eq r.id id)) [
  | inl hit ↦ rw hit (finish_row-Later f r)
  | inr miss ↦ rw miss (Later-refl r)
]

pub Keeps-finish :
    (id : String) (f : Finish) (rows : List OutboxRow) → Keeps rows (map (set_finished id f) rows)
Keeps-finish id f [] = Keeps-refl []
Keeps-finish id f (r ∷ rs) =
    Keeps-cons r (set_finished id f r) rs (map (set_finished id f) rs) (set_finished-Later id f r)
      (Keeps-finish id f rs)

pub Unique-finish :
    (id : String) (f : Finish) (rows : List OutboxRow)
    → Unique same_id rows
    → Unique same_id (map (set_finished id f) rows)
Unique-finish id f rows u =
    Unique-map same_id (set_finished id f) rows
      (λ x y. ap₂ str_eq (set_finished-Later id f x).same (set_finished-Later id f y).same) u

pub Unique-enqueue :
    (rows : List OutboxRow) (x : OutboxRow)
    → Unique same_id rows
    → any (with_id x.id) rows ≡ false
    → Unique same_id (rows ++ x ∷ [])
Unique-enqueue rows x u h = Unique-append_one same_id rows x u h

module _ (owner : String) (now expires : Time) where
  leased-Later : (r : OutboxRow) → Later r (set_leased (candidate owner expires r) r)
  leased-Later r = record { same = refl; generation = omega arith; attempts = omega arith }

  pub Keeps-pass :
      (n : ℕ) (rows : List OutboxRow) → Keeps rows (claim_pass owner now expires n rows)
  unfolding claim_pass
  Keeps-pass zero rows = Keeps-refl rows
  Keeps-pass (suc n) [] = Keeps-refl []
  Keeps-pass (suc n) (r ∷ rs) = elim (Bool-cases (claimable now r)) [
    | inl hit ↦ rw hit (Keeps-cons r _ rs _ (leased-Later r) (Keeps-pass n rs))
    | inr miss ↦ rw miss (Keeps-cons r r rs _ (Later-refl r) (Keeps-pass (suc n) rs))
  ]

  any-pass :
      (x : OutboxRow) (n : ℕ) (rows : List OutboxRow)
      → any (same_id x) (claim_pass owner now expires n rows) ≡ any (same_id x) rows
  unfolding claim_pass
  any-pass x zero rows = refl
  any-pass x (suc n) [] = refl
  any-pass x (suc n) (r ∷ rs) = elim (Bool-cases (claimable now r)) [
    | inl hit ↦ rw hit (rw (any-pass x n rs))
    | inr miss ↦ rw miss (rw (any-pass x (suc n) rs))
  ]

  pub Unique-pass :
      (n : ℕ) (rows : List OutboxRow)
      → Unique same_id rows
      → Unique same_id (claim_pass owner now expires n rows)
  unfolding claim_pass
  Unique-pass zero rows u = u
  Unique-pass (suc n) [] u = u
  Unique-pass (suc n) (r ∷ rs) u = elim (Bool-cases (claimable now r)) [
    | inl hit ↦ rw hit (rw (any-pass r n rs) u.0, Unique-pass n rs u.1)
    | inr miss ↦ rw miss (rw (any-pass r (suc n) rs) u.0, Unique-pass (suc n) rs u.1)
  ]
