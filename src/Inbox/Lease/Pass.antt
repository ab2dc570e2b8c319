-- ===== src/Inbox/Lease/Pass.antt =====
-- The claim's two loops do what one pass over the table does.
use glassroot.Common.{
  ℕ, zero, suc, String, ◌≡◌, refl, ap, ◌∙◌, Bool, true, false, List, [], ◌∷◌, map, str_eq, eq_iff,
  Result, ok, err, ◌>>=◌, arith, if◌then◌else◌, ◌==◌, Time, Bool-cases, inl, inr, any, take, select,
  count, Unique,
}
use glassroot.Inbox.Tables.{
  Code, transaction_failed, outbox_state_invalid, OutboxRow, Environment, claim_update,
}
use glassroot.Inbox.Lease.{
  LeasedRecord, claimable, candidate, set_leased, takes, take_row, claim_loop,
}

abbrev pub same_id : OutboxRow → OutboxRow → Bool
same_id a b = str_eq a.id b.id

-- The specification: the first `n` claimable rows are leased, in one pass.
unfoldable pub claim_pass : String → Time → Time → ℕ → List OutboxRow → List OutboxRow
claim_pass owner now expires zero rows = rows
claim_pass owner now expires (suc n) [] = []
claim_pass owner now expires (suc n) (r ∷ rs) =
    let hit = set_leased (candidate owner expires r) r ∷ claim_pass owner now expires n rs in
    let miss = r ∷ claim_pass owner now expires (suc n) rs in if claimable now r then hit else miss

abbrev pub chosen : String → Time → Time → ℕ → List OutboxRow → List LeasedRecord
chosen owner now expires n rows =
    map (candidate owner expires) (take n (select (claimable now) rows))

abbrev pub Loop : Type 0
Loop = Result Code (List OutboxRow × List LeasedRecord)

-- Some claiming UPDATE fails.
abbrev pub any_failure : Environment → List LeasedRecord → Bool
any_failure env cs = any (λ (c : LeasedRecord). env.fails (claim_update c.sequence)) cs

abbrev pub outcome : Environment → List LeasedRecord → List OutboxRow → Loop
outcome env cs rows = if any_failure env cs then err transaction_failed else ok (rows, cs)

-- A loop's result with one more row in front of the table.
abbrev behind : OutboxRow → Loop → Loop
behind x (ok (rows, cs)) = ok (x ∷ rows, cs)
behind x (err e) = err e

behind-bind :
    (x : OutboxRow) (c : LeasedRecord) (go : Loop)
    → (behind x go >>= λ r. ok (r.0, c ∷ r.1)) ≡ behind x (go >>= λ r. ok (r.0, c ∷ r.1))
behind-bind x c (ok (rows, cs)) = refl
behind-bind x c (err e) = refl

behind_loop :
    (x : OutboxRow) (c : LeasedRecord) (fail : Bool) (n : ℕ) (skip go : Loop)
    → (if fail
        then err transaction_failed
        else if n == 0
        then behind x skip
        else if n == 1
        then behind x go >>= (λ r. ok (r.0, c ∷ r.1))
        else err outbox_state_invalid)
      ≡ behind x (
          if fail
          then err transaction_failed
          else if n == 0
          then skip
          else if n == 1
          then go >>= (λ r. ok (r.0, c ∷ r.1))
          else err outbox_state_invalid)
behind_loop x c true n skip go = refl
behind_loop x c false zero skip go = refl
behind_loop x c false (suc zero) skip go = behind-bind x c go
behind_loop x c false (suc (suc n)) skip go = ground arith

module _ (env : Environment) (now : Time) where
  take_row_untaken :
      (c : LeasedRecord) (x : OutboxRow) → takes now c x ≡ false → take_row now c x ≡ x
  unfolding take_row
  take_row_untaken c x h = rw h

  count-zero :
      (c : LeasedRecord) (r : OutboxRow) (rs : List OutboxRow)
      → c.id ≡ r.id
      → any (same_id r) rs ≡ false
      → (count (takes now c) rs ≡ 0) × (map (take_row now c) rs ≡ rs)
  unfolding takes take_row
  count-zero c r [] e h = (refl, refl)
  count-zero c r (x ∷ xs) e h =
      let (none_left, same) = count-zero c r xs e (ground arith) in
      (
        ground (arith, eq_iff x.id c.id, eq_iff r.id x.id),
        ground (arith, eq_iff x.id c.id, eq_iff r.id x.id),
      )

  -- A row that no candidate takes passes through the loop.
  claim_loop-cons :
      (cs : List LeasedRecord) (x : OutboxRow) (rows : List OutboxRow)
      → any (λ (c : LeasedRecord). takes now c x) cs ≡ false
      → claim_loop env now cs (x ∷ rows) ≡ behind x (claim_loop env now cs rows)
  unfolding claim_loop
  claim_loop-cons [] x rows h = refl
  claim_loop-cons (c ∷ cs) x rows h =
      let untaken : takes now c x ≡ false = ground arith in
      rw (untaken, take_row_untaken c x untaken)
        (rw
          (
            claim_loop-cons cs x rows (ground arith),
            claim_loop-cons cs x (map (take_row now c) rows) (ground arith),
          )
          (behind_loop x c (env.fails (claim_update c.sequence)) (count (takes now c) rows) _ _))

  not_claimable-untaken :
      (x : OutboxRow) (cs : List LeasedRecord)
      → claimable now x ≡ false
      → any (λ (c : LeasedRecord). takes now c x) cs ≡ false
  unfolding takes
  not_claimable-untaken x [] h = refl
  not_claimable-untaken x (c ∷ cs) h = ground (arith, not_claimable-untaken x cs)

  module _ (owner : String) (expires : Time) where
    chosen-untaken :
        (x : OutboxRow) (n : ℕ) (rows : List OutboxRow)
        → any (same_id x) rows ≡ false
        → any (λ (c : LeasedRecord). takes now c x) (chosen owner now expires n rows) ≡ false
    unfolding takes
    chosen-untaken x zero rows h = refl
    chosen-untaken x (suc n) [] h = refl
    chosen-untaken x (suc n) (r ∷ rs) h = elim (Bool-cases (claimable now r)) [
      | inl yes' ↦ rw yes' (ground (arith, chosen-untaken x n rs))
      | inr no' ↦ rw no' (chosen-untaken x (suc n) rs (ground arith))
    ]

    take_candidate :
        (r : OutboxRow) → claimable now r ≡ true → takes now (candidate owner expires r) r ≡ true
    unfolding takes
    take_candidate r h = ground (arith, eq_iff r.id r.id)

    behind-outcome :
        (x : OutboxRow) (cs : List LeasedRecord) (rows : List OutboxRow)
        → behind x (outcome env cs rows) ≡ outcome env cs (x ∷ rows)
    behind-outcome x cs rows = elim (Bool-cases (any_failure env cs)) [
      | inl h ↦ rw h
      | inr h ↦ rw h
    ]

    -- The candidate of the first row takes that row and no other.
    loop_hit :
        (r : OutboxRow) (rs rows' : List OutboxRow) (cs : List LeasedRecord)
        → claimable now r ≡ true
        → any (same_id r) rs ≡ false
        → any (λ (c : LeasedRecord). takes now c r) cs ≡ false
        → any (λ (c : LeasedRecord). takes now c (set_leased (candidate owner expires r) r)) cs
          ≡ false
        → claim_loop env now cs rs ≡ outcome env cs rows'
        → claim_loop env now (candidate owner expires r ∷ cs) (r ∷ rs)
          ≡ outcome env
              (candidate owner expires r ∷ cs)
              (set_leased (candidate owner expires r) r ∷ rows')
    unfolding claim_loop take_row
    loop_hit r rs rows' cs h u m m' ih =
        let c = candidate owner expires r in
        let (zero_left, kept) = count-zero c r rs refl u in
        rw (take_candidate r h, zero_left, kept)
          (rw
            (claim_loop-cons cs (set_leased c r) rs m'
              ∙ ap (behind (set_leased c r)) ih
              ∙ behind-outcome (set_leased c r) cs rows')
            (elim (Bool-cases (env.fails (claim_update r.sequence))) [
              | inl f ↦ rw f
              | inr f ↦
                  rw f (elim (Bool-cases (any_failure env cs)) [ inl g ↦ rw g | inr g ↦ rw g ])
            ]))

    -- Over rows of distinct ids the loop of UPDATEs is the single pass, or fails by a statement.
    pub claim_loop-eq-pass :
        (n : ℕ) (rows : List OutboxRow)
        → Unique same_id rows
        → claim_loop env now (chosen owner now expires n rows) rows
          ≡ outcome env (chosen owner now expires n rows) (claim_pass owner now expires n rows)
    unfolding claim_pass
    claim_loop-eq-pass zero rows u = unfold claim_loop in refl
    claim_loop-eq-pass (suc n) [] u = unfold claim_loop in refl
    claim_loop-eq-pass (suc n) (r ∷ rs) u = elim (Bool-cases (claimable now r)) [
      | inl yes' ↦ rw yes' (
          loop_hit r rs (claim_pass owner now expires n rs) (chosen owner now expires n rs) yes' u.0
            (chosen-untaken r n rs u.0)
            (chosen-untaken (set_leased (candidate owner expires r) r) n rs u.0)
            (claim_loop-eq-pass n rs u.1))
      | inr no' ↦
          let cs = chosen owner now expires (suc n) rs in
          rw no' (
            claim_loop-cons cs r rs (not_claimable-untaken r cs no')
            ∙ ap (behind r) (claim_loop-eq-pass (suc n) rs u.1)
            ∙ behind-outcome r cs (claim_pass owner now expires (suc n) rs))
    ]
