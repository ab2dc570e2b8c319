-- ===== src/Inbox/Lease/Claim.antt =====
-- `claim_outbox` as a whole against the single pass, and when a lease counts as expired.
use glassroot.Common.{
  ℕ, String, ◌+◌, ◌*◌, ◌≤◌, ◌<◌, ◌≡◌, refl, ap, sym, subst, ◌∙◌, Bool, true, false, not, ◌&&◌, some,
  List, [], ◌∷◌, map, ok, err, >>=-eq-ok, reject_if, arith, ◌==◌, Time, add_nanos, Bool-cases, inl,
  inr, take, select, all, length, Unique, nanos_per_second, format_nano, stamp_le_lt,
  stamp_le-whole_second, stamp_le-after_whole_second, length-take_le, length-map,
}
use glassroot.Inbox.Tables.{
  Code, transaction_failed, OutboxRow, leased, Db, Environment, Statement, begin_tx, claim_query,
  claim_close, commit_tx, claim_update, transact-eq-ok, transact-eq-err,
}
use glassroot.Inbox.Lease.{
  Limits, LeasedRecord, max_int64, claimable, candidate, scan_row, scan, claim_loop, claim_tx,
  claim_outbox, validate_lease_inputs,
}
use glassroot.Inbox.Lease.Pass.{
  same_id, claim_pass, chosen, outcome, any_failure, claim_loop-eq-pass,
}

-- The row has room for one more claim, and its JSON decodes.
abbrev pub ready : Environment → OutboxRow → Bool
ready env r =
    not (r.lease_generation == max_int64)
    && not (r.attempt_count == max_int64)
    && env.decodes r.projection_json
    && env.decodes r.receipt_json

module _ (env : Environment) (owner : String) (expires : Time) where
  scan_row-ready :
      (r : OutboxRow)
      → ready env r ≡ true
      → scan_row env owner expires r ≡ ok (candidate owner expires r)
  unfolding scan_row
  scan_row-ready r h = ground arith

  scan_row-eq-ok :
      (r : OutboxRow) (c : LeasedRecord)
      → scan_row env owner expires r ≡ ok c
      → c ≡ candidate owner expires r
  unfolding scan_row
  scan_row-eq-ok r c h = ground arith

  scan-ready :
      (rows : List OutboxRow)
      → all (ready env) rows ≡ true
      → scan env owner expires rows ≡ ok (map (candidate owner expires) rows)
  unfolding scan
  scan-ready [] h = refl
  scan-ready (r ∷ rs) h =
      let here : ready env r ≡ true = ground arith in
      let there : all (ready env) rs ≡ true = ground arith in
      rw (scan_row-ready r here) (rw (scan-ready rs there))

  scan-eq-ok :
      (rows : List OutboxRow) (cs : List LeasedRecord)
      → scan env owner expires rows ≡ ok cs
      → cs ≡ map (candidate owner expires) rows
  unfolding scan
  scan-eq-ok [] cs h = cc
  scan-eq-ok (r ∷ rs) cs h =
      let (c, ec, h₁) = >>=-eq-ok (scan_row env owner expires r) _ h in
      let (ds, ed, h₂) = >>=-eq-ok (scan env owner expires rs) _ h₁ in
      cc (scan_row-eq-ok r c ec, scan-eq-ok rs ds ed, h₂)

abbrev pub claimed_db : String → Time → ℕ → ℕ → Db → Db
claimed_db owner now duration limit db = record db {
  outbox = claim_pass owner now (add_nanos now duration) limit db.outbox;
}

module _ (env : Environment) (owner : String) (now : Time) (duration limit : ℕ) (db : Db)
    (unique : Unique same_id db.outbox) where
  outcome-eq-ok :
      (cs : List LeasedRecord) (rows : List OutboxRow) (p : List OutboxRow × List LeasedRecord)
      → outcome env cs rows ≡ ok p
      → p ≡ (rows, cs)
  outcome-eq-ok cs rows p h = elim (Bool-cases (any_failure env cs)) [
    | inl f ↦ cc (rw f at h)
    | inr f ↦ cc (rw f at h)
  ]

  claim_tx-eq-ok :
      (p : Db × List LeasedRecord)
      → claim_tx env owner now duration limit db ≡ ok p
      → p ≡ (
        claimed_db owner now duration limit db,
        chosen owner now (add_nanos now duration) limit db.outbox,
      )
  unfolding claim_tx
  claim_tx-eq-ok p h =
      let (_, _, h₁) = >>=-eq-ok (reject_if (env.fails begin_tx) transaction_failed) _ h in
      let (_, _, h₂) = >>=-eq-ok (reject_if (env.fails claim_query) transaction_failed) _ h₁ in
      let (cs, scanned, h₃) =
        >>=-eq-ok
          (scan env owner (add_nanos now duration) (take limit (select (claimable now) db.outbox)))
          _ h₂ in
      let (_, _, h₄) = >>=-eq-ok (reject_if (env.fails claim_close) transaction_failed) _ h₃ in
      let (r, looped, h₅) = >>=-eq-ok (claim_loop env now cs db.outbox) _ h₄ in
      let (_, _, h₆) = >>=-eq-ok (reject_if (env.fails commit_tx) transaction_failed) _ h₅ in
      let eq : cs ≡ chosen owner now (add_nanos now duration) limit db.outbox =
        scan-eq-ok env owner (add_nanos now duration) _ cs scanned in
      let pass : r ≡ (
        claim_pass owner now (add_nanos now duration) limit db.outbox,
        chosen owner now (add_nanos now duration) limit db.outbox,
      ) =
        outcome-eq-ok _ _ r (
          sym (claim_loop-eq-pass env now owner (add_nanos now duration) limit db.outbox unique)
          ∙ subst (λ (ds : List LeasedRecord). claim_loop env now ds db.outbox ≡ ok r) eq looped) in
      cc (h₆, pass)

  no_failure :
      (cs : List LeasedRecord)
      → ((s : Statement) → env.fails s ≡ false)
      → any_failure env cs ≡ false
  no_failure [] quiet = refl
  no_failure (c ∷ cs) quiet = rw (quiet (claim_update c.sequence)) (no_failure cs quiet)

  pub claim_outbox-eq-pass :
      (limits : Limits) (claimed : List LeasedRecord)
      → (claim_outbox env limits owner now duration limit db).1 ≡ ok claimed
      → ((claim_outbox env limits owner now duration limit db).0
          ≡ claimed_db owner now duration limit db)
        × (claimed ≡ chosen owner now (add_nanos now duration) limit db.outbox)
        × (length claimed ≤ limit)
  unfolding claim_outbox
  claim_outbox-eq-pass limits claimed h =
      let ran = transact-eq-ok db _ h in
      let (_, _, h₁) = >>=-eq-ok (validate_lease_inputs limits owner now duration limit) _ ran in
      let e = claim_tx-eq-ok _ h₁ in
      let rows = take limit (select (claimable now) db.outbox) in
      let eq : claimed ≡ map (candidate owner (add_nanos now duration)) rows =
        ap (λ (p : Db × List LeasedRecord). p.1) e in
      (
        ap (λ (p : Db × List LeasedRecord). p.0) e,
        eq,
        rw (eq, length-map (candidate owner (add_nanos now duration)) rows)
            (length-take_le limit (select (claimable now) db.outbox)),
      )

  pub claim_outbox_error :
      (limits : Limits) (e : Code)
      → (claim_outbox env limits owner now duration limit db).1 ≡ err e
      → (claim_outbox env limits owner now duration limit db).0 ≡ db
  unfolding claim_outbox
  claim_outbox_error limits e h = transact-eq-err db _ h

  -- A claim fails only by its inputs, by the database, or by a row that is not ready.
  pub claim_outbox_total :
      (limits : Limits)
      → ((s : Statement) → env.fails s ≡ false)
      → validate_lease_inputs limits owner now duration limit ≡ ok tt
      → all (ready env) (take limit (select (claimable now) db.outbox)) ≡ true
      → claim_outbox env limits owner now duration limit db ≡ (
        claimed_db owner now duration limit db,
        ok (chosen owner now (add_nanos now duration) limit db.outbox),
      )
  unfolding claim_outbox claim_tx
  claim_outbox_total limits quiet valid fit =
      let expires = add_nanos now duration in
      rw
        (
          valid,
          quiet begin_tx,
          quiet claim_query,
          quiet claim_close,
          scan-ready env owner expires _ fit,
          claim_loop-eq-pass env now owner expires limit db.outbox unique,
        )
        (rw (no_failure (chosen owner now expires limit db.outbox) quiet, quiet commit_tx))

module _ (r : OutboxRow) (now : Time) (held : r.state ≡ leased) where
  -- Times are stored and compared as text, so a lease can be taken before it ends, but less than a
  -- second before.
  pub claimable_near_expiry :
      (expires : Time)
      → r.lease_expires_at ≡ some (format_nano expires)
      → claimable now r ≡ true
      → expires.nanos < now.nanos + nanos_per_second
  unfolding claimable
  claimable_near_expiry expires e h = ground (arith, stamp_le_lt expires now)

-- At the start of a second every lease that ends within that second is taken, however far its end
-- is; and a lease that ended at the start of a second is not taken in the rest of that second.
pub claimable_at_seconds :
    (r : OutboxRow) (s f : ℕ)
    → 0 < f
    → f < nanos_per_second
    → r.state ≡ leased
    → let whole : Time = record { nanos = s * nanos_per_second; utc = true } in
      let later : Time = record { nanos = s * nanos_per_second + f; utc = true } in
      (r.lease_expires_at ≡ some (format_nano later) → claimable whole r ≡ true)
      × (r.lease_expires_at ≡ some (format_nano whole) → claimable later r ≡ false)
unfolding claimable
claimable_at_seconds r s f h k held = (
  λ e. rw (held, e) (stamp_le-whole_second s f h k),
  λ e. rw (held, e) (stamp_le-after_whole_second s f h k),
)
