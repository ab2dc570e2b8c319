-- ===== src/Policy/Waivers/Resolve.antt =====
-- Which findings the waivers of the base reach.
use glassroot.Common.{
  ℕ, suc, zero, ◌≡◌, refl, sym, ap, subst, ◌∙◌, String, Bool, true, false, not, ◌&&◌, ◌||◌, Option,
  none, some, List, [], ◌∷◌, map, str_eq, any, Unique, eq_iff, any_mono, if◌then◌else◌, ltb, arith,
  Bool-cases, Option-cases, inl, inr,
}
use glassroot.Model.{Finding}
use glassroot.Policy.Waivers.{
  Waiver, BaseAssessment, AppliedFinding, WaiverStatus, not_yet_valid, expired, unused,
  waiver_eligible_finding, by_id, element, update, waive, apply_waiver, apply_target, target_status,
  is_applied,
}

-- A waiver is meant for a finding and in force.
abbrev pub hits : ℕ → Waiver → Finding → Bool
hits at w f =
    not (ltb at w.issued_at)
    && ltb at w.expires_at
    && str_eq f.id w.finding_id
    && str_eq f.rule_id w.rule_id
    && waiver_eligible_finding f

abbrev pub key : AppliedFinding → String
key a = a.original.id

abbrev here : (AppliedFinding → AppliedFinding) → String → AppliedFinding → AppliedFinding
here g id a = if str_eq (key a) id then g a else a

by_id-none :
    (xs : List AppliedFinding) (id : String)
    → by_id (map key xs) id ≡ none
    → any (λ a. str_eq (key a) id) xs ≡ false
unfolding by_id
by_id-none [] id h = refl
by_id-none (x ∷ xs) id h = ground (arith, by_id-none xs id)

here-nowhere :
    (g : AppliedFinding → AppliedFinding) (xs : List AppliedFinding) (id : String)
    → any (λ a. str_eq (key a) id) xs ≡ false
    → map (here g id) xs ≡ xs
here-nowhere g [] id h = refl
here-nowhere g (x ∷ xs) id h = ground (arith, here-nowhere g xs id)

element-apart :
    (xs : List AppliedFinding) (j : ℕ) (a : AppliedFinding) (k : String)
    → element xs j ≡ some a
    → any (str_eq k) (map key xs) ≡ false
    → str_eq k (key a) ≡ false
element-apart [] j a k e h = cc
element-apart (x ∷ xs) zero a k e h = ground arith
element-apart (x ∷ xs) (suc j) a k e h = element-apart xs j a k e (ground arith)

apart : (k id l : String) → str_eq k l ≡ false → str_eq l id ≡ true → str_eq k id ≡ false
apart k id l h e = subst (λ x. str_eq k x ≡ false) ((eq_iff l id).0 e) h

-- Writing at the place of an id is writing at every finding with that id: there is only one.
update-by_id :
    (g : AppliedFinding → AppliedFinding) (xs : List AppliedFinding) (id : String) (i : ℕ)
    → Unique str_eq (map key xs)
    → by_id (map key xs) id ≡ some i
    → (a : AppliedFinding) × (element xs i ≡ some a)
      × (str_eq (key a) id ≡ true)
      × (update g i xs ≡ map (here g id) xs)
unfolding by_id
update-by_id g [] id i u h = cc
update-by_id g (x ∷ xs) id i u h = elim (Option-cases (by_id (map key xs) id)) [
  | inl e ↦
      let same : str_eq (key x) id ≡ true = ground arith in
      let first : i ≡ 0 = ground arith in
      rw first (x, refl, same, rw same (rw (here-nowhere g xs id (by_id-none xs id e)) refl))
  | inr (j, e) ↦
      let (a, found, same, eq) = update-by_id g xs id j u.1 e in
      let later : i ≡ suc j = ground arith in
      let other : str_eq (key x) id ≡ false =
        apart (key x) id (key a) (element-apart xs j a (key x) found u.0) same in
      rw later (a, found, same, rw other (ap (λ ys. x ∷ ys) eq))
]

-- A test that only findings with the id pass is decided by the finding at its place.
any-by_id :
    (p : AppliedFinding → Bool) (xs : List AppliedFinding) (id : String) (i : ℕ)
    (a : AppliedFinding)
    → ((x : AppliedFinding) → p x ≡ true → str_eq (key x) id ≡ true)
    → Unique str_eq (map key xs)
    → by_id (map key xs) id ≡ some i
    → element xs i ≡ some a
    → any p xs ≡ p a
unfolding by_id
any-by_id p [] id i a only u h e = cc
any-by_id p (x ∷ xs) id i a only u h e = elim (Option-cases (by_id (map key xs) id)) [
  | inl n ↦
      let first : i ≡ 0 = ground arith in
      let here : x ≡ a = some_inj (subst (λ k. element (x ∷ xs) k ≡ some a) first e) in
      rw (none_pass xs id only (by_id-none xs id n)) (rw here (or_false (p a)))
  | inr (j, m) ↦
      let later : i ≡ suc j = ground arith in
      let found : element xs j ≡ some a = subst (λ k. element (x ∷ xs) k ≡ some a) later e in
      let (b, at_j, same, _) = update-by_id (λ y. y) xs id j u.1 m in
      let other : str_eq (key x) id ≡ false =
        apart (key x) id (key b) (element-apart xs j b (key x) at_j u.0) same in
      ground (arith, any-by_id p xs id j a only u.1 m found, only x)
]
  where
    some_inj : ◌≡◌ {A = Option AppliedFinding} (some x) (some a) → x ≡ a
    some_inj h = cc

    or_false : (b : Bool) → (b || false) ≡ b
    or_false b = ground arith

    none_pass :
        (ys : List AppliedFinding) (id : String)
        → ((y : AppliedFinding) → p y ≡ true → str_eq (key y) id ≡ true)
        → any (λ y. str_eq (key y) id) ys ≡ false
        → any p ys ≡ false
    none_pass ys id only h = any_mono p (λ y. str_eq (key y) id) ys only h

update-id : (i : ℕ) (xs : List AppliedFinding) → update (λ y. y) i xs ≡ xs
update-id i [] = refl
update-id zero (x ∷ xs) = refl
update-id (suc i) (x ∷ xs) = ap (λ ys. x ∷ ys) (update-id i xs)

update-at :
    (g f : AppliedFinding → AppliedFinding) (i : ℕ) (xs : List AppliedFinding) (a : AppliedFinding)
    → element xs i ≡ some a
    → g a ≡ f a
    → update g i xs ≡ update f i xs
update-at g f i [] a e h = refl
update-at g f zero (x ∷ xs) a e h = let same : x ≡ a = some_inj e in rw same (rw h refl)
  where
    some_inj : ◌≡◌ {A = Option AppliedFinding} (some x) (some a) → x ≡ a
    some_inj h = cc
update-at g f (suc i) (x ∷ xs) a e h = ap (λ ys. x ∷ ys) (update-at g f i xs a e h)

module _ (base : BaseAssessment) (at : ℕ) where
  abbrev pub reach : Waiver → AppliedFinding → AppliedFinding
  reach w a = if hits at w a.original then waive base w a else a

  reach-none :
      (w : Waiver) (xs : List AppliedFinding)
      → any (λ (a : AppliedFinding). hits at w a.original) xs ≡ false
      → map (reach w) xs ≡ xs
  reach-none w [] h = refl
  reach-none w (x ∷ xs) h = ground (arith, reach-none w xs)

  here-reach :
      (w : Waiver) (xs : List AppliedFinding)
      → map (here (reach w) w.finding_id) xs ≡ map (reach w) xs
  here-reach w [] = refl
  here-reach w (x ∷ xs) = ground (arith, here-reach w xs)

  abbrev pub hits_finding : Waiver → AppliedFinding → Bool
  hits_finding w a = hits at w a.original

  -- The statement about one waiver that the loop carries on.
  abbrev pub Step : Waiver → List AppliedFinding → List AppliedFinding × WaiverStatus → Type 0
  Step w xs r = (r.0 ≡ map (reach w) xs) × (is_applied r.1 ≡ any (hits_finding w) xs)

  Step-miss :
      (w : Waiver) (xs : List AppliedFinding) (status : WaiverStatus)
      → any (hits_finding w) xs ≡ false
      → is_applied status ≡ false
      → Step w xs (xs, status)
  Step-miss w xs status h s = (sym (reach-none w xs h), s ∙ sym h)

  target_status-hits :
      (w : Waiver) (f : Finding)
      → ltb at w.issued_at ≡ false
      → ltb at w.expires_at ≡ true
      → str_eq f.id w.finding_id ≡ true
      → is_applied (target_status w f) ≡ hits at w f
  unfolding target_status
  target_status-hits w f h₀ h₁ h₂ = ground arith

  apply_target-Step :
      (w : Waiver) (xs : List AppliedFinding) (i : ℕ) (a : AppliedFinding)
      → Unique str_eq (map key xs)
      → by_id (map key xs) w.finding_id ≡ some i
      → element xs i ≡ some a
      → is_applied (target_status w a.original) ≡ hits at w a.original
      → Step w xs (apply_target base w xs i a)
  unfolding apply_target
  apply_target-Step w xs i a u h e s =
      let whole = any-by_id (hits_finding w) xs w.finding_id i a (λ x hx. ground arith) u h e in
      let (_, _, _, wrote) = update-by_id (reach w) xs w.finding_id i u h in
      (written whole (wrote ∙ here-reach w xs), s ∙ sym whole)
    where
      written :
          any (hits_finding w) xs ≡ hits_finding w a
          → update (reach w) i xs ≡ map (reach w) xs
          → (if is_applied (target_status w a.original) then update (waive base w) i xs else xs)
            ≡ map (reach w) xs
      written whole wrote = elim (Bool-cases (hits at w a.original)) [
        | inl hit ↦ rw (s ∙ hit) (update-at (waive base w) (reach w) i xs a e (rw hit refl) ∙ wrote)
        | inr miss ↦ rw (s ∙ miss) (sym (reach-none w xs (whole ∙ miss)))
      ]

  nowhere :
      (w : Waiver) (xs : List AppliedFinding)
      → any (λ a. str_eq (key a) w.finding_id) xs ≡ false
      → any (hits_finding w) xs ≡ false
  nowhere w xs h =
      any_mono (hits_finding w) (λ a. str_eq (key a) w.finding_id) xs (λ x hx. ground arith) h

  never :
      (w : Waiver) (xs : List AppliedFinding)
      → (not (ltb at w.issued_at) && ltb at w.expires_at) ≡ false
      → any (hits_finding w) xs ≡ false
  never w [] h = refl
  never w (x ∷ xs) h = ground (arith, never w xs)

  pub apply_waiver-Step :
      (w : Waiver) (xs : List AppliedFinding)
      → Unique str_eq (map key xs)
      → Step w xs (apply_waiver base at (map key xs) xs w)
  unfolding apply_waiver
  apply_waiver-Step w xs u = elim (Bool-cases (ltb at w.issued_at)) [
    | inl early ↦ rw early (Step-miss w xs not_yet_valid (never w xs (rw early refl)) refl)
    | inr issued ↦ elim (Bool-cases (ltb at w.expires_at)) [
      | inr late ↦ rw issued (rw late (Step-miss w xs expired (never w xs (rw issued late)) refl))
      | inl valid ↦ elim (Option-cases (by_id (map key xs) w.finding_id)) [
        | inl n ↦ rw issued (
            rw valid
              (rw n (Step-miss w xs unused (nowhere w xs (by_id-none xs w.finding_id n)) refl)))
        | inr (i, e) ↦
            let (a, found, same, _) = update-by_id (λ y. y) xs w.finding_id i u e in
            rw issued (
              rw valid (
                rw e (
                  rw found (
                    apply_target-Step w xs i a u e found
                      (target_status-hits w a.original issued valid same)))))
      ]
    ]
  ]
