-- ===== src/Compare/Match/Reported.antt =====
-- What the records of a scenario show of its facts (internal/compare/match.go `compareScenario`).
use glassroot.Common.{
  ℕ, suc, ◌≤◌, ◌≡◌, refl, sym, ap, ap₂, subst, ◌∙◌, String, Bool, true, false, not, Option, none,
  some, List, [], ◌∷◌, ◌++◌, count, count-append, Result, ok, >>=-eq-ok, str_eq, eq_iff,
  if◌then◌else◌, Bool-cases, inl, inr, arith,
}
use glassroot.Model.{DeltaRecord}
use glassroot.Compare.Facts.{Code, Fact, AttemptTrace, typed_anchor_digest}
use glassroot.Compare.Variants.{
  Variant, Names, Hashes, has_key, fact_key, add_fact, add_facts, build_from, build_variants,
  profile_for_variant, prepare, attempts_complete,
}
use glassroot.Compare.Order.{order_changed_record, order_record, order_of, orders, stable_sequences}
use glassroot.Compare.Match.{compare_variants, compare_scenario}
use glassroot.Compare.Match.Counting.{str_eq_refl}
use glassroot.Compare.Match.Marks.{Side, of_base, of_head, pick, observed, equal_at}
use glassroot.Compare.Match.Accounted.{UniqueKeys, Fresh, compare_variants-observed}

-- The count of a key of which there is another, and of the key itself.
add_fact-other :
    (key k : String) (r : ℕ) (f : Fact) (vs : List Variant)
    → str_eq key k ≡ false
    → count (has_key k) (add_fact key r f vs) ≡ count (has_key k) vs
unfolding add_fact
add_fact-other key k r f [] h = rw h refl
add_fact-other key k r f (v ∷ vs) h = elim (Bool-cases (has_key key v)) [
  | inl same ↦ rw same refl
  | inr other ↦
      rw other (ap (λ n. if has_key k v then suc n else n) (add_fact-other key k r f vs h))
]

add_fact-own :
    (key : String) (r : ℕ) (f : Fact) (vs : List Variant)
    → count (has_key key) vs ≤ 1
    → count (has_key key) (add_fact key r f vs) ≤ 1
unfolding add_fact
add_fact-own key r f [] h = rw (str_eq_refl key) (omega arith)
add_fact-own key r f (v ∷ vs) h = elim (Bool-cases (has_key key v)) [
  | inl same ↦ rw same h
  | inr other ↦ rw other (ground (arith, other, add_fact-own key r f vs (ground (arith, other, h))))
]

add_fact-UniqueKeys :
    (key : String) (r : ℕ) (f : Fact) (vs : List Variant)
    → UniqueKeys vs
    → UniqueKeys (add_fact key r f vs)
add_fact-UniqueKeys key r f vs u k = elim (Bool-cases (str_eq key k)) [
  | inl same ↦
      let e = (eq_iff key k).0 same in
      subst (λ j. count (has_key j) (add_fact key r f vs) ≤ 1) e (add_fact-own key r f vs (u key))
  | inr other ↦ omega (arith, add_fact-other key k r f vs other, u k)
]

add_fact-Fresh :
    (key : String) (r : ℕ) (f : Fact) (vs : List Variant) → Fresh vs → Fresh (add_fact key r f vs)
unfolding add_fact
add_fact-Fresh key r f [] h = (refl, tt)
add_fact-Fresh key r f (v ∷ vs) h = elim (Bool-cases (has_key key v)) [
  | inl same ↦ rw same (h.0, h.1)
  | inr other ↦ rw other (h.0, add_fact-Fresh key r f vs h.1)
]

-- What the loops over the facts keep.
abbrev pub Sound : List Variant → Type 0
Sound vs = UniqueKeys vs × Fresh vs

add_facts-Sound :
    (names : Names) (r : ℕ) (fs : List Fact) (vs : List Variant)
    → Sound vs
    → Sound (add_facts names r fs vs)
unfolding add_facts
add_facts-Sound names r [] vs h = h
add_facts-Sound names r (f ∷ fs) vs h =
    add_facts-Sound names r fs (add_fact (fact_key names f) r f vs) (
      add_fact-UniqueKeys (fact_key names f) r f vs h.0,
      add_fact-Fresh (fact_key names f) r f vs h.1,
    )

build_from-Sound :
    (names : Names) (xs : List AttemptTrace) (vs : List Variant)
    → Sound vs
    → Sound (build_from names xs vs)
unfolding build_from
build_from-Sound names [] vs h = h
build_from-Sound names (a ∷ xs) vs h =
    build_from-Sound names xs (add_facts names a.repetition a.facts vs)
      (add_facts-Sound names a.repetition a.facts vs h)

build_variants-Sound : (names : Names) (xs : List AttemptTrace) → Sound (build_variants names xs)
unfolding build_variants
build_variants-Sound names xs = build_from-Sound names xs [] ((λ k. omega arith), tt)

-- The keys and the flags do not change with the profile and the anchor.
abbrev Kept : List Variant → List Variant → Type 0
Kept vs ws = ((k : String) → count (has_key k) ws ≡ count (has_key k) vs) × (Fresh vs → Fresh ws)

prepare-keeps :
    (hashes : Hashes) (attempts : List AttemptTrace) (vs ws : List Variant)
    → prepare hashes attempts vs ≡ ok ws
    → Kept vs ws
unfolding prepare
prepare-keeps hashes attempts [] ws h =
    let e : [] ≡ ws = cc in subst (Kept []) e ((λ k. refl), (λ f. f))
prepare-keeps hashes attempts (v ∷ vs) ws h =
    let (a, _, h₁) = >>=-eq-ok (typed_anchor_digest hashes.anchor v.first) _ h in
    let (rest, e, h₂) = >>=-eq-ok (prepare hashes attempts vs) _ h₁ in
    let w : Variant = record v { profile = profile_for_variant attempts v; anchor = a } in
    let same : w ∷ rest ≡ ws = cc in
    let kept = prepare-keeps hashes attempts vs rest e in
    subst (Kept (v ∷ vs)) same
      ((λ k. ap (λ n. if has_key k v then suc n else n) (kept.0 k)), (λ f. (f.0, kept.1 f.1)))

prepare-Sound :
    (names : Names) (hashes : Hashes) (xs : List AttemptTrace) (ws : List Variant)
    → prepare hashes xs (build_variants names xs) ≡ ok ws
    → Sound ws
prepare-Sound names hashes xs ws h =
    let kept = prepare-keeps hashes xs (build_variants names xs) ws h in
    let built = build_variants-Sound names xs in
    ((λ k. omega (arith, kept.0 k, built.0 k)), kept.1 built.1)

order_of-observed :
    (hashes : Hashes) (scenario : String) (side : Side) (bs hs : List String)
    → count (observed side) (order_of hashes scenario bs hs) ≡ 0
unfolding order_of
order_of-observed hashes scenario side [] hs = refl
order_of-observed hashes scenario side (b ∷ bs) [] = refl
order_of-observed hashes scenario side (b ∷ bs) (h ∷ hs) = neither side _
  where
    neither :
        (side' : Side) (c : Bool)
        → count
            (observed side')
            (if c then order_changed_record hashes scenario (b ∷ bs) (h ∷ hs) ∷ [] else [])
          ≡ 0
    neither of_base true = refl
    neither of_base false = refl
    neither of_head true = refl
    neither of_head false = refl

orders-observed :
    (hashes : Hashes) (scenario : String) (side : Side) (o q : Option (List String))
    → count (observed side) (orders hashes scenario o q) ≡ 0
orders-observed hashes scenario side none q = refl
orders-observed hashes scenario side (some bs) none = refl
orders-observed hashes scenario side (some bs) (some hs) =
    order_of-observed hashes scenario side bs hs

ok_value :
    {a b : List DeltaRecord × ℕ}
    → ◌≡◌ {A = Result Code (List DeltaRecord × ℕ)} (ok a) (ok b)
    → a ≡ b
ok_value h = cc

picked-Sound :
    (side : Side) (base head : List Variant) → Sound base → Sound head → Sound (pick side base head)
picked-Sound of_base base head b h = b
picked-Sound of_head base head b h = h

-- If two lists of attempts are compared, then for both sides, the records that show the side are as
-- many as the variants of its facts that have no counterpart with the same occurrences on the other
-- side: each such variant is shown once, as added, removed, changed in its occurrences or modified.
pub compare_scenario-observed :
    (names : Names) (hashes : Hashes) (scenario : String)
    (base_attempts head_attempts : List AttemptTrace) (base head : List Variant)
    (records : List DeltaRecord) (n : ℕ) (side : Side)
    → prepare hashes base_attempts (build_variants names base_attempts) ≡ ok base
    → prepare hashes head_attempts (build_variants names head_attempts) ≡ ok head
    → compare_scenario names hashes scenario base_attempts head_attempts ≡ ok (records, n)
    → count (observed side) records
      ≡ count (λ (v : Variant). not (equal_at base head v.key)) (pick side base head)
unfolding compare_scenario order_record
compare_scenario-observed names hashes scenario base_attempts head_attempts base head records n side
      hb hh h =
    let sound =
      picked-Sound side base head (prepare-Sound names hashes base_attempts base hb)
        (prepare-Sound names hashes head_attempts head hh) in
    let between =
      compare_variants names hashes scenario (attempts_complete base_attempts)
        (attempts_complete head_attempts) in
    let all_of = between base head in
    let found : all_of ++ order_record hashes scenario base_attempts head_attempts ≡ records =
      let (b, e₁, h₁) =
        >>=-eq-ok (prepare hashes base_attempts (build_variants names base_attempts)) _ h in
      let (c, e₂, h₂) =
        >>=-eq-ok (prepare hashes head_attempts (build_variants names head_attempts)) _ h₁ in
      let eb : b ≡ base = cc in
      let ec : c ≡ head = cc in
      ap₂
        (λ (x y : List Variant).
          between x y ++ order_record hashes scenario base_attempts head_attempts)
        (sym eb) (sym ec)
      ∙ ap (λ (r : List DeltaRecord × ℕ). r.0) (ok_value h₂) in
    ap (count (observed side)) (sym found)
    ∙ omega (
      arith,
      count-append (observed side) all_of
          (order_record hashes scenario base_attempts head_attempts),
      orders-observed hashes scenario side (stable_sequences base_attempts)
          (stable_sequences head_attempts),
      compare_variants-observed names hashes scenario (attempts_complete base_attempts)
          (attempts_complete head_attempts) base head side sound.0 sound.1,
    )
