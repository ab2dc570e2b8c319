-- ===== src/Compare/Document/Groups.antt =====
-- The groups of attempts, by a description of each group (internal/compare/match.go `groupScenarios`).
use glassroot.Common.{
  ◌≡◌, refl, sym, ap, ap₂, subst, ◌∙◌, String, Bool, true, false, not, ◌&&◌, List, [], ◌∷◌, ◌++◌,
  map, any-append, select, contains_string, str_eq, eq_iff, sort, if◌then◌else◌, Bool-cases, inl,
  inr, arith,
}
use glassroot.Compare.Facts.{is_base, AttemptTrace}
use glassroot.Compare.Match.Counting.{Distinct, str_eq_refl, str_eq_sym}
use glassroot.Compare.Document.{
  ScenarioGroup, add_to_group, new_group, add_attempt, add_attempts, earlier, sort_group,
  group_scenarios,
}

abbrev pub of_scenario : Bool → String → AttemptTrace → Bool
of_scenario true id a = str_eq a.scenario_id id && is_base a.revision
of_scenario false id a = str_eq a.scenario_id id && not (is_base a.revision)

-- The attempts of a scenario, as they stand in the document.
abbrev unsorted_group : List AttemptTrace → String → ScenarioGroup
unsorted_group attempts id = record {
  id = id;
  base = select (of_scenario true id) attempts;
  head = select (of_scenario false id) attempts;
}

-- The attempts of a scenario on the base and on the other side, by their repetition.
abbrev pub group_of : List AttemptTrace → String → ScenarioGroup
group_of attempts id = record {
  id = id;
  base = sort earlier (select (of_scenario true id) attempts);
  head = sort earlier (select (of_scenario false id) attempts);
}

-- The texts that are not in the list yet, each where it first stands.
unfoldable pub firsts : List String → List String → List String
firsts known [] = []
firsts known (x ∷ xs) =
    if contains_string x known then firsts known xs else x ∷ firsts (known ++ x ∷ []) xs

abbrev ids_of : List AttemptTrace → List String
ids_of attempts = map (λ (a : AttemptTrace). a.scenario_id) attempts

select-append {ℓ} :
    {A : Type ℓ} (p : A → Bool) (xs ys : List A) → select p (xs ++ ys) ≡ select p xs ++ select p ys
select-append p [] ys = refl
select-append p (x ∷ xs) ys = elim (Bool-cases (p x)) [
  | inl yes_ ↦ rw yes_ (ap (λ zs. x ∷ zs) (select-append p xs ys))
  | inr no_ ↦ rw no_ (select-append p xs ys)
]

append_nil {ℓ} : {A : Type ℓ} (xs : List A) → xs ++ [] ≡ xs
append_nil [] = refl
append_nil (x ∷ xs) = ap (λ ys. x ∷ ys) (append_nil xs)

append_assoc {ℓ} : {A : Type ℓ} (xs ys zs : List A) → (xs ++ ys) ++ zs ≡ xs ++ (ys ++ zs)
append_assoc [] ys zs = refl
append_assoc (x ∷ xs) ys zs = ap (λ rest. x ∷ rest) (append_assoc xs ys zs)

-- An attempt of another scenario changes nothing in a group.
skipped :
    (c : Bool) (id : String) (ys : List AttemptTrace) (a : AttemptTrace)
    → of_scenario c id a ≡ false
    → select (of_scenario c id) (ys ++ a ∷ []) ≡ select (of_scenario c id) ys
skipped c id ys a h =
    select-append (of_scenario c id) ys (a ∷ [])
    ∙ ap (λ (b : Bool). select (of_scenario c id) ys ++ (if b then a ∷ [] else [])) h
    ∙ append_nil (select (of_scenario c id) ys)

joined :
    (c : Bool) (id : String) (ys : List AttemptTrace) (a : AttemptTrace)
    → of_scenario c id a ≡ true
    → select (of_scenario c id) (ys ++ a ∷ []) ≡ select (of_scenario c id) ys ++ a ∷ []
joined c id ys a h =
    select-append (of_scenario c id) ys (a ∷ [])
    ∙ ap (λ (b : Bool). select (of_scenario c id) ys ++ (if b then a ∷ [] else [])) h

other_scenario :
    (c : Bool) (id : String) (a : AttemptTrace)
    → str_eq a.scenario_id id ≡ false
    → of_scenario c id a ≡ false
other_scenario true id a h = rw h refl
other_scenario false id a h = rw h refl

group-ap :
    (id : String) {x x' y y' : List AttemptTrace}
    → x ≡ x'
    → y ≡ y'
    → ◌≡◌ {A = ScenarioGroup}
        (record { id = id; base = x; head = y })
        (record { id = id; base = x'; head = y' })
group-ap id p q = ap₂ (λ (x y : List AttemptTrace). record { id = id; base = x; head = y }) p q

unsorted_group-other :
    (ys : List AttemptTrace) (a : AttemptTrace) (id : String)
    → str_eq a.scenario_id id ≡ false
    → unsorted_group (ys ++ a ∷ []) id ≡ unsorted_group ys id
unsorted_group-other ys a id h =
    group-ap id (skipped true id ys a (other_scenario true id a h))
      (skipped false id ys a (other_scenario false id a h))

-- An attempt joins the group of its scenario.
add_to_group-unsorted :
    (ys : List AttemptTrace) (a : AttemptTrace) (id : String)
    → str_eq a.scenario_id id ≡ true
    → add_to_group a (unsorted_group ys id) ≡ unsorted_group (ys ++ a ∷ []) id
add_to_group-unsorted ys a id h = elim (Bool-cases (is_base a.revision)) [
  | inl b ↦ rw b (
      group-ap id (sym (joined true id ys a (rw (h, b) refl)))
        (sym (skipped false id ys a (rw (h, b) refl))))
  | inr n ↦ rw n (
      group-ap id (sym (skipped true id ys a (rw (h, n) refl)))
        (sym (joined false id ys a (rw (h, n) refl))))
]

unchanged :
    (ys : List AttemptTrace) (a : AttemptTrace) (ids : List String)
    → contains_string a.scenario_id ids ≡ false
    → map (unsorted_group ys) ids ≡ map (unsorted_group (ys ++ a ∷ [])) ids
unchanged ys a [] h = refl
unchanged ys a (i ∷ is) h =
    ap₂ (λ (g : ScenarioGroup) (gs : List ScenarioGroup). g ∷ gs)
      (sym (unsorted_group-other ys a i (ground (arith, str_eq_sym a.scenario_id i))))
      (unchanged ys a is (ground arith))

add_attempt-new :
    (ys : List AttemptTrace) (a : AttemptTrace) (ids : List String)
    → contains_string a.scenario_id ids ≡ false
    → unsorted_group ys a.scenario_id ≡ new_group a.scenario_id
    → add_attempt a (map (unsorted_group ys) ids)
      ≡ map (unsorted_group (ys ++ a ∷ [])) (ids ++ a.scenario_id ∷ [])
unfolding add_attempt
add_attempt-new ys a [] h e =
    ap (λ (g : ScenarioGroup). g ∷ [])
      (ap (add_to_group a) (sym e)
        ∙ add_to_group-unsorted ys a a.scenario_id (str_eq_refl a.scenario_id))
add_attempt-new ys a (i ∷ is) h e =
    let other : str_eq i a.scenario_id ≡ false = ground arith in
    rw other (
      ap₂ (λ (g : ScenarioGroup) (gs : List ScenarioGroup). g ∷ gs)
        (sym (unsorted_group-other ys a i (str_eq_sym a.scenario_id i ∙ other)))
        (add_attempt-new ys a is (ground arith) e))

add_attempt-known :
    (ys : List AttemptTrace) (a : AttemptTrace) (ids : List String)
    → contains_string a.scenario_id ids ≡ true
    → Distinct ids
    → add_attempt a (map (unsorted_group ys) ids) ≡ map (unsorted_group (ys ++ a ∷ [])) ids
unfolding add_attempt
add_attempt-known ys a [] h d = cc
add_attempt-known ys a (i ∷ is) h d = elim (Bool-cases (str_eq i a.scenario_id)) [
  | inl same ↦
      let e = (eq_iff i a.scenario_id).0 same in
      rw same (
        ap₂ (λ (g : ScenarioGroup) (gs : List ScenarioGroup). g ∷ gs)
          (add_to_group-unsorted ys a i (str_eq_sym a.scenario_id i ∙ same))
          (unchanged ys a is (subst (λ j. contains_string j is ≡ false) e d.0)))
  | inr other ↦ rw other (
      ap₂ (λ (g : ScenarioGroup) (gs : List ScenarioGroup). g ∷ gs)
        (sym (unsorted_group-other ys a i (str_eq_sym a.scenario_id i ∙ other)))
        (add_attempt-known ys a is (ground (arith, other)) d.1))
]

-- A scenario that is not among the ids has no attempt.
abbrev Covered : List AttemptTrace → List String → Type 0
Covered ys ids =
    (id : String) → contains_string id ids ≡ false → unsorted_group ys id ≡ new_group id

Distinct-append :
    (ids : List String) (x : String)
    → Distinct ids
    → contains_string x ids ≡ false
    → Distinct (ids ++ x ∷ [])
Distinct-append [] x d h = (refl, tt)
Distinct-append (i ∷ is) x d h = (
  any-append (λ j. str_eq j i) is (x ∷ []) ∙ ground (arith, d.0, h, str_eq_sym x i),
  Distinct-append is x d.1 (ground arith),
)

apart :
    (x y : String) (ids : List String)
    → contains_string x ids ≡ true
    → contains_string y ids ≡ false
    → str_eq x y ≡ false
apart x y ids h n = elim (Bool-cases (str_eq x y)) [
  | inr other ↦ other
  | inl same ↦
      let e = (eq_iff x y).0 same in
      let here : contains_string y ids ≡ true = subst (λ z. contains_string z ids ≡ true) e h in cc
]

-- What is not in a list with one more text is not in the list, and is not that text.
outside_append :
    (y x : String) (ids : List String)
    → contains_string y (ids ++ x ∷ []) ≡ false
    → (contains_string y ids ≡ false) × (str_eq x y ≡ false)
outside_append y x ids h = ground (arith, any-append (λ z. str_eq z y) ids (x ∷ []))

add_attempts-unsorted :
    (xs ys : List AttemptTrace) (ids : List String)
    → Distinct ids
    → Covered ys ids
    → add_attempts xs (map (unsorted_group ys) ids)
      ≡ map (unsorted_group (ys ++ xs)) (ids ++ firsts ids (ids_of xs))
unfolding add_attempts firsts
add_attempts-unsorted [] ys ids d cov =
    ap₂ (λ (zs : List AttemptTrace) (is : List String). map (unsorted_group zs) is)
      (sym (append_nil ys)) (sym (append_nil ids))
add_attempts-unsorted (a ∷ xs) ys ids d cov =
    elim (Bool-cases (contains_string a.scenario_id ids)) [
      | inl known ↦ rw known (
          ap (add_attempts xs) (add_attempt-known ys a ids known d)
          ∙ add_attempts-unsorted xs (ys ++ a ∷ []) ids d
              (λ id h. unsorted_group-other ys a id (apart a.scenario_id id ids known h) ∙ cov id h)
          ∙ ap (λ (zs : List AttemptTrace). map (unsorted_group zs) (ids ++ firsts ids (ids_of xs)))
              (append_assoc ys (a ∷ []) xs))
      | inr new ↦ rw new (
          ap (add_attempts xs) (add_attempt-new ys a ids new (cov a.scenario_id new))
          ∙ add_attempts-unsorted xs (ys ++ a ∷ []) (ids ++ a.scenario_id ∷ [])
              (Distinct-append ids a.scenario_id d new)
              (λ id h.
                unsorted_group-other ys a id (outside_append id a.scenario_id ids h).1
                ∙ cov id (outside_append id a.scenario_id ids h).0)
          ∙ ap₂ (λ (zs : List AttemptTrace) (is : List String). map (unsorted_group zs) is)
              (append_assoc ys (a ∷ []) xs)
              (append_assoc ids (a.scenario_id ∷ [])
                (firsts (ids ++ a.scenario_id ∷ []) (ids_of xs))))
    ]

sorted_groups :
    (attempts : List AttemptTrace) (ids : List String)
    → map sort_group (map (unsorted_group attempts) ids) ≡ map (group_of attempts) ids
unfolding sort
sorted_groups attempts [] = refl
sorted_groups attempts (i ∷ is) =
    ap (λ (gs : List ScenarioGroup). group_of attempts i ∷ gs) (sorted_groups attempts is)

-- The groups are one for each scenario of the attempts, in the order in which the scenarios first
-- appear; each has all attempts of its scenario on the base, and all the others, sorted by repetition.
pub group_scenarios-eq-groups :
    (attempts : List AttemptTrace)
    → group_scenarios attempts ≡ map (group_of attempts) (firsts [] (ids_of attempts))
unfolding group_scenarios
group_scenarios-eq-groups attempts =
    ap (map sort_group) (add_attempts-unsorted attempts [] [] tt (λ id h. refl))
    ∙ sorted_groups attempts (firsts [] (ids_of attempts))
