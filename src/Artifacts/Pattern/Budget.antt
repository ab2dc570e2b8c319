-- ===== src/Artifacts/Pattern/Budget.antt =====
-- How many calls the matching makes: one, and two for each place of the table.
use glassroot.Common.{
  ℕ, suc, ◌+◌, ◌*◌, ◌≤◌, ◌<◌, ◌≡◌, refl, ap, ◌∙◌, String, Bool, true, false, ◌||◌, Option, some,
  List, [], ◌∷◌, length, ok, ltb, ==_iff, any, find-none, find-some, Bool-cases, inl, inr, arith,
  All,
}
use glassroot.Artifacts.Pattern.{
  Entry, Search, Answer, start, at_key, counted, noted, visit, is_any, unless_found, or_else,
  if_matches, match_from, descend_from, match_relative_pattern, pattern_can_match_descendant,
}
use glassroot.Artifacts.Pattern.Places.{
  table, with_place, table_taken, table-ext, nothing, table_all,
}

-- The places that the table has, and those of the calls that have not returned.
abbrev taken : (ℕ → ℕ → Bool) → List Entry → ℕ → ℕ → Bool
taken pending memo a b = pending a b || any (at_key a b) memo

-- Every component of the pattern is well formed: `path.Match` answers.
abbrev pub WellFormed : (String → String → Option Bool) → List String → Type 0
WellFormed match = All (λ p. (r : String) → (b : Bool) × (match p r ≡ some b))

module _ (max rows columns : ℕ) where
  abbrev left : (ℕ → ℕ → Bool) → Search → ℕ
  left pending s = table (taken pending s.memo) rows columns

  -- From `s` on, an answer comes if there is room for `extra` calls and two for each place that is left;
  -- and it uses no more.
  abbrev Fits : (ℕ → ℕ → Bool) → ℕ → Search → Answer → Type 0
  Fits pending extra s a =
      s.states + extra + 2 * left pending s ≤ max
      → (v : Bool) × (s' : Search) × (a ≡ ok (v, s'))
        × (s'.states + 2 * left pending s' ≤ s.states + extra + 2 * left pending s)

  ok-Fits :
      (pending : ℕ → ℕ → Bool) (extra : ℕ) (v : Bool) (s : Search)
      → Fits pending extra s (ok (v, s))
  ok-Fits pending extra v s h = (v, s, refl, omega arith)

  visit-Fits :
      (pending : ℕ → ℕ → Bool) (i j : ℕ) (work : Search → Answer) (s : Search)
      → i < rows
      → j < columns
      → pending i j ≡ false
      → ((s₁ : Search) → Fits (with_place i j pending) 2 s₁ (work s₁))
      → Fits pending 1 s (visit max i j work s)
  unfolding visit
  visit-Fits pending i j work s hi hj free fits room = elim (Bool-cases (any (at_key i j) s.memo)) [
    | inl seen ↦
        let (e, hit, _) = find-some (at_key i j) s.memo seen in
        let within : ltb max (suc s.states) ≡ false = ground arith in
        (e.answer, counted s, rw (within, hit) refl, omega arith)
    | inr unseen ↦
        let within : ltb max (suc s.states) ≡ false = ground arith in
        let miss = find-none (at_key i j) s.memo unseen in
        let one_less : suc (left (with_place i j pending) s) ≡ left pending s =
          ap suc (
            table-ext (taken (with_place i j pending) s.memo)
              (with_place i j (taken pending s.memo)) rows columns (λ a b. ground arith))
          ∙ table_taken (taken pending s.memo) i j rows columns hi hj
              (ground (arith, free, unseen)) in
        let (v, s₂, done, cost) = fits (counted s) (omega (arith, one_less)) in
        let same : left pending (noted i j (v, s₂)).1 ≡ left (with_place i j pending) s₂ =
          table-ext (taken pending (noted i j (v, s₂)).1.memo)
            (taken (with_place i j pending) s₂.memo) rows columns
            (λ a b. ground (arith, ==_iff a i, ==_iff b j, ==_iff i a, ==_iff j b)) in
        (v, (noted i j (v, s₂)).1, rw (within, miss, done) refl, omega (arith, one_less, same))
  ]

  or_else-Fits :
      (pending : ℕ → ℕ → Bool) (s : Search) (first : Answer) (second : Search → Answer)
      → Fits pending 1 s first
      → ((s₁ : Search) → Fits pending 1 s₁ (second s₁))
      → Fits pending 2 s (or_else first second)
  or_else-Fits pending s first second one two room =
      let (v, s₁, done, cost) = one (omega arith) in rw done (rest v s₁ cost)
    where
      rest :
          (v : Bool) (s₁ : Search)
          → s₁.states + 2 * left pending s₁ ≤ s.states + 1 + 2 * left pending s
          → (w : Bool) × (s' : Search) × (unless_found second (v, s₁) ≡ ok (w, s'))
            × (s'.states + 2 * left pending s' ≤ s.states + 2 + 2 * left pending s)
      rest true s₁ cost = (true, s₁, refl, omega arith)
      rest false s₁ cost = let (w, s', done, c) = two s₁ (omega arith) in (w, s', done, omega arith)

  if_matches-Fits :
      (pending : ℕ → ℕ → Bool) (m : Option Bool) (b : Bool) (next : Search → Answer) (s : Search)
      → m ≡ some b
      → Fits pending 1 s (next s)
      → Fits pending 2 s (if_matches m next s)
  if_matches-Fits pending m true next s known one room =
      let (v, s', done, cost) = one (omega arith) in rw known (v, s', done, omega arith)
  if_matches-Fits pending m false next s known one room = rw known (false, s, refl, omega arith)

-- The pending calls stand before the place.
abbrev Before : ℕ → ℕ → (ℕ → ℕ → Bool) → Type 0
Before i j pending = (a b : ℕ) → pending a b ≡ true → (ltb a i || ltb b j) ≡ true

Before-free : (i j : ℕ) (pending : ℕ → ℕ → Bool) → Before i j pending → pending i j ≡ false
Before-free i j pending h = elim (Bool-cases (pending i j)) [
  | inl is_pending ↦ ground (arith, h i j is_pending)
  | inr free ↦ free
]

Before-down :
    (i j : ℕ) (pending : ℕ → ℕ → Bool)
    → Before i j pending
    → Before (suc i) j (with_place i j pending)
Before-down i j pending h a b p = ground (arith, h a b)

Before-right :
    (i j : ℕ) (pending : ℕ → ℕ → Bool)
    → Before i j pending
    → Before i (suc j) (with_place i j pending)
Before-right i j pending h a b p = ground (arith, h a b)

Before-both :
    (i j : ℕ) (pending : ℕ → ℕ → Bool)
    → Before i j pending
    → Before (suc i) (suc j) (with_place i j pending)
Before-both i j pending h a b p = ground (arith, h a b)

module _ (match : String → String → Option Bool) (max rows columns : ℕ) where
  component-Fits :
      (pending : ℕ → ℕ → Bool) (star : Bool) (m : Option Bool) (b : Bool) (s : Search)
      (first : Answer) (second third : Search → Answer)
      → m ≡ some b
      → Fits max rows columns pending 1 s first
      → ((s₁ : Search) → Fits max rows columns pending 1 s₁ (second s₁))
      → Fits max rows columns pending 1 s (third s)
      → Fits max rows columns pending 2 s
          (elim star [ true ↦ or_else first second | false ↦ if_matches m third s ])
  component-Fits pending true m b s first second third known one two three =
      or_else-Fits max rows columns pending s first second one two
  component-Fits pending false m b s first second third known one two three =
      if_matches-Fits max rows columns pending m b third s known three

  last_component-Fits :
      (pending : ℕ → ℕ → Bool) (star : Bool) (s : Search) (first : Answer)
      → Fits max rows columns pending 1 s first
      → Fits max rows columns pending 2 s
          (elim star [ true ↦ or_else first (λ s'. ok (false, s')) | false ↦ ok (false, s) ])
  last_component-Fits pending true s first one =
      or_else-Fits max rows columns pending s first (λ s'. ok (false, s')) one
        (λ s₁. ok-Fits max rows columns pending 1 false s₁)
  last_component-Fits pending false s first one = ok-Fits max rows columns pending 2 false s

  match_from-Fits :
      (ps rs : List String) (i j : ℕ) (pending : ℕ → ℕ → Bool) (s : Search)
      → WellFormed match ps
      → i + length ps < rows
      → j + length rs < columns
      → Before i j pending
      → Fits max rows columns pending 1 s (match_from match max ps rs i j s)
  unfolding match_from
  match_from-Fits [] [] i j pending s w hi hj before =
      visit-Fits max rows columns pending i j _ s (omega arith) (omega arith)
        (Before-free i j pending before) (ok-Fits max rows columns (with_place i j pending) 2 true)
  match_from-Fits [] (r ∷ rs) i j pending s w hi hj before =
      visit-Fits max rows columns pending i j _ s (omega arith) (omega arith)
        (Before-free i j pending before) (ok-Fits max rows columns (with_place i j pending) 2 false)
  match_from-Fits (p ∷ ps) [] i j pending s w hi hj before =
      visit-Fits max rows columns pending i j _ s (omega arith) (omega arith)
        (Before-free i j pending before)
        (λ s₁. last_component-Fits (with_place i j pending) (is_any p) s₁ _ (
          match_from-Fits ps [] (suc i) j (with_place i j pending) s₁ w.1 (omega arith)
            (omega arith) (Before-down i j pending before)))
  match_from-Fits (p ∷ ps) (r ∷ rs) i j pending s w hi hj before =
      let (b, known) = w.0 r in
      visit-Fits max rows columns pending i j _ s (omega arith) (omega arith)
        (Before-free i j pending before)
        (λ s₁.
          component-Fits (with_place i j pending) (is_any p) (match p r) b s₁ _
            (match_from match max (p ∷ ps) rs i (suc j))
            (match_from match max ps rs (suc i) (suc j)) known
            (match_from-Fits ps (r ∷ rs) (suc i) j (with_place i j pending) s₁ w.1 (omega arith)
              (omega arith) (Before-down i j pending before))
            (λ s₂.
              match_from-Fits (p ∷ ps) rs i (suc j) (with_place i j pending) s₂ w (omega arith)
                (omega arith) (Before-right i j pending before))
            (match_from-Fits ps rs (suc i) (suc j) (with_place i j pending) s₁ w.1 (omega arith)
              (omega arith) (Before-both i j pending before)))

  descend_from-Fits :
      (ps rs : List String) (i j : ℕ) (pending : ℕ → ℕ → Bool) (s : Search)
      → WellFormed match ps
      → i + length ps < rows
      → j + length rs < columns
      → Before i j pending
      → Fits max rows columns pending 1 s (descend_from match max ps rs i j s)
  unfolding descend_from
  descend_from-Fits [] [] i j pending s w hi hj before =
      visit-Fits max rows columns pending i j _ s (omega arith) (omega arith)
        (Before-free i j pending before) (ok-Fits max rows columns (with_place i j pending) 2 false)
  descend_from-Fits [] (r ∷ rs) i j pending s w hi hj before =
      visit-Fits max rows columns pending i j _ s (omega arith) (omega arith)
        (Before-free i j pending before) (ok-Fits max rows columns (with_place i j pending) 2 false)
  descend_from-Fits (p ∷ ps) [] i j pending s w hi hj before =
      visit-Fits max rows columns pending i j _ s (omega arith) (omega arith)
        (Before-free i j pending before) (ok-Fits max rows columns (with_place i j pending) 2 true)
  descend_from-Fits (p ∷ ps) (r ∷ rs) i j pending s w hi hj before =
      let (b, known) = w.0 r in
      visit-Fits max rows columns pending i j _ s (omega arith) (omega arith)
        (Before-free i j pending before)
        (λ s₁.
          component-Fits (with_place i j pending) (is_any p) (match p r) b s₁ _
            (descend_from match max (p ∷ ps) rs i (suc j))
            (descend_from match max ps rs (suc i) (suc j)) known
            (descend_from-Fits ps (r ∷ rs) (suc i) j (with_place i j pending) s₁ w.1 (omega arith)
              (omega arith) (Before-down i j pending before))
            (λ s₂.
              descend_from-Fits (p ∷ ps) rs i (suc j) (with_place i j pending) s₂ w (omega arith)
                (omega arith) (Before-right i j pending before))
            (descend_from-Fits ps rs (suc i) (suc j) (with_place i j pending) s₁ w.1 (omega arith)
              (omega arith) (Before-both i j pending before)))

-- The calls that suffice for a pattern and a path: one, and two for each place.
abbrev pub enough : List String → List String → ℕ
enough pattern rel = 1 + 2 * (suc (length pattern) * suc (length rel))

module _ (match : String → String → Option Bool) (max : ℕ) (pattern rel : List String)
    (well : WellFormed match pattern) (room : enough pattern rel ≤ max) where
  all_left :
      table (taken nothing []) (suc (length pattern)) (suc (length rel))
      ≡ suc (length pattern) * suc (length rel)
  all_left =
      table-ext (taken nothing []) nothing (suc (length pattern)) (suc (length rel)) (λ a b. refl)
      ∙ table_all (suc (length pattern)) (suc (length rel))

  pub match_relative_pattern_total :
      (v : Bool) × (match_relative_pattern match max pattern rel ≡ ok v)
  unfolding match_relative_pattern
  match_relative_pattern_total =
      let (v, s, done, _) =
        match_from-Fits match max (suc (length pattern)) (suc (length rel)) pattern rel 0 0 nothing
          start well (omega arith) (omega arith) (λ a b p. cc) (omega (arith, all_left)) in
      (v, rw done refl)

  pub pattern_can_match_descendant_total :
      (v : Bool) × (pattern_can_match_descendant match max pattern rel ≡ ok v)
  unfolding pattern_can_match_descendant
  pattern_can_match_descendant_total =
      let (v, s, done, _) =
        descend_from-Fits match max (suc (length pattern)) (suc (length rel)) pattern rel 0 0
          nothing start well (omega arith) (omega arith) (λ a b p. cc) (omega (arith, all_left)) in
      (v, rw done refl)
