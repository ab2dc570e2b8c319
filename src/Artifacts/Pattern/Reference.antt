-- ===== src/Artifacts/Pattern/Reference.antt =====
-- The matching without a table and without a limit, and what the code's answers say about it.
use glassroot.Common.{
  ℕ, zero, suc, ◌≡◌, refl, sym, ap, ap₂, subst, ◌∙◌, String, Bool, true, false, ◌&&◌, ◌||◌, Option,
  none, some, List, [], ◌∷◌, ◌++◌, Result, ok, >>=-eq-ok, reject_if, ltb, ==_iff, find, Bool-cases,
  Option-cases, inl, inr, arith, All, drop,
}
use glassroot.Artifacts.Pattern.{
  Code, pattern_limit, Entry, Search, Answer, start, at_key, counted, noted, visit, is_any,
  unless_found, or_else, if_matches, match_from, descend_from, match_relative_pattern,
  pattern_can_match_descendant,
}

-- `path.Match` says that the component matches.
abbrev pub matched : Option Bool → Bool
matched (some true) = true
matched _ = false

module _ (match : String → String → Option Bool) where
  -- "**" stands for any components, any other component for one that it matches.
  pub glob : List String → List String → Bool
  glob [] [] = true
  glob [] (r ∷ rs) = false
  glob (p ∷ ps) [] = is_any p && glob ps []
  glob (p ∷ ps) (r ∷ rs) =
      let skip = glob ps (r ∷ rs) in
      let stay = glob (p ∷ ps) rs in
      let next = glob ps rs in
      elim (is_any p) [ true ↦ skip || stay | false ↦ matched (match p r) && next ]

  -- The same up to the end of the path, where some of the pattern is left.
  pub reaches : List String → List String → Bool
  reaches [] rs = false
  reaches (p ∷ ps) [] = true
  reaches (p ∷ ps) (r ∷ rs) =
      let skip = reaches ps (r ∷ rs) in
      let stay = reaches (p ∷ ps) rs in
      let next = reaches ps rs in
      elim (is_any p) [ true ↦ skip || stay | false ↦ matched (match p r) && next ]

  -- A pattern that matches a path below a directory reaches its end.
  pub glob-reaches :
      (ps rs : List String) (x : String) (xs : List String)
      → glob ps (rs ++ x ∷ xs) ≡ true
      → reaches ps rs ≡ true
  unfolding glob reaches
  glob-reaches [] [] x xs h = cc
  glob-reaches [] (r ∷ rs) x xs h = cc
  glob-reaches (p ∷ ps) [] x xs h = refl
  glob-reaches (p ∷ ps) (r ∷ rs) x xs h =
      ground (
        arith,
        glob-reaches ps (r ∷ rs) x xs,
        glob-reaches (p ∷ ps) rs x xs,
        glob-reaches ps rs x xs,
      )

drop-suc :
    (i : ℕ) (ps : List String) (p : String) (rest : List String)
    → drop i ps ≡ p ∷ rest
    → drop (suc i) ps ≡ rest
drop-suc zero [] p rest h = cc
drop-suc zero (x ∷ xs) p rest h = cc
drop-suc (suc i) [] p rest h = cc
drop-suc (suc i) (x ∷ xs) p rest h = drop-suc i xs p rest h

module _ (spec : ℕ → ℕ → Bool) where
  -- Every answer in the table is right.
  abbrev pub IsRight : List Entry → Type 0
  IsRight = All (λ e. e.answer ≡ spec e.pattern_at e.path_at)

  -- From `s` on, an answer is `right`, and so is all that is noted.
  abbrev pub Tells : Bool → Search → Answer → Type 0
  Tells right s a =
      IsRight s.memo → (v : Bool) (s' : Search) → a ≡ ok (v, s') → (v ≡ right) × IsRight s'.memo

  found-IsRight :
      (i j : ℕ) (memo : List Entry) (e : Entry)
      → IsRight memo
      → find (at_key i j) memo ≡ some e
      → e.answer ≡ spec i j
  found-IsRight i j [] e h f = cc
  found-IsRight i j (x ∷ xs) e h f = elim (Bool-cases (at_key i j x)) [
    | inl here ↦
        let e₁ : x ≡ e = ground (arith, here) in
        let i₁ : x.pattern_at ≡ i = ground (arith, here, ==_iff x.pattern_at i) in
        let j₁ : x.path_at ≡ j = ground (arith, here, ==_iff x.path_at j) in
        ap (λ (y : Entry). y.answer) (sym e₁) ∙ h.0 ∙ (λ k. spec (i₁ k) (j₁ k))
    | inr other ↦ found-IsRight i j xs e h.1 (ground (arith, other))
  ]

  ok-answer :
      (v w : Bool) (s t : Search) → ◌≡◌ {A = Answer} (ok (v, s)) (ok (w, t)) → (v ≡ w) × (s ≡ t)
  ok-answer v w s t h = (cc, cc)

  ok-Tells : (v : Bool) (s : Search) → Tells v s (ok (v, s))
  ok-Tells v s h w t e =
      let (same, after) = ok-answer v w s t e in
      (sym same, subst (λ (z : Search). IsRight z.memo) after h)

  visit-Tells :
      (max i j : ℕ) (right : Bool) (work : Search → Answer) (s : Search)
      → right ≡ spec i j
      → ((s₁ : Search) → Tells right s₁ (work s₁))
      → Tells right s (visit max i j work s)
  unfolding visit
  visit-Tells max i j right work s is_spec tells h v s' e =
      let (_, _, e₁) = >>=-eq-ok (reject_if (ltb max (suc s.states)) pattern_limit) _ e in
      elim (Option-cases (find (at_key i j) s.memo)) [
        | inr (entry, hit) ↦
            let (same, after) = ok-answer entry.answer v (counted s) s' (rw hit at e₁) in
            (
              sym same ∙ found-IsRight i j s.memo entry h hit ∙ sym is_spec,
              subst (λ (z : Search). IsRight z.memo) after h,
            )
        | inl miss ↦
            let (r, done, e₂) = >>=-eq-ok (work (counted s)) _ (rw miss at e₁) in
            let (told, valid) = tells (counted s) h r.0 r.1 done in
            let (same, after) = ok-answer r.0 v (noted i j r).1 s' e₂ in
            (sym same ∙ told, subst (λ (z : Search). IsRight z.memo) after (told ∙ is_spec, valid))
      ]

  unless_found-Tells :
      (a b : Bool) (second : Search → Answer) (r : Bool × Search)
      → ((s₁ : Search) → Tells b s₁ (second s₁))
      → r.0 ≡ a
      → Tells (a || b) (r.1) (unless_found second r)
  unless_found-Tells a b second (true, s) two told h v s' e =
      let (same, after) = ok-answer true v s s' e in
      (ground (arith, same, told), subst (λ (z : Search). IsRight z.memo) after h)
  unless_found-Tells a b second (false, s) two told h v s' e =
      let (right, valid) = two s h v s' e in (ground (arith, right, told), valid)

  or_else-Tells :
      (a b : Bool) (s : Search) (first : Answer) (second : Search → Answer)
      → Tells a s first
      → ((s₁ : Search) → Tells b s₁ (second s₁))
      → Tells (a || b) s (or_else first second)
  or_else-Tells a b s first second one two h v s' e =
      let (r, done, e₁) = >>=-eq-ok first (unless_found second) e in
      let (told, valid) = one h r.0 r.1 done in
      unless_found-Tells a b second r two told valid v s' e₁

  if_matches-Tells :
      (m : Option Bool) (b : Bool) (next : Search → Answer) (s : Search)
      → Tells b s (next s)
      → Tells (matched m && b) s (if_matches m next s)
  if_matches-Tells none b next s tells = λ h v s' e. cc
  if_matches-Tells (some true) b next s tells = tells
  if_matches-Tells (some false) b next s tells = ok-Tells false s

  -- A component of the pattern at the end of the path, and before it.
  last-Tells :
      (any g : Bool) (s : Search) (first : Answer)
      → Tells g s first
      → Tells
          (any && g)
          s
          (elim any [ true ↦ or_else first (λ s'. ok (false, s')) | false ↦ ok (false, s) ])
  last-Tells true g s first one =
      subst (λ b. Tells b s (or_else first (λ s'. ok (false, s')))) (ground arith)
        (or_else-Tells g false s first (λ s'. ok (false, s')) one (ok-Tells false))
  last-Tells false g s first one = ok-Tells false s

  component-Tells :
      (any skip stay next : Bool) (m : Option Bool) (s : Search) (first : Answer)
      (second third : Search → Answer)
      → Tells skip s first
      → ((s₁ : Search) → Tells stay s₁ (second s₁))
      → Tells next s (third s)
      → Tells
          (elim any [ true ↦ skip || stay | false ↦ matched m && next ])
          s
          (elim any [ true ↦ or_else first second | false ↦ if_matches m third s ])
  component-Tells true skip stay next m s first second third one two three =
      or_else-Tells skip stay s first second one two
  component-Tells false skip stay next m s first second third one two three =
      if_matches-Tells m next third s three

module _ (match : String → String → Option Bool) (max : ℕ) (pattern rel : List String) where
  abbrev glob_at : ℕ → ℕ → Bool
  glob_at i j = glob match (drop i pattern) (drop j rel)

  abbrev reaches_at : ℕ → ℕ → Bool
  reaches_at i j = reaches match (drop i pattern) (drop j rel)

  match_from-Tells :
      (ps rs : List String) (i j : ℕ) (s : Search)
      → drop i pattern ≡ ps
      → drop j rel ≡ rs
      → Tells glob_at (glob match ps rs) s (match_from match max ps rs i j s)
  unfolding match_from glob
  match_from-Tells [] [] i j s a b =
      visit-Tells glob_at max i j true _ s (ap₂ (glob match) (sym a) (sym b))
        (ok-Tells glob_at true)
  match_from-Tells [] (r ∷ rs) i j s a b =
      visit-Tells glob_at max i j false _ s (ap₂ (glob match) (sym a) (sym b))
        (ok-Tells glob_at false)
  match_from-Tells (p ∷ ps) [] i j s a b =
      visit-Tells glob_at max i j (is_any p && glob match ps []) _ s
        (ap₂ (glob match) (sym a) (sym b))
        (λ s₁.
          last-Tells glob_at (is_any p) (glob match ps []) s₁ _
            (match_from-Tells ps [] (suc i) j s₁ (drop-suc i pattern p ps a) b))
  match_from-Tells (p ∷ ps) (r ∷ rs) i j s a b =
      visit-Tells glob_at max i j (glob match (p ∷ ps) (r ∷ rs)) _ s
        (ap₂ (glob match) (sym a) (sym b))
        (λ s₁.
          component-Tells glob_at (is_any p) (glob match ps (r ∷ rs)) (glob match (p ∷ ps) rs)
            (glob match ps rs) (match p r) s₁ _ _ (match_from match max ps rs (suc i) (suc j))
            (match_from-Tells ps (r ∷ rs) (suc i) j s₁ (drop-suc i pattern p ps a) b)
            (λ s₂. match_from-Tells (p ∷ ps) rs i (suc j) s₂ a (drop-suc j rel r rs b))
            (match_from-Tells ps rs (suc i) (suc j) s₁ (drop-suc i pattern p ps a)
              (drop-suc j rel r rs b)))

  descend_from-Tells :
      (ps rs : List String) (i j : ℕ) (s : Search)
      → drop i pattern ≡ ps
      → drop j rel ≡ rs
      → Tells reaches_at (reaches match ps rs) s (descend_from match max ps rs i j s)
  unfolding descend_from reaches
  descend_from-Tells [] [] i j s a b =
      visit-Tells reaches_at max i j false _ s (ap₂ (reaches match) (sym a) (sym b))
        (ok-Tells reaches_at false)
  descend_from-Tells [] (r ∷ rs) i j s a b =
      visit-Tells reaches_at max i j false _ s (ap₂ (reaches match) (sym a) (sym b))
        (ok-Tells reaches_at false)
  descend_from-Tells (p ∷ ps) [] i j s a b =
      visit-Tells reaches_at max i j true _ s (ap₂ (reaches match) (sym a) (sym b))
        (ok-Tells reaches_at true)
  descend_from-Tells (p ∷ ps) (r ∷ rs) i j s a b =
      visit-Tells reaches_at max i j (reaches match (p ∷ ps) (r ∷ rs)) _ s
        (ap₂ (reaches match) (sym a) (sym b))
        (λ s₁.
          component-Tells reaches_at (is_any p) (reaches match ps (r ∷ rs))
            (reaches match (p ∷ ps) rs) (reaches match ps rs) (match p r) s₁ _ _
            (descend_from match max ps rs (suc i) (suc j))
            (descend_from-Tells ps (r ∷ rs) (suc i) j s₁ (drop-suc i pattern p ps a) b)
            (λ s₂. descend_from-Tells (p ∷ ps) rs i (suc j) s₂ a (drop-suc j rel r rs b))
            (descend_from-Tells ps rs (suc i) (suc j) s₁ (drop-suc i pattern p ps a)
              (drop-suc j rel r rs b)))

-- What the two functions answer, where they answer.
module _ (match : String → String → Option Bool) (max : ℕ) (pattern rel : List String) where
  pub match_relative_pattern-glob :
      (v : Bool) → match_relative_pattern match max pattern rel ≡ ok v → v ≡ glob match pattern rel
  unfolding match_relative_pattern
  match_relative_pattern-glob v h =
      let (r, found, e) = >>=-eq-ok (match_from match max pattern rel 0 0 start) _ h in
      ok-value r.0 v e
      ∙ (match_from-Tells match max pattern rel pattern rel 0 0 start refl refl tt r.0 r.1 found).0
    where
      ok-value : (a b : Bool) → ◌≡◌ {A = Result Code Bool} (ok a) (ok b) → b ≡ a
      ok-value a b e = cc

  pub pattern_can_match_descendant-reaches :
      (v : Bool)
      → pattern_can_match_descendant match max pattern rel ≡ ok v
      → v ≡ reaches match pattern rel
  unfolding pattern_can_match_descendant
  pattern_can_match_descendant-reaches v h =
      let (r, found, e) = >>=-eq-ok (descend_from match max pattern rel 0 0 start) _ h in
      ok-value r.0 v e
      ∙ (descend_from-Tells match max pattern rel pattern rel 0 0 start refl refl tt r.0 r.1
          found).0
    where
      ok-value : (a b : Bool) → ◌≡◌ {A = Result Code Bool} (ok a) (ok b) → b ≡ a
      ok-value a b e = cc
