-- ===== src/Artifacts/Pattern/Answers.antt =====
-- The two functions together, under the limits that a collector has.
use glassroot.Common.{
  ℕ, suc, ◌*◌, ◌≤◌, ◌≡◌, sym, ap, ◌∙◌, String, Bool, true, Option, List, ◌∷◌, ◌++◌, length, ok,
  arith,
}
use glassroot.Artifacts.Pattern.{
  max_pattern_components, max_path_depth, max_pattern_states, match_relative_pattern,
  pattern_can_match_descendant,
}
use glassroot.Artifacts.Pattern.Reference.{
  glob, glob-reaches, match_relative_pattern-glob, pattern_can_match_descendant-reaches,
}
use glassroot.Artifacts.Pattern.Budget.{
  WellFormed, enough, match_relative_pattern_total, pattern_can_match_descendant_total,
}

product_mono : (a b c : ℕ) → a ≤ b → a * c ≤ b * c
product_mono a b c h = grind arith

enough_room :
    (pattern rel : List String)
    → length pattern ≤ max_pattern_components
    → length rel ≤ max_path_depth
    → enough pattern rel ≤ max_pattern_states
enough_room pattern rel hp hr =
    omega (arith, product_mono (suc (length pattern)) 129 (suc (length rel)) (omega arith))

module _ (match : String → String → Option Bool) (pattern rel : List String)
    (well : WellFormed match pattern) (components : length pattern ≤ max_pattern_components)
    (depth : length rel ≤ max_path_depth) where
  -- For a well-formed pattern and a path within the limits on their components, the matching never
  -- reaches its limit on states, and its answer is that of the matching with no table and no limit.
  pub match_relative_pattern-eq-glob :
      match_relative_pattern match max_pattern_states pattern rel ≡ ok (glob match pattern rel)
  match_relative_pattern-eq-glob =
      let (v, done) =
        match_relative_pattern_total match max_pattern_states pattern rel well
          (enough_room pattern rel components depth) in
      done ∙ ap ok (match_relative_pattern-glob match max_pattern_states pattern rel v done)

  -- If a well-formed pattern matches a path below an entry, then `patternCanMatchDescendant` says so of the entry,
  -- within the limits on the components of the pattern and of the entry's path; so no match is lost
  -- unnoticed behind a symbolic link or a special file.
  pub pattern_can_match_descendant_sees :
      (max : ℕ) (name : String) (below : List String)
      → match_relative_pattern match max pattern (rel ++ name ∷ below) ≡ ok true
      → pattern_can_match_descendant match max_pattern_states pattern rel ≡ ok true
  pattern_can_match_descendant_sees max name below found =
      let (v, done) =
        pattern_can_match_descendant_total match max_pattern_states pattern rel well
          (enough_room pattern rel components depth) in
      done
      ∙ ap ok (
          pattern_can_match_descendant-reaches match max_pattern_states pattern rel v done
          ∙ glob-reaches match pattern rel name below (
              sym (match_relative_pattern-glob match max pattern (rel ++ name ∷ below) true found)))
