-- ===== src/Artifacts/Pattern/Tests.antt =====
-- The matching at concrete patterns, with components that match themselves and "*".
use glassroot.Common.{
  ◌≡◌, refl, String, Bool, true, false, ◌||◌, Option, some, List, [], ◌∷◌, ok, err, str_eq, arith,
}
use glassroot.Artifacts.Pattern.{
  pattern_limit, max_pattern_states, match_from, descend_from, match_relative_pattern,
  pattern_can_match_descendant,
}
use glassroot.Artifacts.Pattern.Reference.{glob}
use glassroot.Artifacts.Pattern.Budget.{WellFormed}
use glassroot.Artifacts.Pattern.Answers.{
  match_relative_pattern-eq-glob, pattern_can_match_descendant_sees,
}

abbrev simple : String → String → Option Bool
simple p r = some (str_eq p "*" || str_eq p r)

abbrev logs : List String
logs = "out" ∷ "**" ∷ "log" ∷ []

abbrev deep : List String
deep = "out" ∷ "a" ∷ "b" ∷ "log" ∷ []

logs-WellFormed : WellFormed simple logs
logs-WellFormed = (λ r. (_, refl), (λ r. (_, refl), (λ r. (_, refl), tt)))

match_relative_pattern-eq-glob_example :
    match_relative_pattern simple max_pattern_states logs deep ≡ ok (glob simple logs deep)
match_relative_pattern-eq-glob_example =
    match_relative_pattern-eq-glob simple logs deep logs-WellFormed (omega arith) (omega arith)

deep_matches : match_relative_pattern simple max_pattern_states logs deep ≡ ok true
unfolding match_relative_pattern match_from
deep_matches = refl

out_of_states : match_relative_pattern simple 3 logs deep ≡ err pattern_limit
unfolding match_relative_pattern match_from
out_of_states = refl

other_directory :
    pattern_can_match_descendant simple max_pattern_states logs ("src" ∷ []) ≡ ok false
unfolding pattern_can_match_descendant descend_from
other_directory = refl

pattern_can_match_descendant_sees_example :
    pattern_can_match_descendant simple max_pattern_states logs ("out" ∷ "a" ∷ []) ≡ ok true
pattern_can_match_descendant_sees_example =
    pattern_can_match_descendant_sees simple logs ("out" ∷ "a" ∷ []) logs-WellFormed (omega arith)
      (omega arith) max_pattern_states "b" ("log" ∷ []) deep_matches
