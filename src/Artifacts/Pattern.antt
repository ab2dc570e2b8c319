-- ===== src/Artifacts/Pattern.antt =====
-- Matching a path against the pattern of an artifact rule (internal/artifactcollect/pattern.go): the
-- recursion `rec`, with its table of answers and its count of calls. A pattern and a path are given as
-- `splitRel` splits them. `path.Match` is the parameter `match`; `none` is its ErrBadPattern.
pub mod Reference
pub mod Places
pub mod Budget
pub mod Answers
mod Tests
use glassroot.Common.{
  ℕ, zero, suc, String, Bool, true, false, ◌&&◌, Option, none, some, List, [], ◌∷◌, Result, ok, err,
  ◌>>=◌, ◌>>◌, reject_if, ltb, ◌==◌, str_eq, find,
}

-- The limits of limits.go: the most that a collector may be given, and its defaults.
abbrev pub max_pattern_components : ℕ
max_pattern_components = 128

abbrev pub max_path_depth : ℕ
max_path_depth = 128

abbrev pub max_pattern_states : ℕ
max_pattern_states = 1_000_000

pub data Code : Type 0 where
  pattern_limit malformed : Code

-- An entry of `memo`.
pub record Entry : Type 0 where
  pub pattern_at : ℕ
  pub path_at : ℕ
  pub answer : Bool

-- What the calls of `rec` share.
pub record Search : Type 0 where
  pub states : ℕ
  pub memo : List Entry

abbrev pub start : Search
start = record { states = 0; memo = [] }

abbrev pub at_key : ℕ → ℕ → Entry → Bool
at_key i j e = e.pattern_at == i && e.path_at == j

abbrev pub Answer : Type 0
Answer = Result Code (Bool × Search)

abbrev pub counted : Search → Search
counted s = record s { states = suc s.states }

-- `defer func() { memo[key] = ok }()`
abbrev pub noted : ℕ → ℕ → Bool × Search → Bool × Search
noted i j r =
    (r.0, record (r.1) { memo = record { pattern_at = i; path_at = j; answer = r.0 } ∷ r.1.memo })

-- What a call of `rec` does before and after its own work.
pub visit : ℕ → ℕ → ℕ → (Search → Answer) → Search → Answer
visit max i j work s = do
  reject_if (ltb max (suc s.states)) pattern_limit
  elim (find (at_key i j) s.memo) [
    | some e ↦ ok (e.answer, counted s)
    | none ↦ work (counted s) >>= λ r. ok (noted i j r)
  ]

abbrev pub is_any : String → Bool
is_any component = str_eq component "**"

-- The second of two tries, where the first has failed.
abbrev pub unless_found : (Search → Answer) → Bool × Search → Answer
unless_found second (true, s) = ok (true, s)
unless_found second (false, s) = second s

abbrev pub or_else : Answer → (Search → Answer) → Answer
or_else first second = first >>= unless_found second

abbrev pub if_matches : Option Bool → (Search → Answer) → Search → Answer
if_matches none next s = err malformed
if_matches (some true) next s = next s
if_matches (some false) next s = ok (false, s)

module _ (match : String → String → Option Bool) (max : ℕ) where
  -- `rec` of `matchRelativePattern`: the components of the pattern from `i` on, and of the path from `j` on.
  unfoldable pub match_from : List String → List String → ℕ → ℕ → Search → Answer
  unfolding visit
  match_from [] [] i j = visit max i j (λ s. ok (true, s))
  match_from [] (r ∷ rs) i j = visit max i j (λ s. ok (false, s))
  match_from (p ∷ ps) [] i j = visit max i j (λ s. elim (is_any p) [
    | true ↦ or_else (match_from ps [] (suc i) j s) (λ s'. ok (false, s'))
    | false ↦ ok (false, s)
  ])
  match_from (p ∷ ps) (r ∷ rs) i j = visit max i j (λ s. elim (is_any p) [
    | true ↦ or_else (match_from ps (r ∷ rs) (suc i) j s) (match_from (p ∷ ps) rs i (suc j))
    | false ↦ if_matches (match p r) (match_from ps rs (suc i) (suc j)) s
  ])

  -- `rec` of `patternCanMatchDescendant`.
  unfoldable pub descend_from : List String → List String → ℕ → ℕ → Search → Answer
  unfolding visit
  descend_from [] [] i j = visit max i j (λ s. ok (false, s))
  descend_from (p ∷ ps) [] i j = visit max i j (λ s. ok (true, s))
  descend_from [] (r ∷ rs) i j = visit max i j (λ s. ok (false, s))
  descend_from (p ∷ ps) (r ∷ rs) i j = visit max i j (λ s. elim (is_any p) [
    | true ↦ or_else (descend_from ps (r ∷ rs) (suc i) j s) (descend_from (p ∷ ps) rs i (suc j))
    | false ↦ if_matches (match p r) (descend_from ps rs (suc i) (suc j)) s
  ])

  abbrev outcome : Answer → Result Code Bool
  outcome a = a >>= λ r. ok (r.0)

  unfoldable pub match_relative_pattern : List String → List String → Result Code Bool
  unfolding match_from
  match_relative_pattern pattern rel = outcome (match_from pattern rel 0 0 start)

  unfoldable pub pattern_can_match_descendant : List String → List String → Result Code Bool
  unfolding descend_from
  pattern_can_match_descendant pattern rel = outcome (descend_from pattern rel 0 0 start)
