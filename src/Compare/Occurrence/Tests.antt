-- ===== src/Compare/Occurrence/Tests.antt =====
-- The profile of a fact that occurs twice in one repetition and is not observed in another.
use glassroot.Common.{ℕ, ◌≡◌, refl, List, [], ◌∷◌, length, ◌+◌, All, ◌↔◌}
use glassroot.Model.{stable, variable, not_assessable}
use glassroot.Compare.Facts.{CoverageState}
use glassroot.Compare.Occurrence.{RepetitionFacts, build_occurrence_profile}
use glassroot.Compare.Occurrence.Counts.{build_occurrence_profile_lem, Within, Repeats}

abbrev seen : ℕ → ℕ → RepetitionFacts
seen i n = record { repetition = i; coverage = CoverageState.complete; facts = n }

abbrev lost : RepetitionFacts
lost = record { repetition = 3; coverage = CoverageState.incomplete; facts = 5 }

abbrev reps : List RepetitionFacts
reps = seen 1 2 ∷ seen 2 4 ∷ lost ∷ []

varies : (build_occurrence_profile 2 (seen 1 2 ∷ seen 2 4 ∷ [])).repeatability ≡ variable
unfolding build_occurrence_profile
varies = refl

lost_repetition : (build_occurrence_profile 3 reps).repeatability ≡ not_assessable
unfolding build_occurrence_profile
lost_repetition = refl

build_occurrence_profile_lem_example :
    let p = build_occurrence_profile (length reps) reps in
    (p.complete_repetition_count + p.incomplete_repetition_count ≡ length reps)
    × All (Within p.minimum_known_count p.maximum_known_count) reps
    × ((p.repeatability ≡ stable) ↔ Repeats reps)
build_occurrence_profile_lem_example = build_occurrence_profile_lem reps
