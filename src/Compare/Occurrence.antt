-- ===== src/Compare/Occurrence.antt =====
-- How often a fact occurs in the repetitions (internal/compare/match.go `buildOccurrenceProfile`).
pub mod Counts
mod Tests
use glassroot.Common.{
  ℕ, zero, suc, ◌+◌, Bool, true, false, not, ◌||◌, ◌&&◌, List, [], ◌∷◌, ◌++◌, ltb, ◌==◌,
  if◌then◌else◌, length,
}
use glassroot.Model.{
  CoverageAssessment, RepeatabilityAssessment, partial, none_covered, stable, variable, single,
  not_assessable, RepetitionOccurrence, OccurrenceProfile,
}
use glassroot.Compare.Facts.{CoverageState}

pub record RepetitionFacts : Type 0 where
  pub repetition : ℕ
  pub coverage : CoverageState
  pub facts : ℕ

abbrev pub is_complete : CoverageState → Bool
is_complete CoverageState.complete = true
is_complete _ = false

-- The numbers that the loop collects, and `minSet`.
pub record Tally : Type 0 where
  pub complete_count : ℕ
  pub incomplete_count : ℕ
  pub minimum : ℕ
  pub maximum : ℕ
  pub total : ℕ
  pub min_set : Bool

abbrev pub no_tally : Tally
no_tally = record {
  complete_count = 0;
  incomplete_count = 0;
  minimum = 0;
  maximum = 0;
  total = 0;
  min_set = false;
}

abbrev pub add_repetition : Tally → RepetitionFacts → Tally
add_repetition t r =
    if is_complete r.coverage
    then record {
      complete_count = suc t.complete_count;
      incomplete_count = t.incomplete_count;
      minimum = if not t.min_set || ltb r.facts t.minimum then r.facts else t.minimum;
      maximum = if ltb t.maximum r.facts then r.facts else t.maximum;
      total = t.total + r.facts;
      min_set = true;
    }
    else record t { incomplete_count = suc t.incomplete_count }

unfoldable pub tally : Tally → List RepetitionFacts → Tally
tally t [] = t
tally t (r ∷ rs) = tally (add_repetition t r) rs

abbrev pub occurrence : RepetitionFacts → RepetitionOccurrence
occurrence r =
    if is_complete r.coverage
    then record {
      repetition = r.repetition;
      coverage = CoverageAssessment.complete;
      count_known = true;
      count = r.facts;
    }
    else record { repetition = r.repetition; coverage = partial; count_known = false; count = 0 }

pub occurrences : List RepetitionFacts → List RepetitionOccurrence
occurrences [] = []
occurrences (r ∷ rs) = occurrence r ∷ occurrences rs

abbrev pub coverage_of : ℕ → Tally → CoverageAssessment
coverage_of planned t =
    if t.complete_count == planned
    then CoverageAssessment.complete
    else if ltb 0 t.complete_count
    then partial
    else none_covered

abbrev pub repeatability_of : ℕ → Tally → RepeatabilityAssessment
repeatability_of planned t =
    if not (t.complete_count == planned) || t.complete_count == 0
    then not_assessable
    else if t.complete_count == 1
    then single
    else if t.minimum == t.maximum
    then stable
    else variable

abbrev pub profile_of : ℕ → List RepetitionFacts → Tally → OccurrenceProfile
profile_of planned reps t = record {
  planned_repetition_count = planned;
  complete_repetition_count = t.complete_count;
  incomplete_repetition_count = t.incomplete_count;
  minimum_known_count = t.minimum;
  maximum_known_count = t.maximum;
  total_known_count = t.total;
  coverage = coverage_of planned t;
  repeatability = repeatability_of planned t;
  repetitions = occurrences reps;
}

unfoldable pub build_occurrence_profile : ℕ → List RepetitionFacts → OccurrenceProfile
unfolding tally occurrences
build_occurrence_profile planned reps = profile_of planned reps (tally no_tally reps)

-- `emptyOccurrence`
abbrev pub empty_occurrence : OccurrenceProfile
empty_occurrence = record {
  planned_repetition_count = 0;
  complete_repetition_count = 0;
  incomplete_repetition_count = 0;
  minimum_known_count = 0;
  maximum_known_count = 0;
  total_known_count = 0;
  coverage = none_covered;
  repeatability = not_assessable;
  repetitions = [];
}
