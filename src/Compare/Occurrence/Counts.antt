-- ===== src/Compare/Occurrence/Counts.antt =====
-- What an occurrence profile says of the repetitions.
use glassroot.Common.{
  ℕ, ◌+◌, ◌≤◌, ◌≡◌, ◌↔◌, refl, sym, subst, true, List, [], ◌∷◌, length, All, arith, Bool-cases, inl,
  inr,
}
use glassroot.Model.{stable}
use glassroot.Compare.Occurrence.{
  RepetitionFacts, is_complete, Tally, no_tally, add_repetition, tally, build_occurrence_profile,
}

-- A repetition with complete coverage has a count within the bounds.
abbrev pub Within : ℕ → ℕ → RepetitionFacts → Type 0
Within low high r = is_complete r.coverage ≡ true → (low ≤ r.facts) × (r.facts ≤ high)

tally-maximum : (t : Tally) (rs : List RepetitionFacts) → t.maximum ≤ (tally t rs).maximum
unfolding tally
tally-maximum t [] = omega arith
tally-maximum t (r ∷ rs) = ground (arith, tally-maximum (add_repetition t r) rs)

tally-minimum :
    (t : Tally) (rs : List RepetitionFacts) → t.min_set ≡ true → (tally t rs).minimum ≤ t.minimum
unfolding tally
tally-minimum t [] h = omega arith
tally-minimum t (r ∷ rs) h = ground (arith, tally-minimum (add_repetition t r) rs)

tally-Within :
    (t : Tally) (rs : List RepetitionFacts)
    → All (Within (tally t rs).minimum (tally t rs).maximum) rs
unfolding tally
tally-Within t [] = tt
tally-Within t (r ∷ rs) = (
  λ c.
      ground
        (arith, c, tally-maximum (add_repetition t r) rs, tally-minimum (add_repetition t r) rs),
  tally-Within (add_repetition t r) rs,
)

tally-length :
    (t : Tally) (rs : List RepetitionFacts)
    → (tally t rs).complete_count + (tally t rs).incomplete_count
      ≡ t.complete_count + t.incomplete_count + length rs
unfolding tally
tally-length t [] = omega arith
tally-length t (r ∷ rs) = ground (arith, tally-length (add_repetition t r) rs)

abbrev Complete : RepetitionFacts → Type 0
Complete r = is_complete r.coverage ≡ true

tally-incomplete :
    (t : Tally) (rs : List RepetitionFacts) → t.incomplete_count ≤ (tally t rs).incomplete_count
unfolding tally
tally-incomplete t [] = omega arith
tally-incomplete t (r ∷ rs) = ground (arith, tally-incomplete (add_repetition t r) rs)

tally-Complete :
    (t : Tally) (rs : List RepetitionFacts)
    → (tally t rs).incomplete_count ≤ t.incomplete_count
    → All Complete rs
unfolding tally
tally-Complete t [] h = tt
tally-Complete t (r ∷ rs) h = elim (Bool-cases (is_complete r.coverage)) [
  | inl yes_ ↦ (yes_, tally-Complete (add_repetition t r) rs (ground (arith, yes_)))
  | inr partly ↦ ground (arith, partly, tally-incomplete (add_repetition t r) rs)
]

-- A repetition with complete coverage in which the fact occurs `n` times.
abbrev Counted : ℕ → RepetitionFacts → Type 0
Counted n r = Complete r × (r.facts ≡ n)

-- All repetitions are counted, and there are two at least, with the same count.
abbrev pub Repeats : List RepetitionFacts → Type 0
Repeats reps = (2 ≤ length reps) × (n : ℕ) × All (Counted n) reps

tally-Counted :
    (n : ℕ) (t : Tally) (rs : List RepetitionFacts)
    → t.min_set ≡ true
    → t.minimum ≡ n
    → t.maximum ≡ n
    → All (Counted n) rs
    → ((tally t rs).minimum ≡ n)
      × ((tally t rs).maximum ≡ n)
      × ((tally t rs).incomplete_count ≡ t.incomplete_count)
unfolding tally
tally-Counted n t [] s lo hi h = (lo, hi, refl)
tally-Counted n t (r ∷ rs) s lo hi h =
    let (lo', hi', kept) =
      tally-Counted n (add_repetition t r) rs (ground (arith, s, h.0)) (ground (arith, s, lo, h.0))
        (ground (arith, hi, h.0)) h.1 in
    (lo', hi', ground (arith, kept, h.0))

tally_counts :
    (n : ℕ) (rs : List RepetitionFacts)
    → 2 ≤ length rs
    → All (Counted n) rs
    → ((tally no_tally rs).minimum ≡ n)
      × ((tally no_tally rs).maximum ≡ n)
      × ((tally no_tally rs).incomplete_count ≡ 0)
unfolding tally
tally_counts n [] long h = absurd (omega arith)
tally_counts n (r ∷ rs) long h =
    let (lo, hi, kept) =
      tally-Counted n (add_repetition no_tally r) rs (ground (arith, h.0)) (ground (arith, h.0))
        (ground (arith, h.0)) h.1 in
    (lo, hi, ground (arith, kept, h.0))

All-Counted :
    (n : ℕ) (rs : List RepetitionFacts) → All Complete rs → All (Within n n) rs → All (Counted n) rs
All-Counted n [] c w = tt
All-Counted n (r ∷ rs) c w = ((c.0, ground (arith, w.0 c.0)), All-Counted n rs c.1 w.1)

-- The profile of a fact in all planned repetitions. Its complete and incomplete repetitions are all
-- of them; the count of each complete one lies between the minimum and the maximum; and it is stable
-- exactly if there are two repetitions or more, all complete, and the fact occurs equally often in each.
pub build_occurrence_profile_lem :
    (reps : List RepetitionFacts)
    → (let p = build_occurrence_profile (length reps) reps in
        (p.complete_repetition_count + p.incomplete_repetition_count ≡ length reps)
        × All (Within p.minimum_known_count p.maximum_known_count) reps
        × ((p.repeatability ≡ stable) ↔ Repeats reps))
unfolding build_occurrence_profile
build_occurrence_profile_lem reps =
    let t = tally no_tally reps in
    let size = tally-length no_tally reps in
    let within = tally-Within no_tally reps in
    (
      omega (arith, size),
      within,
      (
        λ s.
            let all_complete : t.incomplete_count ≤ 0 = ground (arith, s, size) in
            let same : t.minimum ≡ t.maximum = ground (arith, s) in
            (
              ground (arith, s, size),
              t.minimum,
              All-Counted t.minimum reps (tally-Complete no_tally reps all_complete)
                  (subst (λ m. All (Within t.minimum m) reps) (sym same) within),
            ),
        λ (long, n, h).
            let (lo, hi, none_) = tally_counts n reps long h in
            ground (arith, lo, hi, none_, size, long),
      ),
    )
