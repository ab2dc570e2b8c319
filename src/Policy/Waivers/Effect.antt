-- ===== src/Policy/Waivers/Effect.antt =====
-- What the waivers of the base do to the findings of an evaluation.
use glassroot.Common.{ℕ, Bool, ◌&&◌, List, [], ◌∷◌, any}
use glassroot.Model.{Finding}
use glassroot.Policy.Waivers.{Waiver, BaseAssessment, AppliedFinding, is_valid_state}
use glassroot.Policy.Waivers.Resolve.{hits, reach, hits_finding}

module _ (base : BaseAssessment) (at : ℕ) where
  -- All the waivers, one after another.
  abbrev reaches : List Waiver → AppliedFinding → AppliedFinding
  reaches [] a = a
  reaches (w ∷ ws) a = reaches ws (reach base at w a)

  abbrev hit_by : List Waiver → Finding → Bool
  hit_by ws f = any (λ w. hits at w f) ws

  abbrev hits_any : List AppliedFinding → Waiver → Bool
  hits_any xs w = any (hits_finding base at w) xs

abbrev pub waived_by : BaseAssessment → ℕ → Finding → Bool
waived_by base at f = is_valid_state base.state && any (λ w. hits at w f) base.waivers
