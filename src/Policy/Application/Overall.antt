-- ===== src/Policy/Application/Overall.antt =====
-- What the overall disposition of an application says.
use glassroot.Common.{ℕ, Bool, not, ◌&&◌}
use glassroot.Model.{is_failed, is_review, Finding}
use glassroot.Policy.Waivers.{BaseAssessment}
use glassroot.Policy.Waivers.Effect.{waived_by}
use glassroot.Policy.Application.{Application}

-- The findings of the evaluation that still ask for review once the waivers are applied.
abbrev pub still_review : BaseAssessment → ℕ → Finding → Bool
still_review base at f = is_review f.disposition && not (waived_by base at f)

abbrev pub finding_failed : Finding → Bool
finding_failed f = is_failed f.disposition
