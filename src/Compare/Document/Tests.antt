-- ===== src/Compare/Document/Tests.antt =====
-- The comparison of a document whose only fact is on the base.
use glassroot.Common.{ℕ, ◌≡◌, refl, Option, some, [], ◌∷◌, map, count, ok, err}
use glassroot.Model.{removed, DeltaRecord}
use glassroot.Compare.Variants.{Names, Hashes}
use glassroot.Compare.Match.Marks.{of_base, observed}
use glassroot.Compare.Validate.{default_limits}
use glassroot.Compare.Validate.Tests.{both_sides}
use glassroot.Compare.Document.{FrozenDelta, frozen_delta, compare_document, group_scenarios}
use glassroot.Compare.Document.Groups.{group_of, firsts, group_scenarios-eq-groups}
use glassroot.Compare.Document.Observed.{total_differing, compare_document-observed}

abbrev names : Names
names = record { kind = λ k. "kind"; source = λ s. "source" }

abbrev hashes : Hashes
hashes = record { anchor = λ k s parts. "anchor"; record_id = λ scenario r. "id" }

abbrev json : FrozenDelta → Option ℕ
json d = some 100

abbrev compared : FrozenDelta
compared = elim (compare_document names hashes json default_limits both_sides) [
  | ok d ↦ d
  | err e ↦ frozen_delta both_sides [] []
]

one_removed : map (λ (r : DeltaRecord). r.kind) compared.delta.records ≡ removed ∷ []
unfolding compare_document
one_removed = refl

one_counted : compared.summary.removed ≡ 1
unfolding compare_document
one_counted = refl

compare_document-observed_example :
    count (observed of_base) compared.delta.records
    ≡ total_differing names hashes of_base (group_scenarios both_sides.attempts)
unfolding compare_document
compare_document-observed_example =
    compare_document-observed names hashes json default_limits both_sides compared of_base refl

group_scenarios-eq-groups_example :
    group_scenarios both_sides.attempts ≡ map (group_of both_sides.attempts) ("s" ∷ [])
unfolding firsts
group_scenarios-eq-groups_example = group_scenarios-eq-groups both_sides.attempts
