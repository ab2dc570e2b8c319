-- ===== src/Compare/Order.antt =====
-- The record of facts that occur in another order (internal/compare/match.go `orderRecord`).
use glassroot.Common.{
  String, Bool, true, false, not, ◌&&◌, Option, none, some, List, [], ◌∷◌, map, all, str_eq,
  string_lt, sort, if◌then◌else◌,
}
use glassroot.Model.{order_changed, complete_observation, ObservationSource, sequence, DeltaRecord}
use glassroot.Compare.Facts.{Fact, AttemptTrace}
use glassroot.Compare.Occurrence.{is_complete, empty_occurrence}
use glassroot.Compare.Variants.{Hashes}

abbrev same_digests : List String → List String → Bool
same_digests [] [] = true
same_digests (a ∷ xs) (b ∷ bs) = str_eq a b && same_digests xs bs
same_digests _ _ = false

abbrev fact_digests : AttemptTrace → List String
fact_digests a = map (λ (f : Fact). f.semantic_digest) a.facts

unfoldable pub stable_sequences : List AttemptTrace → Option (List String)
stable_sequences [] = none
stable_sequences (a ∷ []) = none
stable_sequences (a ∷ b ∷ xs) =
    if all
      (λ (x : AttemptTrace).
        is_complete x.coverage && same_digests (fact_digests a) (fact_digests x))
      (a ∷ b ∷ xs)
    then some (fact_digests a)
    else none

abbrev pub order_changed_record : Hashes → String → List String → List String → DeltaRecord
order_changed_record hashes scenario base head =
    let rec : DeltaRecord = record {
      id = "";
      kind = order_changed;
      basis = complete_observation;
      fact_kind = sequence;
      source = ObservationSource.other_source "";
      anchor_digest = "";
      scenario_ids = scenario ∷ [];
      base_observed = false;
      head_observed = false;
      base_occurrence = empty_occurrence;
      head_occurrence = empty_occurrence;
      base_facts = [];
      head_facts = [];
      base_evidence = [];
      head_evidence = [];
      evidence = [];
      base_semantic_digests = base;
      head_semantic_digests = head;
      changed_fields = "sequence.order" ∷ [];
      limitations = [];
    } in
    record rec { id = hashes.record_id scenario rec }

-- Two sequences, where both sides have one.
unfoldable pub order_of : Hashes → String → List String → List String → List DeltaRecord
unfolding sort
order_of hashes scenario [] hs = []
order_of hashes scenario bs [] = []
order_of hashes scenario bs hs =
    if same_digests (sort string_lt bs) (sort string_lt hs) && not (same_digests bs hs)
    then order_changed_record hashes scenario bs hs ∷ []
    else []

abbrev pub orders : Hashes → String → Option (List String) → Option (List String) → List DeltaRecord
orders hashes scenario (some bs) (some hs) = order_of hashes scenario bs hs
orders hashes scenario _ _ = []

unfoldable pub order_record :
    Hashes → String → List AttemptTrace → List AttemptTrace → List DeltaRecord
unfolding order_of stable_sequences
order_record hashes scenario base head =
    orders hashes scenario (stable_sequences base) (stable_sequences head)
