-- ===== src/Review/Tests.antt =====
-- A document of two complete, equal sides, which passes.
use glassroot.Common.{ℕ, ◌≡◌, refl, Option, some, [], ok, err}
use glassroot.Model.{passed}
use glassroot.Policy.Evaluate.{Limits, FindingId, Evaluation}
use glassroot.Compare.Variants.{Names, Hashes}
use glassroot.Compare.Validate.{default_limits}
use glassroot.Compare.Validate.Tests.{equal_sides}
use glassroot.Compare.Document.{FrozenDelta, frozen_delta, compare_document}

abbrev names : Names
names = record { kind = λ k. "kind"; source = λ s. "source" }

abbrev hashes : Hashes
hashes = record { anchor = λ k s parts. "anchor"; record_id = λ scenario r. "id" }

abbrev json : FrozenDelta → Option ℕ
json d = some 100

abbrev limits : Limits
limits = record {
  max_findings = 100;
  max_findings_per_delta_record = 8;
  max_delta_record_ids_per_finding = 16;
  max_scenario_ids_per_finding = 16;
  max_evidence_refs_per_finding = 16;
  max_evidence_refs_total = 100;
  max_limitations_per_finding = 16;
}

abbrev finding_id : FindingId
finding_id rule ids scope scenarios = rule

abbrev compared : FrozenDelta
compared = elim (compare_document names hashes json default_limits equal_sides) [
  | ok d ↦ d
  | err e ↦ frozen_delta equal_sides [] []
]

abbrev evaluation : Evaluation
evaluation = record {
  overall = passed;
  findings = [];
  summary = record {
    total_findings = 0;
    info = 0;
    low = 0;
    medium = 0;
    high = 0;
    critical = 0;
    requires_review = 0;
    failed = 0;
    passed = 0;
    waived = 0;
  };
}

no_records : compared.delta.records ≡ []
unfolding compare_document
no_records = refl
