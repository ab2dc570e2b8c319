-- ===== src/Compare/Match/Tests.antt =====
-- The comparison of a scenario at concrete traces of two files and a warning.
use glassroot.Common.{ℕ, ◌≡◌, refl, String, false, List, [], ◌∷◌, none, some, map, Result, ok, err}
use glassroot.Common.Int.{pos}
use glassroot.Model.{
  DeltaKind, modified, removed, count_changed, DeltaRecord, ObservationSource, filesystem_write,
  observer_warning,
}
use glassroot.Compare.Facts.{
  Code, invalid_fact_payload, Revision, base_revision, head_revision, CoverageState, Fact,
  AttemptTrace,
}
use glassroot.Compare.Variants.{Names, Hashes}
use glassroot.Compare.Match.{compare_scenario}

abbrev names : Names
names = record { kind = λ k. "kind"; source = λ s. "source" }

-- Anchors are the paths, here one for all files.
abbrev hashes : Hashes
hashes = record { anchor = λ k s parts. "anchor"; record_id = λ scenario r. "id" }

abbrev written : String → String → Fact
written semantic digest = record {
  id = semantic;
  semantic_digest = semantic;
  kind = filesystem_write;
  source = ObservationSource.other_source "test";
  process = none;
  filesystem = some (record {
    operation = "write";
    path = record {
      namespace = "workdir-root";
      root_index = 0;
      relative = "out";
      literal = "";
      display = "out";
    };
    mode = "0644";
    digest = digest;
    size_bytes = pos 3;
    executable = false;
    truncated = false;
  });
  network = none;
  artifact = none;
  scenario = none;
  warning = none;
  resource = none;
  evidence = [];
}

abbrev bare_warning : Fact
bare_warning = record (written "w" "") {
  kind = observer_warning;
  filesystem = none;
  warning = some (record { code = ""; message = "m"; unsupported = false });
}

abbrev attempt : Revision → List Fact → List AttemptTrace
attempt side facts =
    record {
      attempt_id = "a";
      ordinal = 1;
      revision = side;
      scenario_id = "s";
      repetition = 1;
      coverage = CoverageState.complete;
      facts = facts;
    }
    ∷ []

abbrev kinds : Result Code (List DeltaRecord × ℕ) → List DeltaKind
kinds (ok (rs, n)) = map (λ (r : DeltaRecord). r.kind) rs
kinds (err e) = []

abbrev before : List AttemptTrace
before = attempt base_revision (bare_warning ∷ written "x" "d1" ∷ [])

abbrev after : List AttemptTrace
after = attempt head_revision (written "y" "d2" ∷ bare_warning ∷ bare_warning ∷ [])

both_kinds : kinds (compare_scenario names hashes "s" before after) ≡ count_changed ∷ modified ∷ []
unfolding compare_scenario
both_kinds = refl

one_sided :
    kinds (compare_scenario names hashes "s" before (attempt head_revision (bare_warning ∷ [])))
    ≡ removed ∷ []
unfolding compare_scenario
one_sided = refl

no_payload :
    compare_scenario names hashes "s" before
      (attempt head_revision (record bare_warning { warning = none } ∷ []))
    ≡ err invalid_fact_payload
unfolding compare_scenario
no_payload = refl
