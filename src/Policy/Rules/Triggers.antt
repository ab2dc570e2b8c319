-- ===== src/Policy/Rules/Triggers.antt =====
-- Which rule a record triggers, exactly.
use glassroot.Common.{ℕ, Bool, true, false, ◌&&◌, ◌||◌, Option, none, some, List, any, ◌==◌, str_eq}
use glassroot.Model.{DeltaRecord, FactPayload, filesystem, Severity}
use glassroot.Policy.Rules.{
  Rule, obs_001, proc_001, fs_001, fs_002, net_001, art_001, det_001, limit_001, FindingSpec,
  coverage_lost, head_positive, head_warning, warning_kind, is_process_new, is_filesystem_fact,
  is_network_fact, is_artifact_fact, is_resource_fact, executable_head_behavior, is_stability,
  repeatability_worse,
}

abbrev pub rule_number : Rule → ℕ
rule_number obs_001 = 0
rule_number proc_001 = 1
rule_number fs_001 = 2
rule_number fs_002 = 3
rule_number net_001 = 4
rule_number art_001 = 5
rule_number det_001 = 6
rule_number limit_001 = 7

abbrev pub is_rule : Rule → FindingSpec → Bool
is_rule r s = rule_number s.rule == rule_number r

abbrev pub outside : FactPayload → Bool
outside (filesystem namespace operation executable) = str_eq namespace "absolute-unmapped"
outside _ = false

-- Some head fact is an access outside the configured roots.
abbrev pub touches_outside : List FactPayload → Bool
touches_outside fs = any outside fs

-- The specification, rule by rule.
pub triggers : Rule → DeltaRecord → Bool
triggers obs_001 rec = coverage_lost rec || head_warning rec.fact_kind && warning_kind rec.kind
triggers proc_001 rec = head_positive rec && is_process_new rec
triggers fs_001 rec = head_positive rec && executable_head_behavior rec
triggers fs_002 rec =
    head_positive rec && (is_filesystem_fact rec.fact_kind && touches_outside rec.head_facts)
triggers net_001 rec = head_positive rec && is_network_fact rec.fact_kind
triggers art_001 rec = head_positive rec && is_artifact_fact rec.fact_kind
triggers det_001 rec =
    is_stability rec.kind
    && repeatability_worse rec.base_occurrence.repeatability rec.head_occurrence.repeatability
triggers limit_001 rec = head_positive rec && is_resource_fact rec.fact_kind

abbrev is_some : Option Severity → Bool
is_some none = false
is_some (some x) = true
