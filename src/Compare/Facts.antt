-- ===== src/Compare/Facts.antt =====
-- The facts of a trace (internal/observe/types.go), with what the comparison reads of them; the anchor
-- by which variants of a fact are matched (internal/compare/digest.go `typedAnchorDigest`; the hash is a
-- parameter), and the fields in which two facts differ (match.go `changedFields`).
use glassroot.Common.{
  ℕ, zero, suc, ◌+◌, ◌/◌, ◌%◌, ◌==◌, String, Bool, true, false, not, ◌||◌, Option, none, some, List,
  [], ◌∷◌, ◌++◌, Result, ok, err, ◌>>=◌, str_eq, if◌then◌else◌, sort, string_lt, join_nul,
}
use Prim.Native.String.{slice, ◌++◌ as str_append}
use glassroot.Common.Int.{ℤ, pos, eq_ℤ}
use glassroot.Model.{
  ObservationSource, FactKind, process_start, process_exit, filesystem_create, filesystem_read,
  filesystem_write, filesystem_delete, filesystem_rename, filesystem_chmod, dns_query,
  network_connection, artifact_activity, scenario_started, scenario_completed, observer_warning,
  unsupported_observation, resource_limit, FactPayload, other_payload,
}

-- The errors of the comparison, by the code of the error.
pub data Code : Type 0 where
  unsupported_normalization_profile invalid_trace_set invalid_attempt_inventory duplicate_attempt :
      Code
  duplicate_fact_id invalid_semantic_digest unsupported_fact_kind invalid_observation_source : Code
  invalid_fact_payload evidence_reference_invalid comparison_limit evidence_reference_limit : Code
  invalid_limits delta_limit delta_too_large serialization_failed : Code

pub record NormalizedPath : Type 0 where
  pub namespace : String
  pub root_index : ℕ
  pub relative : String
  pub literal : String
  pub display : String

pub record ProcessFact : Type 0 where
  pub operation : String
  pub stable_id : String
  pub exit_code : Option ℤ
  pub duration_millis : ℤ

pub record FilesystemFact : Type 0 where
  pub operation : String
  pub path : NormalizedPath
  pub mode : String
  pub digest : String
  pub size_bytes : ℤ
  pub executable : Bool
  pub truncated : Bool

pub record NetworkFact : Type 0 where
  pub operation : String
  pub protocol : String
  pub query_name : String
  pub destination_host : String
  pub destination_port : ℤ
  pub resolved_addresses : List String
  pub result : String
  pub duration_millis : ℤ

pub record ArtifactFact : Type 0 where
  pub operation : String
  pub path : NormalizedPath
  pub digest : String
  pub size_bytes : ℤ
  pub executable : Bool

pub record ScenarioFact : Type 0 where
  pub status : String
  pub message : String
  pub duration_millis : ℤ

pub record WarningFact : Type 0 where
  pub code : String
  pub message : String
  pub unsupported : Bool

pub record ResourceFact : Type 0 where
  pub limit_kind : String
  pub limit_value : ℤ
  pub observed_value : ℤ
  pub exceeded : Bool

pub data Revision : Type 0 where
  base_revision head_revision : Revision
  other_revision : String → Revision

abbrev pub revision_name : Revision → String
revision_name base_revision = "base"
revision_name head_revision = "head"
revision_name (other_revision r) = r

abbrev pub is_base : Revision → Bool
is_base r = str_eq (revision_name r) "base"

abbrev pub is_head : Revision → Bool
is_head r = str_eq (revision_name r) "head"

pub record RawEvidence : Type 0 where
  pub event_stream_digest : String
  pub event_stream_path : String
  pub event_id : String
  pub event_sequence : ℕ
  pub revision : Revision
  pub scenario_id : String
  pub repetition : ℕ

-- The digits of a number, the last first; 20 are enough for 64 bits.
digits : ℕ → ℕ → String → String
digits zero v text = text
digits (suc n) v text =
    let rest = digits n (v / 10) (str_append (slice "0123456789" (v % 10) (v % 10 + 1)) text) in
    if v == 0 then text else rest

-- `itoa` and `itoa64`
unfoldable pub itoa : ℕ → String
unfolding digits
itoa v = if v == 0 then "0" else digits 20 v ""

-- The key by which `dedupeEvidence` knows a reference, and by which records show it.
unfoldable pub evidence_key : RawEvidence → String
unfolding itoa join_nul
evidence_key e = join_nul (
    revision_name e.revision
    ∷ e.scenario_id
    ∷ itoa e.repetition
    ∷ itoa e.event_sequence
    ∷ e.event_id
    ∷ [])

pub record Fact : Type 0 where
  pub id : String
  pub semantic_digest : String
  pub kind : FactKind
  pub source : ObservationSource
  pub process : Option ProcessFact
  pub filesystem : Option FilesystemFact
  pub network : Option NetworkFact
  pub artifact : Option ArtifactFact
  pub scenario : Option ScenarioFact
  pub warning : Option WarningFact
  pub resource : Option ResourceFact
  pub evidence : List RawEvidence

pub data CoverageState : Type 0 where
  complete incomplete not_started : CoverageState

pub record AttemptTrace : Type 0 where
  pub attempt_id : String
  pub ordinal : ℕ
  pub revision : Revision
  pub scenario_id : String
  pub repetition : ℕ
  pub coverage : CoverageState
  pub facts : List Fact

-- What is written to the hash of an anchor.
pub data Part : Type 0 where
  text : String → Part
  number : ℤ → Part

abbrev rooted : String → Bool
rooted namespace = str_eq namespace "workdir-root" || str_eq namespace "collection-root"

write_path : NormalizedPath → List Part
write_path p =
    text p.namespace
    ∷ number (pos p.root_index)
    ∷ text p.relative
    ∷ text (if rooted p.namespace then "" else p.literal)
    ∷ text p.display
    ∷ []

abbrev pub is_process : FactKind → Bool
is_process process_start = true
is_process process_exit = true
is_process _ = false

abbrev pub is_filesystem : FactKind → Bool
is_filesystem filesystem_create = true
is_filesystem filesystem_read = true
is_filesystem filesystem_write = true
is_filesystem filesystem_delete = true
is_filesystem filesystem_rename = true
is_filesystem filesystem_chmod = true
is_filesystem _ = false

abbrev pub is_network : FactKind → Bool
is_network dns_query = true
is_network network_connection = true
is_network _ = false

abbrev pub is_artifact : FactKind → Bool
is_artifact artifact_activity = true
is_artifact _ = false

abbrev pub is_scenario : FactKind → Bool
is_scenario scenario_started = true
is_scenario scenario_completed = true
is_scenario _ = false

abbrev pub is_warning : FactKind → Bool
is_warning observer_warning = true
is_warning unsupported_observation = true
is_warning _ = false

abbrev pub is_resource : FactKind → Bool
is_resource resource_limit = true
is_resource _ = false

abbrev with_payload :
    {A : Type 0} → Option A → (A → Option (List Part)) → Result Code (Option (List Part))
with_payload none parts = err invalid_fact_payload
with_payload (some a) parts = ok (parts a)

warning_parts : WarningFact → Option (List Part)
warning_parts w = if str_eq w.code "" then none else some (text w.code ∷ [])

-- The parts behind kind and source; `none` for a warning with no code, which has no anchor.
pub anchor_parts : Fact → Result Code (Option (List Part))
unfolding write_path warning_parts
anchor_parts f =
    if is_process f.kind
    then with_payload f.process (λ p. some (text p.stable_id ∷ text p.operation ∷ []))
    else if is_filesystem f.kind
    then with_payload f.filesystem (λ p. some (text p.operation ∷ write_path p.path))
    else if is_network f.kind
    then with_payload f.network (λ n. some (
        text n.operation
        ∷ text n.protocol
        ∷ text n.query_name
        ∷ text n.destination_host
        ∷ number n.destination_port
        ∷ []))
    else if is_artifact f.kind
    then with_payload f.artifact (λ a. some (write_path a.path))
    else if is_scenario f.kind
    then with_payload f.scenario (λ s. some (text s.status ∷ []))
    else if is_warning f.kind
    then with_payload f.warning warning_parts
    else if is_resource f.kind
    then with_payload f.resource (λ r. some (text r.limit_kind ∷ []))
    else err unsupported_fact_kind

-- The hash takes the kind, the source and the parts.
abbrev pub AnchorHash : Type 0
AnchorHash = FactKind → ObservationSource → List Part → String

unfoldable pub typed_anchor_digest : AnchorHash → Fact → Result Code String
unfolding anchor_parts
typed_anchor_digest hash f = do
  parts ← anchor_parts f
  ok (elim parts [ none ↦ "" | some ps ↦ hash f.kind f.source ps ])

abbrev differ : Bool → String → List String
differ true field = []
differ false field = field ∷ []

abbrev same_bool : Bool → Bool → Bool
same_bool true b = b
same_bool false b = not b

-- `intPtrEqual`
abbrev same_exit : Option ℤ → Option ℤ → Bool
same_exit none none = true
same_exit (some a) (some b) = eq_ℤ a b
same_exit _ _ = false

-- Nothing, unless both facts have the payload.
abbrev both : {A : Type 0} → (A → A → List String) → Option A → Option A → List String
both changes (some a) (some b) = changes a b
both changes _ _ = []

filesystem_changes : FilesystemFact → FilesystemFact → List String
filesystem_changes a b =
    differ (str_eq a.digest b.digest) "filesystem.digest"
    ++ (differ (str_eq a.mode b.mode) "filesystem.mode"
        ++ (differ (eq_ℤ a.size_bytes b.size_bytes) "filesystem.sizeBytes"
            ++ (differ (same_bool a.executable b.executable) "filesystem.executable"
                ++ differ (same_bool a.truncated b.truncated) "filesystem.truncated")))

artifact_changes : ArtifactFact → ArtifactFact → List String
artifact_changes a b =
    differ (str_eq a.digest b.digest) "artifact.digest"
    ++ (differ (eq_ℤ a.size_bytes b.size_bytes) "artifact.sizeBytes"
        ++ (differ (same_bool a.executable b.executable) "artifact.executable"
            ++ differ (str_eq a.operation b.operation) "artifact.operation"))

network_changes : NetworkFact → NetworkFact → List String
unfolding join_nul
network_changes a b =
    differ (str_eq a.result b.result) "network.result"
    ++ (differ (eq_ℤ a.duration_millis b.duration_millis) "network.durationMillis"
        ++ differ (str_eq (join_nul a.resolved_addresses) (join_nul b.resolved_addresses))
            "network.resolvedAddresses")

scenario_changes : ScenarioFact → ScenarioFact → List String
scenario_changes a b =
    differ (str_eq a.status b.status) "scenario.status"
    ++ (differ (eq_ℤ a.duration_millis b.duration_millis) "scenario.durationMillis"
        ++ differ (str_eq a.message b.message) "scenario.message")

warning_changes : WarningFact → WarningFact → List String
warning_changes a b =
    differ (str_eq a.message b.message) "warning.message"
    ++ differ (same_bool a.unsupported b.unsupported) "warning.unsupported"

resource_changes : ResourceFact → ResourceFact → List String
resource_changes a b =
    differ (eq_ℤ a.limit_value b.limit_value) "resource.limitValue"
    ++ (differ (eq_ℤ a.observed_value b.observed_value) "resource.observedValue"
        ++ differ (same_bool a.exceeded b.exceeded) "resource.exceeded")

process_changes : ProcessFact → ProcessFact → List String
process_changes a b =
    differ (same_exit a.exit_code b.exit_code) "process.exitCode"
    ++ differ (eq_ℤ a.duration_millis b.duration_millis) "process.durationMillis"

unfoldable pub changed_fields : Fact → Fact → List String
unfolding filesystem_changes artifact_changes network_changes scenario_changes warning_changes
    resource_changes process_changes sort
changed_fields a b = sort string_lt (
    if is_filesystem a.kind
    then both filesystem_changes a.filesystem b.filesystem
    else if is_artifact a.kind
    then both artifact_changes a.artifact b.artifact
    else if is_network a.kind
    then both network_changes a.network b.network
    else if is_scenario a.kind
    then both scenario_changes a.scenario b.scenario
    else if is_warning a.kind
    then both warning_changes a.warning b.warning
    else if is_resource a.kind
    then both resource_changes a.resource b.resource
    else if is_process a.kind
    then both process_changes a.process b.process
    else [])

-- What a record shows of a fact.
abbrev pub snapshot : Fact → FactPayload
snapshot f = elim (f.filesystem) [
  | some p ↦ FactPayload.filesystem p.path.namespace p.operation p.executable
  | none ↦ elim (f.artifact) [ some a ↦ FactPayload.artifact a.executable | none ↦ other_payload ]
]
