-- ===== src/Lib.antt =====
-- A verification of the core of glassroot: the durable webhook inbox and the store of the GitHub
-- controller, the comparison of what a pull request's code was observed to do with the base, and the
-- policy that judges the difference.
--
-- How the parts interact. A receiver verifies a webhook and calls `Accept` of internal/githubinbox, which
-- writes the delivery to an inbox table and, if it is to be processed, to an outbox table. A controller
-- leases outbox rows (`ClaimOutbox`), works on them and acknowledges or releases them. The traces of a
-- run (internal/observe) are compared (internal/compare `compareDocument`), which gives a behavioral
-- delta (internal/model), from which internal/policy makes findings (`Evaluate`); `Apply` then applies
-- the waivers of the trusted base and adds the governance findings about changes to the configuration
-- and to the waivers.
--
-- The files.
--   Common: shared names. Tests (comparisons, conditional), Lists, Outcome (a Go result with an error),
--     Clock (instants in nanoseconds, and the texts that time.RFC3339 and time.RFC3339Nano give),
--     Text (validDigest and the like), Sort (sort.SliceStable, sorted sets), Int.
--   Model: the records of internal/model that the policy reads, with their fields and constants.
--   Inbox: internal/githubinbox. Tables has the two tables as lists of rows (schema.go); Accept has
--     `Accept` and `validateDelivery` (store.go); Lease has `ClaimOutbox`, `AcknowledgeOutbox`,
--     `ReleaseOutbox` and `finishLease` (lease.go); History has the states that sequences of these calls
--     reach. The state is `Db`; a call takes it and returns it, changed or not, with its result.
--   Policy: internal/policy. Confidence has `classifyPolicyConfidence`; Rules has `specsForRecord` and
--     its tests; Evaluate has `evaluateRules`, `makeFinding` and the end of `evaluateDeltaDocument`;
--     Waivers has `applyBaseWaivers`; Governance has `governanceFindings`; Application has the end of
--     `Apply`. Functions keep the source's names, in snake case.
--   App: internal/githubapp. States has the four state machines of state.go; Target has target.go;
--     Generation has `ReconcilePullRequestGeneration` (controller.go) on int64 values that wrap around.
--   Store: internal/githubcontrollerstore. Leases has the leases of the reconciliation (store.go
--     `AcquireReconcileLease`, `releaseReconcileLease`) on the rows of reconcile_leases; Work has the
--     tables that a snapshot changes, with `eligibilityFor`, `supersedeCurrent` and
--     `insertTargetJobAttemptSource`; Reconcile has `ApplyPullRequestSnapshot`;
--     Record has `RecordProcessingDecision`.
--   Artifacts: internal/artifactcollect. Pattern has `matchRelativePattern` and
--     `patternCanMatchDescendant` (pattern.go), with their table of answers and their count of calls.
--   Broker: internal/githubbroker. Frame has `encodeFrame` and `readFrame` (protocol.go); Exchange has
--     the client's `RequestToken` (client.go) and the server's `handle` (server.go).
--   Compare: internal/compare, with the facts of internal/observe. Facts has `typedAnchorDigest` and
--     `changedFields`; Occurrence has `buildOccurrenceProfile`; Variants has `buildVariants`; Records has
--     `makeRecord`; Order has `orderRecord`; Match has `compareScenario` (match.go); Validate has
--     `validateTraceDocument` and `validateLimits`; Document has `compareDocument`.
--   Review: Coverage has what a pass of the policy says of the compared document.
--   In each part, child modules hold the proofs, and Tests the concrete runs.
--
-- Parameters. Hashes (outbox ids, finding ids, digests, anchors, record ids), JSON texts, `path.Match`,
-- the JSON of token requests, the token issuer and the connection are arguments. Which SQL
-- statements fail, and which stored JSON decodes, is an `Environment`, any function at all: every theorem
-- holds for all failures, and a failed transaction leaves the tables as they were. A row's uniqueness
-- constraints are those of schema.go.
--
-- Numbers. Counters of tables are natural numbers, with the source's guards against math.MaxInt64.
-- Instants are nanoseconds since the zero time. Every loop is a structural recursion, but for the digits
-- of a number (Compare.Facts.itoa), which has fuel for 20 digits, enough for 64 bits.
--
-- Not modelled: opening and migrating databases, HTTP, files, processes, cryptography, YAML and JSON
-- decoding, and the packages that are mostly these (githubreceiver, githubapi, githubauth,
-- dockerengine, gitstore, githubsourcestore, demo, localrun, the commands); nor config,
-- the rest of githubcontrollerstore, evidence, the normalization of observe, runner, nor the validation
-- of a delta. A context is not cancelled. Columns and fields that no modelled code reads are left out.

pub mod App
pub mod Artifacts
pub mod Broker
pub mod Common
pub mod Compare
pub mod Inbox
pub mod Model
pub mod Policy
pub mod Review
pub mod Store
