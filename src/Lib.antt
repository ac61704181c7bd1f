-- ===== src/Lib.antt =====
-- Verification of ang, a compiler from declarative intent (CUE) to backend code.
--
-- The compiler reads CUE, normalizes it, converts it to an intermediate representation (IR), checks
-- that, and runs a list of generator steps on it. The development models the checks and the logic
-- around the generator, and two parts of the generated runtime that keep state. The paths below are
-- those of the repository.
--
-- Flow, Flow.Specs, Flow.Walk: compiler/flowsem, the contracts of the actions in a flow and
-- Validate, which walks the steps and their children and appends an issue for each breach. `walk`
-- is the closure of the same name, with the index and the flag for a transaction as arguments.
-- Policy: compiler/policy, FromEndpoint (`from_endpoint`) and ValidateEndpoint
-- (`validate_endpoint`) on an endpoint of the normalizer.
-- Normalizer: compiler/normalizer/types.go, the data that CUE is read into. Ir: compiler/ir/ir.go, the
-- data model of the intermediate representation; Values: the JSON values and the metadata of both.
-- Convert: compiler/ir/convert.go, from the normalizer's types to the IR (`convert_field` is
-- ConvertField, and so on). Restore: compiler/emitter/ir_emitter.go, from the IR back to those types,
-- which the templates of the emitters read (`restore_field` is IRFieldToNormalizer, and so on).
-- RoundTrip: proofs on the two together. Versioning: compiler/ir/versioning.go, MigrateToVersion
-- (`migrate_to_version`) with its registry of steps. An operation that writes to the schema in
-- place gives the schema as it leaves it.
-- Abi: compiler/ir/abi.go, ValidateABIV2 (`validate_abi_v2`), and the calls with which EmitFromIR
-- begins (`prepare`), the upgrade of Versioning and then this check.
-- Semantics: compiler/ir_semantic_validate.go, the parts of ValidateIRSemantics on types, user
-- interface settings, methods, repositories and endpoints (`reference_errors`). Cycles: the search
-- for cycles among the services in the same file (`validate_service_dependency_cycles`).
-- Notifications: the references to templates in the same file (`notification_errors`).
-- TemplateVars: the variables that a template declares, in the same file. Templates: the catalog of
-- templates (`validate_template_catalog`), where a panic is an outcome. Validation: the whole of
-- ValidateIRSemantics (`validate_ir_semantics`), which puts these parts together.
-- Capability: compiler/capabilities.go, the capabilities of a target; Generator:
-- compiler/generator/orchestrator.go, StepRegistry and Execute, which use them as a gate.
-- Transformers: compiler/transformers/transformer.go and advanced.go, the seven transformers and
-- their registry (`apply` is Registry.Apply). Hooks: compiler/transformers/hooks.go, the hooks on
-- attributes and their registry (`process` is HookRegistry.Process). Pipeline: ConvertAndTransform of
-- compiler/pipeline.go (`convert_and_transform`), which puts together Convert, Versioning,
-- Transformers, Hooks and Abi, and the graph of dependencies that ConvertFromNormalizer makes.
-- Diagnostics: the warnings of the same file about state machines (`emit_fsm_integrity_diagnostics`).
-- Projections: the types it makes for finders that select some fields of an entity
-- (`synthesize_implicit_projections`), and the warnings about selects that are not full.
-- ApiDiff: cmd/ang/api_diff.go, diffOpenAPI (`diff_open_api`), the changes between two API documents
-- and the version bump for them.
-- Planner: compiler/planner/route_planner.go, the loop of buildRoutesAndServicePlans over the
-- endpoints of one service (`plan_routes`).
-- Merger: internal/mcp/merger.go, the merge of a patch into a CUE file, on syntax trees.
-- Breaker: internal/pkg/circuitbreaker/breaker.go. Sessions: the refresh tokens of
-- internal/adapter/auth/memory/store.go. Each method holds a mutex throughout, so a run is a
-- sequence of steps on the state.
-- Common and Text: shared names, lists and association lists, and the functions of Go's strings
-- and fmt packages that the program calls.
--
-- Conventions. A slice is a list, a pointer or an error an option, a map an association list or a
-- function; where Go ranges over a map, the list has the order of one run. Strings.ToLower and its
-- like are modelled on ASCII letters, %q on texts whose characters beyond ASCII are printable.
-- Positions in a file and times are natural numbers. The counters of the breaker wrap around as
-- integers of 64 bits do; its clock does not go beyond the 292 years of a Duration. A field that none
-- of the modelled operations reads or writes is left out of its record.
--
-- An argument of a flow step, of type any, is a plain value or nested steps. sort.Slice is a
-- parameter, a function on lists that gives a permutation; Common.Sorting has one such function. A
-- syntax tree has the texts that the CUE library gives for labels and values.
--
-- Code that is not the program's is a parameter: time.ParseDuration and the printing of a number
-- in Policy, two regular expressions and the printing of a number in Semantics, the printing of an
-- index in Notifications, a regular expression in TemplateVars, the parser of text/template in
-- Templates, what a value of a Go type that is none of JSON's holds and the order in which a range
-- visits the arguments of an attribute in Hooks, strconv.Atoi in Diagnostics. What the Run of a
-- generator step returns, and the time that it takes, are data of the step and of the run.
--
-- Fuel. The search for cycles has as much fuel as there are services and one more, since each call
-- but the deepest enters a service that was not visited. The loop of the migration has three rounds,
-- since the registry has two steps. The loop for the name of a handler has as many rounds as there are
-- used names and one more, since it tries another name in each.
--
-- Not modelled: the parser and the normalizer, which read values of the CUE library; the emitters,
-- which write text through templates; the command line, the MCP and LSP servers and the rest of the
-- pipeline, which are glue and input or output; the inline fields of an item type; the comparison of line counts
-- around the merge, which is in floating point; the model and repository plans of the planner; the
-- reader of API documents.
pub mod Common
pub mod Text
pub mod Flow
pub mod Capability
pub mod Generator
pub mod Policy
pub mod Values
pub mod Normalizer
pub mod Ir
pub mod Cycles
pub mod Versioning
pub mod Breaker
pub mod Sessions
pub mod Semantics
pub mod Notifications
pub mod TemplateVars
pub mod Convert
pub mod Restore
pub mod RoundTrip
pub mod Abi
pub mod Merger
pub mod Planner
pub mod Templates
pub mod Validation
pub mod ApiDiff
pub mod Transformers
pub mod Hooks
pub mod Pipeline
pub mod Diagnostics
pub mod Projections
