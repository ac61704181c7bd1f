-- ===== src/Pipeline.antt =====
-- compiler/pipeline.go, ConvertAndTransform, and the errors of compiler/contract.go: from what the
-- normalizer has read to the schema that the emitters get. Its proofs are below.
mod Success
mod Graph
mod Examples
use ang.Common.{String, Bool, Option, none, some, List, [], ◌∷◌, ◌==◌, if◌then◌else◌}
use ang.Text.{concat}
use ang.Values.{Json}
use ang.Ir.{Attribute, Schema}
use ang.Versioning.{Migrated, migrate_to_current}
use ang.Convert.{Application, convert_from_normalizer}
use ang.Abi.{validate_abi_v2}
use ang.Transformers.Registry.{apply, default_registry}
use ang.Hooks.Builtin.{Range}
use ang.Hooks.Process.{process, default_hook_registry}

pub record ContractError : Type 0 where
  pub stage : String
  pub code : String
  pub op : String
  pub err : String

-- `ContractError.Error`, of an error that is not nil
unfoldable pub error_text : ContractError → String
error_text e =
    if e.op == ""
    then concat ("[" ∷ e.stage ∷ ":" ∷ e.code ∷ "] " ∷ e.err ∷ [])
    else concat ("[" ∷ e.stage ∷ ":" ∷ e.code ∷ "] " ∷ e.op ∷ ": " ∷ e.err ∷ [])

-- `WrapContractError`
unfoldable pub wrap_contract_error : String → String → String → Option String → Option ContractError
wrap_contract_error stage code op none = none
wrap_contract_error stage code op (some err) =
    some record { stage = stage; code = code; op = op; err = err }

-- a schema, or the error with which the pipeline ends
pub data Converted : Type 0 where
  converted : Option Schema → Converted
  refused : ContractError → Converted

-- `if err := ...; err != nil { return nil, ... }`
unfoldable pub unless_failed : Option ContractError → Converted → Converted
unless_failed none rest = rest
unless_failed (some err) rest = refused err

-- ConvertAndTransform, with the order in which a range visits arguments, and what a value of another
-- Go type holds, as parameters
unfoldable pub convert_and_transform : Range → (Json → List Attribute) → Application → Converted
convert_and_transform range held a =
    let schema = some (convert_from_normalizer a) in
    let upgraded = migrate_to_current schema in
    let applied = apply default_registry upgraded.schema in
    let processed = process held (default_hook_registry range) applied.schema in
    unless_failed
      (wrap_contract_error "IR" "IR_VERSION_MIGRATION_ERROR" "migrate ir schema" upgraded.err)
      (unless_failed
        (wrap_contract_error "TRANSFORMERS" "TRANSFORMER_APPLY_ERROR" "apply transformers"
          applied.err)
        (unless_failed
          (wrap_contract_error "TRANSFORMERS" "HOOK_PROCESS_ERROR" "process hooks" processed.err)
          (unless_failed
            (wrap_contract_error "IR" "IR_VERSION_MIGRATION_ERROR" "validate ir abi v2"
              (validate_abi_v2 processed.schema))
            (converted processed.schema))))
