-- ===== src/Validation.antt =====
-- compiler/ir_semantic_validate.go: ValidateIRSemantics as a whole, which collects the errors of its
-- seven parts and returns them sorted. The parts are those of Semantics, Cycles, Templates and
-- Notifications, whose parameters it has. Its proof is below.
mod Verdict
mod Examples
use Prim.Native.String.{String, compare}
use text.Mathlib.Text.{is_le}
use ang.Common.{ℕ, Bool, Option, none, some, List, [], ◌∷◌, ◌++◌, is_empty, if◌then◌else◌}
use ang.Common.Int.{ℤ}
use ang.Common.Sorting.{sort}
use ang.Text.{concat, join}
use ang.Ir.{Schema}
use ang.Semantics.{reference_errors}
use ang.Cycles.{validate_service_dependency_cycles}
use ang.Templates.{Parsed, validate_template_catalog}
use ang.Notifications.{notification_errors}

-- what the call does: it returns nil or an error, or it panics
pub data Outcome : Type 0 where
  valid : Outcome
  invalid : (err : String) → Outcome
  panicked : Outcome

-- `cycleErr.Error()`, if there is one
unfoldable pub error_list : Option String → List String
error_list none = []
error_list (some err) = err ∷ []

-- `sort.Strings`
abbrev pub sort_strings : List String → List String
sort_strings errs = sort (λ s t. is_le (compare s t)) errs

-- the return statements
unfoldable pub verdict : List String → Outcome
verdict errs =
    if is_empty errs
    then Outcome.valid
    else Outcome.invalid
        (concat ("ir semantic validation failed:\n - " ∷ join (sort_strings errs) "\n - " ∷ []))

-- the parts behind the template catalog, which panics or appends errors
unfoldable pub finish :
    (before : List String) → Option (List String) → (after : List String) → Outcome
finish before none after = Outcome.panicked
finish before (some errs) after = verdict (before ++ errs ++ after)

module _ (component_name import_path is_path : String → Bool) (show_int : ℤ → String)
    (show_index : ℕ → String) (parse : String → String → Parsed) where
  -- `ValidateIRSemantics`, where none is a nil schema
  unfoldable pub validate_ir_semantics : Option Schema → Outcome
  validate_ir_semantics none = Outcome.invalid "ir schema is nil"
  validate_ir_semantics (some schema) =
      finish
        (reference_errors component_name import_path show_int schema
          ++ error_list (validate_service_dependency_cycles schema.services))
        (validate_template_catalog parse is_path schema.templates)
        (notification_errors show_index schema.templates schema.notifications)
