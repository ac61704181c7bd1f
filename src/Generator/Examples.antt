-- ===== src/Generator/Examples.antt =====
-- The theorems on registration and execution at concrete steps.
use ang.Common.{◌≡◌, refl, ◌↔◌, true, none, some, [], ◌∷◌, ◌++◌, All, contains, lookup, String}
use ang.Text.{trim_space}
use ang.Capability.{TargetDef, CapabilitySet, http, ws, has, has_all}
use ang.Generator.{
  Step, Loggers, new_step_registry, execute, execute_registry, start_outputs, error_outputs,
  step_error,
}
use ang.Generator.Registration.{register_all, IsWellNamed, register_all_iff, execute_not_well_named}
use ang.Generator.Execution.{Succeeds, all_outputs, execute_stops, execute-none_iff}

abbrev target : TargetDef
target = record { name = "api"; lang = "go"; framework = "chi"; db = "postgres"; queue = "" }

abbrev capabilities : CapabilitySet
capabilities = (http, true) ∷ []

abbrev loud : Loggers
loud = record { logger = true; event_logger = true; elapsed = λ step. 0 }

abbrev domain : Step
domain = record { name = "domain"; artifact_key = "go/domain"; requires = []; run = none }

abbrev sockets : Step
sockets = record { name = "ws"; artifact_key = ""; requires = ws ∷ []; run = some "never called" }

abbrev routes : Step
routes = record { name = "http"; artifact_key = ""; requires = http ∷ []; run = some "disk full" }

abbrev clash : Step
clash = record { name = " domain"; artifact_key = ""; requires = []; run = none }

sockets_succeed : All (Succeeds target capabilities loud) (domain ∷ sockets ∷ [])
unfolding has_all has lookup
sockets_succeed = (λ on. refl, (λ on. cc, tt))

execute_stops_example :
    execute target capabilities loud (domain ∷ sockets ∷ routes ∷ domain ∷ []) ≡ (
      all_outputs target capabilities loud (domain ∷ sockets ∷ [])
          ++ (start_outputs target capabilities loud routes
              ++ error_outputs target capabilities loud routes "disk full"),
      some (step_error target capabilities loud routes "disk full"),
    )
unfolding has_all has lookup
execute_stops_example =
    execute_stops target capabilities loud (domain ∷ sockets ∷ []) routes (domain ∷ [])
      sockets_succeed refl refl

execute-none_iff_example :
    (((execute target capabilities loud (domain ∷ [])).1 ≡ none)
      ↔ All (Succeeds target capabilities loud) (domain ∷ []))
    × (All (Succeeds target capabilities loud) (domain ∷ [])
        → execute target capabilities loud (domain ∷ [])
          ≡ (all_outputs target capabilities loud (domain ∷ []), none))
execute-none_iff_example = execute-none_iff target capabilities loud (domain ∷ [])

register_all_iff_example :
    (((register_all new_step_registry (domain ∷ sockets ∷ [])).reg_err ≡ none)
      ↔ IsWellNamed (domain ∷ sockets ∷ []))
    × (IsWellNamed (domain ∷ sockets ∷ [])
        → (register_all new_step_registry (domain ∷ sockets ∷ [])).steps ≡ domain ∷ sockets ∷ [])
register_all_iff_example = register_all_iff (domain ∷ sockets ∷ [])

clash_not-IsWellNamed : ¬ IsWellNamed (domain ∷ clash ∷ [])
unfolding trim_space contains
clash_not-IsWellNamed w = cc (w.distinct_names.0)

refuses_clash :
    (err : String) × (execute_registry target capabilities loud
        (register_all new_step_registry (domain ∷ clash ∷ []))
      ≡ ([], some err))
refuses_clash =
    execute_not_well_named target capabilities loud (domain ∷ clash ∷ []) clash_not-IsWellNamed
