-- ===== src/Generator.antt =====
-- compiler/generator/orchestrator.go: the registry of generator steps and their execution.
pub mod Registration
pub mod Execution
mod Examples
use ang.Common.{
  ℕ, String, Bool, true, false, not, ◌&&◌, ◌||◌, Option, none, some, List, [], ◌∷◌, ◌++◌, ◌==◌,
  if◌then◌else◌, lookup, contains, is_empty,
}
use ang.Text.{trim_space, concat, join, quote}
use ang.Capability.{Capability, CapabilitySet, TargetDef, has_all, missing}

-- Run is an effect of the program around: a step holds the error that its one call returns.
pub record Step : Type 0 where
  pub name : String
  pub artifact_key : String
  pub requires : List Capability
  pub run : Option String

pub record StepEvent : Type 0 where
  pub stage : String
  pub target : String
  pub step : String
  pub status : String
  pub duration_ms : ℕ
  pub missing_caps : List Capability
  pub files_generated : ℕ
  pub warnings : ℕ
  pub error : String

-- The sets and maps of the registry, with the newest entry first.
pub record StepRegistry : Type 0 where
  pub steps : List Step
  pub step_names : List String
  pub artifact_keys : List (String × String)
  pub reg_err : Option String

abbrev pub new_step_registry : StepRegistry
new_step_registry = record { steps = []; step_names = []; artifact_keys = []; reg_err = none }

-- `if r.regErr == nil { r.regErr = err }`
keep_first : Option String → String → Option String
keep_first none err = some err
keep_first (some old) err = some old

refuse : StepRegistry → String → StepRegistry
unfolding keep_first
refuse r err = record r { reg_err = keep_first r.reg_err err }

-- the end of `Register`, with the artifact key entered if there is one
enter : StepRegistry → Step → String → String → StepRegistry
enter r step name artifact_key = record r {
  steps = r.steps ++ step ∷ [];
  step_names = name ∷ r.step_names;
  artifact_keys =
      if artifact_key == "" then r.artifact_keys else (artifact_key, name) ∷ r.artifact_keys;
}

enter_unless_taken : StepRegistry → Step → String → String → Option String → StepRegistry
unfolding refuse enter
enter_unless_taken r step name artifact_key none = enter r step name artifact_key
enter_unless_taken r step name artifact_key (some existing) = refuse r (
    concat (
      "register step "
      ∷ quote name
      ∷ ": duplicate artifact key "
      ∷ quote artifact_key
      ∷ " already used by step "
      ∷ quote existing
      ∷ []))

-- `Register`
pub register : StepRegistry → Step → StepRegistry
unfolding refuse enter enter_unless_taken
register r step =
    let name = trim_space step.name in
    let artifact_key = trim_space step.artifact_key in
    if name == ""
    then refuse r "register step: empty name"
    else if contains r.step_names name
    then refuse r (
        concat (
          "register step "
          ∷ quote name
          ∷ ": duplicate step name (single active emitter path required)"
          ∷ []))
    else if artifact_key == ""
    then enter r step name artifact_key
    else enter_unless_taken r step name artifact_key (lookup artifact_key r.artifact_keys)

-- What the loggers receive, in order.
pub data Output : Type 0 where
  logged : String → Output
  event : StepEvent → Output

-- The loggers that are not nil, and what `time.Since` measures for a step.
pub record Loggers : Type 0 where
  pub logger : Bool
  pub event_logger : Bool
  pub elapsed : Step → ℕ

module _ (td : TargetDef) (set : CapabilitySet) (lg : Loggers) where
  -- a StepEvent of the stage "emitters"
  step_event : Step → String → ℕ → List Capability → String → List Output
  step_event step status duration_ms missing_caps error =
      if lg.event_logger
      then event (record {
        stage = "emitters";
        target = td.name;
        step = step.name;
        status = status;
        duration_ms = duration_ms;
        missing_caps = missing_caps;
        files_generated = 0;
        warnings = 0;
        error = error;
      })
        ∷ []
      else []

  pub skip_outputs : Step → List Output
  unfolding step_event
  skip_outputs step =
      (if not (is_empty (missing set step.requires)) && lg.logger
        then logged (
            concat (
              "Skipping "
              ∷ step.name
              ∷ " for target "
              ∷ td.name
              ∷ ": missing capabilities ["
              ∷ join (missing set step.requires) ", "
              ∷ "]"
              ∷ []))
          ∷ []
        else [])
      ++ step_event step "skip" 0 (missing set step.requires) ""

  pub start_outputs : Step → List Output
  unfolding step_event
  start_outputs step = step_event step "start" 0 [] ""

  pub ok_outputs : Step → List Output
  unfolding step_event
  ok_outputs step = step_event step "ok" (lg.elapsed step) [] ""

  pub error_outputs : Step → String → List Output
  unfolding step_event
  error_outputs step err = step_event step "error" (lg.elapsed step) [] err

  pub step_error : Step → String → String
  step_error step err = concat ("target=" ∷ td.name ∷ " step=" ∷ step.name ∷ ": " ∷ err ∷ [])

  -- one round after the gate: its call of Run, and the rest if that returns nil
  ran : Step → Option String → List Output × Option String → List Output × Option String
  unfolding start_outputs ok_outputs error_outputs step_error
  ran step none rest = (start_outputs step ++ (ok_outputs step ++ rest.0), rest.1)
  ran step (some err) rest =
      (start_outputs step ++ error_outputs step err, some (step_error step err))

  -- `Execute`: what the loggers receive, and the error that it returns
  pub execute : List Step → List Output × Option String
  unfolding ran skip_outputs
  execute [] = ([], none)
  execute (step ∷ steps) =
      let rest = execute steps in
      if not (has_all set step.requires)
      then (skip_outputs step ++ rest.0, rest.1)
      else ran step step.run rest

-- the method `Execute` of a registry, behind its test of `regErr`
execute_unless : Option String → List Output × Option String → List Output × Option String
execute_unless none result = result
execute_unless (some err) result = ([], some err)

pub execute_registry :
    TargetDef → CapabilitySet → Loggers → StepRegistry → List Output × Option String
unfolding execute_unless
execute_registry td set lg r = execute_unless r.reg_err (execute td set lg r.steps)
