-- ===== src/Restore/Flows.antt =====
-- The way back for the steps of a flow.
use ang.Common.{String, none, [], ◌==◌, if◌then◌else◌}
use ang.Common.Int.{pos}
use ang.Normalizer
use ang.Ir

-- `args[key] = v`
unfoldable pub set_arg : String → Normalizer.FlowValue → Normalizer.FlowArgs → Normalizer.FlowArgs
set_arg key v Normalizer.FlowArgs.end = Normalizer.FlowArgs.arg key v Normalizer.FlowArgs.end
set_arg key v (Normalizer.FlowArgs.arg k w args) =
    let rest = set_arg key v args in
    if k == key then Normalizer.FlowArgs.arg k v args else Normalizer.FlowArgs.arg k w rest

-- nested steps that are not empty become an argument
unfoldable pub put_steps : String → Normalizer.FlowSteps → Normalizer.FlowArgs → Normalizer.FlowArgs
put_steps key Normalizer.FlowSteps.nil args = args
put_steps key (Normalizer.FlowSteps.cons step rest) args =
    set_arg key (Normalizer.FlowValue.steps (Normalizer.FlowSteps.cons step rest)) args

unfoldable pub put_cases : String → Normalizer.FlowCases → Normalizer.FlowArgs → Normalizer.FlowArgs
put_cases key Normalizer.FlowCases.done args = args
put_cases key (Normalizer.FlowCases.branch label s rest) args =
    set_arg key (Normalizer.FlowValue.cases (Normalizer.FlowCases.branch label s rest)) args

-- `irFlowStepsToNormalizer`. The way back of a list of steps is as long as the list, so that it is
-- empty just if the list is.
unfoldable mutual
  pub restore_flow_steps : Ir.FlowSteps → Normalizer.FlowSteps
  restore_flow_steps Ir.FlowSteps.nil = Normalizer.FlowSteps.nil
  restore_flow_steps (Ir.FlowSteps.cons step rest) =
      Normalizer.FlowSteps.cons (restore_flow_step step) (restore_flow_steps rest)

  pub restore_flow_step : Ir.FlowStep → Normalizer.FlowStep
  restore_flow_step
        (Ir.FlowStep.flow_step action condition throw input output value params args steps if_new
          if_exists then_steps else_steps cases default_steps attributes) =
      Normalizer.FlowStep.flow_step action params
        (put_cases "_cases" (restore_cases cases) (
          put_steps "_default" (restore_flow_steps default_steps) (
            put_steps "_else" (restore_flow_steps else_steps) (
              put_steps "_then" (restore_flow_steps then_steps) (
                put_steps "_ifExists" (restore_flow_steps if_exists) (
                  put_steps "_ifNew" (restore_flow_steps if_new)
                    (put_steps "_do" (restore_flow_steps steps) args)))))))
        none [] "" (pos 0) (pos 0) ""

  pub restore_cases : Ir.FlowCases → Normalizer.FlowCases
  restore_cases Ir.FlowCases.done = Normalizer.FlowCases.done
  restore_cases (Ir.FlowCases.branch label s c) =
      Normalizer.FlowCases.branch label (restore_flow_steps s) (restore_cases c)
