-- ===== src/RoundTrip/Flows.antt =====
-- The steps of flows there and back.
use ang.Common.{◌≡◌, refl, ap, ◌∙◌, String, List, []}
use ang.Normalizer.{FlowArgs}
use ang.Ir
use ang.Convert.{step_of, convert_flow_steps, convert_flow_step, convert_cases}
use ang.Restore.{restore_flow_steps, restore_flow_step, restore_cases}
use ang.RoundTrip.Args.{IsPlain}
use ang.RoundTrip.Nested.{with_all_parts}

-- What a step of a flow in the intermediate representation has to be to come back: an action with its
-- parameters, arguments that are no nested steps, and nested steps that are such steps themselves.
mutual
  pub data IsFlow : Ir.FlowSteps → Type 0 where
    nil : IsFlow Ir.FlowSteps.nil
    cons :
        {step : Ir.FlowStep} {rest : Ir.FlowSteps}
        → IsStep step
        → IsFlow rest
        → IsFlow (Ir.FlowSteps.cons step rest)

  pub data IsStep : Ir.FlowStep → Type 0 where
    step :
        {action : String} {params : List String} {args : FlowArgs}
        {steps if_new if_exists then_steps else_steps default_steps : Ir.FlowSteps}
        {cases : Ir.FlowCases}
        → IsPlain args
        → IsFlow steps
        → IsFlow if_new
        → IsFlow if_exists
        → IsFlow then_steps
        → IsFlow else_steps
        → IsCases cases
        → IsFlow default_steps
        → IsStep (
            Ir.FlowStep.flow_step action "" "" "" "" "" params args steps if_new if_exists
              then_steps else_steps cases default_steps [])

  pub data IsCases : Ir.FlowCases → Type 0 where
    done : IsCases Ir.FlowCases.done
    branch :
        {label : String} {s : Ir.FlowSteps} {c : Ir.FlowCases}
        → IsFlow s
        → IsCases c
        → IsCases (Ir.FlowCases.branch label s c)

mutual
  unfolding convert_flow_steps restore_flow_steps

  steps_kept : (s : Ir.FlowSteps) → IsFlow s → convert_flow_steps (restore_flow_steps s) ≡ s
  steps_kept _ IsFlow.nil = refl
  steps_kept _ (IsFlow.cons {step} {rest} h t) = rw (step_kept step h, steps_kept rest t) refl

  step_kept : (s : Ir.FlowStep) → IsStep s → convert_flow_step (restore_flow_step s) ≡ s
  step_kept _
        (IsStep.step {action} {params} {args} {steps} {if_new} {if_exists} {then_steps} {else_steps}
          {default_steps} {cases} p d n x t e c f) =
      ap (λ q. step_of action params q [])
        (with_all_parts args p (restore_flow_steps steps) (restore_flow_steps if_new)
          (restore_flow_steps if_exists) (restore_flow_steps then_steps)
          (restore_flow_steps else_steps) (restore_flow_steps default_steps) (restore_cases cases))
      ∙ rw
          (
            steps_kept steps d,
            steps_kept if_new n,
            steps_kept if_exists x,
            steps_kept then_steps t,
            steps_kept else_steps e,
            cases_kept cases c,
            steps_kept default_steps f,
          )
          refl

  cases_kept : (c : Ir.FlowCases) → IsCases c → convert_cases (restore_cases c) ≡ c
  cases_kept _ IsCases.done = refl
  cases_kept _ (IsCases.branch {label} {s} {c} h t) = rw (steps_kept s h, cases_kept c t) refl

-- The steps of a flow in the intermediate representation are the same after the way back and
-- ConvertFlowSteps, if each of them, at any depth, has no attributes, an empty condition, throw,
-- input, output and value, and no argument under one of the keys of nested steps.
pub convert_flow_steps-restore_flow_steps :
    (s : Ir.FlowSteps) → IsFlow s → convert_flow_steps (restore_flow_steps s) ≡ s
convert_flow_steps-restore_flow_steps s h = steps_kept s h
