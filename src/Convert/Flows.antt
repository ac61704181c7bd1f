-- ===== src/Convert/Flows.antt =====
-- The conversion of the steps of a flow, whose nested steps stand among a step's arguments.
use ang.Common.{String, List, map, ◌==◌, if◌then◌else◌}
use ang.Normalizer
use ang.Ir

-- `ConvertAttributes`
abbrev pub convert_attribute : Normalizer.Attribute → Ir.Attribute
convert_attribute a = record { name = a.name; args = a.args }

abbrev pub convert_attributes : List Normalizer.Attribute → List Ir.Attribute
convert_attributes attrs = map convert_attribute attrs

-- `args[k] = v` for a key that the map does not have
unfoldable pub add_arg : String → Normalizer.FlowValue → Normalizer.FlowArgs → Normalizer.FlowArgs
add_arg key v Normalizer.FlowArgs.end = Normalizer.FlowArgs.arg key v Normalizer.FlowArgs.end
add_arg key v (Normalizer.FlowArgs.arg k w args) = Normalizer.FlowArgs.arg k w (add_arg key v args)

-- The variables of the loop over a step's arguments.
pub record Parts : Type 0 where
  pub args : Normalizer.FlowArgs
  pub then_steps : Ir.FlowSteps
  pub else_steps : Ir.FlowSteps
  pub do_steps : Ir.FlowSteps
  pub if_new_steps : Ir.FlowSteps
  pub if_exists_steps : Ir.FlowSteps
  pub default_steps : Ir.FlowSteps
  pub case_steps : Ir.FlowCases

abbrev pub no_parts : Parts
no_parts = record {
  args = Normalizer.FlowArgs.end;
  then_steps = Ir.FlowSteps.nil;
  else_steps = Ir.FlowSteps.nil;
  do_steps = Ir.FlowSteps.nil;
  if_new_steps = Ir.FlowSteps.nil;
  if_exists_steps = Ir.FlowSteps.nil;
  default_steps = Ir.FlowSteps.nil;
  case_steps = Ir.FlowCases.done;
}

-- The value of an argument with the steps in it converted.
pub data Nested : Type 0 where
  neither : Nested
  steps : Ir.FlowSteps → Nested
  cases : Ir.FlowCases → Nested

-- a variable after an assignment under a type assertion
unfoldable pub steps_or : Nested → Ir.FlowSteps → Ir.FlowSteps
steps_or (Nested.steps s) old = s
steps_or n old = old

unfoldable pub cases_or : Nested → Ir.FlowCases → Ir.FlowCases
cases_or (Nested.cases c) old = c
cases_or n old = old

-- one round of the loop over the arguments
unfoldable pub place : String → Normalizer.FlowValue → Nested → Parts → Parts
place k v nested p =
    if k == "_then"
    then record p { then_steps = steps_or nested p.then_steps }
    else if k == "_else"
    then record p { else_steps = steps_or nested p.else_steps }
    else if k == "_do"
    then record p { do_steps = steps_or nested p.do_steps }
    else if k == "_ifNew"
    then record p { if_new_steps = steps_or nested p.if_new_steps }
    else if k == "_ifExists"
    then record p { if_exists_steps = steps_or nested p.if_exists_steps }
    else if k == "_default"
    then record p { default_steps = steps_or nested p.default_steps }
    else if k == "_cases"
    then record p { case_steps = cases_or nested p.case_steps }
    else record p { args = add_arg k v p.args }

abbrev pub step_of : String → List String → Parts → List Normalizer.Attribute → Ir.FlowStep
step_of action params p attributes =
    Ir.FlowStep.flow_step action "" "" "" "" "" params p.args p.do_steps p.if_new_steps
      p.if_exists_steps p.then_steps p.else_steps p.case_steps p.default_steps
      (convert_attributes attributes)

-- `ConvertFlowSteps`
unfoldable mutual
  pub convert_flow_steps : Normalizer.FlowSteps → Ir.FlowSteps
  convert_flow_steps Normalizer.FlowSteps.nil = Ir.FlowSteps.nil
  convert_flow_steps (Normalizer.FlowSteps.cons step rest) =
      Ir.FlowSteps.cons (convert_flow_step step) (convert_flow_steps rest)

  pub convert_flow_step : Normalizer.FlowStep → Ir.FlowStep
  convert_flow_step
        (Normalizer.FlowStep.flow_step action params args meta attributes file line column path) =
      step_of action params (convert_args no_parts args) attributes

  -- the loop over the arguments
  pub convert_args : Parts → Normalizer.FlowArgs → Parts
  convert_args p Normalizer.FlowArgs.end = p
  convert_args p (Normalizer.FlowArgs.arg k v args) =
      convert_args (place k v (convert_value v) p) args

  pub convert_value : Normalizer.FlowValue → Nested
  convert_value (Normalizer.FlowValue.plain v) = Nested.neither
  convert_value (Normalizer.FlowValue.steps s) = Nested.steps (convert_flow_steps s)
  convert_value (Normalizer.FlowValue.cases c) = Nested.cases (convert_cases c)

  pub convert_cases : Normalizer.FlowCases → Ir.FlowCases
  convert_cases Normalizer.FlowCases.done = Ir.FlowCases.done
  convert_cases (Normalizer.FlowCases.branch label s c) =
      Ir.FlowCases.branch label (convert_flow_steps s) (convert_cases c)
