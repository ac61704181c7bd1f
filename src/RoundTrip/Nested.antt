-- ===== src/RoundTrip/Nested.antt =====
-- All kinds of nested steps put among the arguments of a step, and what the loop over them gives.
use ang.Common.{◌≡◌, refl, String, true, false, List, [], ◌∷◌, ◌==◌, All}
use ang.Normalizer.{FlowSteps, FlowArgs, FlowCases}
use ang.Convert.{
  no_parts, place, steps_or, cases_or, convert_args, convert_flow_steps, convert_cases,
}
use ang.Restore.{put_steps, put_cases}
use ang.RoundTrip.Args.{
  Lacks, Lacks-put_steps, is_nested, IsPlain, IsPlain-Lacks, append_args, convert_args_plain,
  convert_args-put_steps, convert_args-put_cases,
}

-- No argument has one of the keys.
abbrev LacksAll : List String → FlowArgs → Type 0
LacksAll keys args = All (λ key. Lacks key args) keys

LacksAll-put_steps :
    (other : String) (s : FlowSteps) (args : FlowArgs) (keys : List String)
    → All (λ key. (other == key) ≡ false) keys
    → LacksAll (other ∷ keys) args
    → LacksAll keys (put_steps other s args)
LacksAll-put_steps other s args [] n l = tt
LacksAll-put_steps other s args (key ∷ keys) n l = (
  Lacks-put_steps key other s args n.0 l.0 l.1.0,
  LacksAll-put_steps other s args keys n.1 (l.0, l.1.1),
)

-- the keys of nested steps, in the order of the way back, from each of them on
abbrev from_cases : List String
from_cases = "_cases" ∷ []

abbrev from_default : List String
from_default = "_default" ∷ from_cases

abbrev from_else : List String
from_else = "_else" ∷ from_default

abbrev from_then : List String
from_then = "_then" ∷ from_else

abbrev from_if_exists : List String
from_if_exists = "_ifExists" ∷ from_then

abbrev from_if_new : List String
from_if_new = "_ifNew" ∷ from_if_exists

abbrev from_do : List String
from_do = "_do" ∷ from_if_new

LacksAll-plain : (args : FlowArgs) → IsPlain args → LacksAll from_do args
LacksAll-plain args h =
    let lacks : (key : String) → is_nested key ≡ true → Lacks key args =
      λ key n. IsPlain-Lacks key args n h in
    (
      lacks _ refl,
      (
        lacks _ refl,
        (lacks _ refl, (lacks _ refl, (lacks _ refl, (lacks _ refl, (lacks _ refl, tt))))),
      ),
    )

-- The arguments of a step with its nested steps put among them, one kind after the other, and what
-- the loop over the arguments makes of them.
module _ (args : FlowArgs) (plain : IsPlain args)
    (do_steps if_new if_exists then_steps else_steps default_steps : FlowSteps)
    (c : FlowCases) where
  abbrev with_do_steps : FlowArgs
  with_do_steps = put_steps "_do" do_steps args

  with_do_steps_lacks : LacksAll from_if_new with_do_steps
  with_do_steps_lacks =
      LacksAll-put_steps "_do" do_steps args from_if_new
        (refl, (refl, (refl, (refl, (refl, (refl, tt)))))) (LacksAll-plain args plain)

  with_do_steps_parts :
      convert_args no_parts with_do_steps
      ≡ record no_parts { args = args; do_steps = convert_flow_steps do_steps }
  unfolding place steps_or append_args
  with_do_steps_parts =
      convert_args-put_steps "_do" do_steps args _ (LacksAll-plain args plain).0
        (convert_args_plain no_parts args plain) (λ v. refl)

  abbrev with_if_new : FlowArgs
  with_if_new = put_steps "_ifNew" if_new with_do_steps

  with_if_new_lacks : LacksAll from_if_exists with_if_new
  with_if_new_lacks =
      LacksAll-put_steps "_ifNew" if_new with_do_steps from_if_exists
        (refl, (refl, (refl, (refl, (refl, tt))))) (with_do_steps_lacks)

  with_if_new_parts : convert_args no_parts with_if_new ≡ record no_parts {
    args = args;
    do_steps = convert_flow_steps do_steps;
    if_new_steps = convert_flow_steps if_new;
  }
  unfolding place steps_or
  with_if_new_parts =
      convert_args-put_steps "_ifNew" if_new with_do_steps _ (with_do_steps_lacks).0
        (with_do_steps_parts) (λ v. refl)

  abbrev with_if_exists : FlowArgs
  with_if_exists = put_steps "_ifExists" if_exists with_if_new

  with_if_exists_lacks : LacksAll from_then with_if_exists
  with_if_exists_lacks =
      LacksAll-put_steps "_ifExists" if_exists with_if_new from_then
        (refl, (refl, (refl, (refl, tt)))) (with_if_new_lacks)

  with_if_exists_parts : convert_args no_parts with_if_exists ≡ record no_parts {
    args = args;
    do_steps = convert_flow_steps do_steps;
    if_new_steps = convert_flow_steps if_new;
    if_exists_steps = convert_flow_steps if_exists;
  }
  unfolding place steps_or
  with_if_exists_parts =
      convert_args-put_steps "_ifExists" if_exists with_if_new _ (with_if_new_lacks).0
        (with_if_new_parts) (λ v. refl)

  abbrev with_then_steps : FlowArgs
  with_then_steps = put_steps "_then" then_steps with_if_exists

  with_then_steps_lacks : LacksAll from_else with_then_steps
  with_then_steps_lacks =
      LacksAll-put_steps "_then" then_steps with_if_exists from_else (refl, (refl, (refl, tt)))
        (with_if_exists_lacks)

  with_then_steps_parts : convert_args no_parts with_then_steps ≡ record no_parts {
    args = args;
    do_steps = convert_flow_steps do_steps;
    if_new_steps = convert_flow_steps if_new;
    if_exists_steps = convert_flow_steps if_exists;
    then_steps = convert_flow_steps then_steps;
  }
  unfolding place steps_or
  with_then_steps_parts =
      convert_args-put_steps "_then" then_steps with_if_exists _ (with_if_exists_lacks).0
        (with_if_exists_parts) (λ v. refl)

  abbrev with_else_steps : FlowArgs
  with_else_steps = put_steps "_else" else_steps with_then_steps

  with_else_steps_lacks : LacksAll from_default with_else_steps
  with_else_steps_lacks =
      LacksAll-put_steps "_else" else_steps with_then_steps from_default (refl, (refl, tt))
        (with_then_steps_lacks)

  with_else_steps_parts : convert_args no_parts with_else_steps ≡ record no_parts {
    args = args;
    do_steps = convert_flow_steps do_steps;
    if_new_steps = convert_flow_steps if_new;
    if_exists_steps = convert_flow_steps if_exists;
    then_steps = convert_flow_steps then_steps;
    else_steps = convert_flow_steps else_steps;
  }
  unfolding place steps_or
  with_else_steps_parts =
      convert_args-put_steps "_else" else_steps with_then_steps _ (with_then_steps_lacks).0
        (with_then_steps_parts) (λ v. refl)

  abbrev with_default_steps : FlowArgs
  with_default_steps = put_steps "_default" default_steps with_else_steps

  with_default_steps_lacks : LacksAll from_cases with_default_steps
  with_default_steps_lacks =
      LacksAll-put_steps "_default" default_steps with_else_steps from_cases (refl, tt)
        (with_else_steps_lacks)

  with_default_steps_parts : convert_args no_parts with_default_steps ≡ record no_parts {
    args = args;
    do_steps = convert_flow_steps do_steps;
    if_new_steps = convert_flow_steps if_new;
    if_exists_steps = convert_flow_steps if_exists;
    then_steps = convert_flow_steps then_steps;
    else_steps = convert_flow_steps else_steps;
    default_steps = convert_flow_steps default_steps;
  }
  unfolding place steps_or
  with_default_steps_parts =
      convert_args-put_steps "_default" default_steps with_else_steps _ (with_else_steps_lacks).0
        (with_else_steps_parts) (λ v. refl)

  pub with_all_parts :
      convert_args no_parts (put_cases "_cases" c with_default_steps) ≡ record no_parts {
        args = args;
        do_steps = convert_flow_steps do_steps;
        if_new_steps = convert_flow_steps if_new;
        if_exists_steps = convert_flow_steps if_exists;
        then_steps = convert_flow_steps then_steps;
        else_steps = convert_flow_steps else_steps;
        default_steps = convert_flow_steps default_steps;
        case_steps = convert_cases c;
      }
  unfolding place cases_or
  with_all_parts =
      convert_args-put_cases "_cases" c with_default_steps _ with_default_steps_lacks.0
        with_default_steps_parts (λ v. refl)
