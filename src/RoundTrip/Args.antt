-- ===== src/RoundTrip/Args.antt =====
-- The arguments of a step: one more of them, and nested steps put among them.
use ang.Common.{
  ◌≡◌, refl, sym, ap, ◌∙◌, String, Bool, true, false, ◌||◌, ◌==◌, eq_iff, arith, Bool-cases, inl,
  inr, subst,
}
use ang.Normalizer.{FlowSteps, FlowArgs, FlowValue, FlowCases}
use ang.Ir
use ang.Convert.{
  Parts, no_parts, Nested, place, add_arg, convert_args, convert_value, convert_flow_steps,
  convert_cases,
}
use ang.Restore.{set_arg, put_steps, put_cases}

-- a loop that goes on to one more argument
convert_args-add_arg :
    (p : Parts) (key : String) (v : FlowValue) (args : FlowArgs)
    → convert_args p (add_arg key v args) ≡ place key v (convert_value v) (convert_args p args)
unfolding convert_args add_arg
convert_args-add_arg p key v FlowArgs.end = refl
convert_args-add_arg p key v (FlowArgs.arg k w args) =
    convert_args-add_arg (place k w (convert_value w) p) key v args

-- No argument has the key.
abbrev pub Lacks : String → FlowArgs → Type 0
Lacks key FlowArgs.end = Unit
Lacks key (FlowArgs.arg k v args) = ((k == key) ≡ false) × Lacks key args

set_arg_new :
    (key : String) (v : FlowValue) (args : FlowArgs)
    → Lacks key args
    → set_arg key v args ≡ add_arg key v args
unfolding set_arg add_arg
set_arg_new key v FlowArgs.end l = refl
set_arg_new key v (FlowArgs.arg k w args) l = rw (l.0, set_arg_new key v args l.1) refl

Lacks-add_arg :
    (key other : String) (v : FlowValue) (args : FlowArgs)
    → (other == key) ≡ false
    → Lacks key args
    → Lacks key (add_arg other v args)
unfolding add_arg
Lacks-add_arg key other v FlowArgs.end n l = (n, tt)
Lacks-add_arg key other v (FlowArgs.arg k w args) n l = (l.0, Lacks-add_arg key other v args n l.1)

pub Lacks-put_steps :
    (key other : String) (s : FlowSteps) (args : FlowArgs)
    → (other == key) ≡ false
    → Lacks other args
    → Lacks key args
    → Lacks key (put_steps other s args)
unfolding put_steps
Lacks-put_steps key other FlowSteps.nil args n o l = l
Lacks-put_steps key other (FlowSteps.cons step rest) args n o l =
    rw (set_arg_new other (FlowValue.steps (FlowSteps.cons step rest)) args o)
      (Lacks-add_arg key other _ args n l)

-- The argument is no nested step.
abbrev pub is_nested : String → Bool
is_nested k =
    k == "_then"
    || k == "_else"
    || k == "_do"
    || k == "_ifNew"
    || k == "_ifExists"
    || k == "_default"
    || k == "_cases"

abbrev pub IsPlain : FlowArgs → Type 0
IsPlain FlowArgs.end = Unit
IsPlain (FlowArgs.arg k v args) = (is_nested k ≡ false) × IsPlain args

place_plain :
    (k : String) (v : FlowValue) (n : Nested) (p : Parts)
    → is_nested k ≡ false
    → place k v n p ≡ record p { args = add_arg k v p.args }
unfolding place
place_plain k v n p h = ground arith

pub IsPlain-Lacks :
    (key : String) (args : FlowArgs) → is_nested key ≡ true → IsPlain args → Lacks key args
IsPlain-Lacks key FlowArgs.end h p = tt
IsPlain-Lacks key (FlowArgs.arg k v args) h p = (
  elim (Bool-cases (k == key)) [
    | inl e ↦
        let same = (eq_iff k key).0 e in
        let nested = subst (λ t. is_nested t ≡ true) (sym same) h in cc
    | inr e ↦ e
  ],
  IsPlain-Lacks key args h p.1,
)

unfoldable pub append_args : FlowArgs → FlowArgs → FlowArgs
append_args FlowArgs.end args = args
append_args (FlowArgs.arg k v p) args = FlowArgs.arg k v (append_args p args)

append_args-add_arg :
    (k : String) (v : FlowValue) (p args : FlowArgs)
    → append_args (add_arg k v p) args ≡ append_args p (FlowArgs.arg k v args)
unfolding append_args add_arg
append_args-add_arg k v FlowArgs.end args = refl
append_args-add_arg k v (FlowArgs.arg j w p) args =
    ap (FlowArgs.arg j w) (append_args-add_arg k v p args)

append_args_end : (p : FlowArgs) → append_args p FlowArgs.end ≡ p
unfolding append_args
append_args_end FlowArgs.end = refl
append_args_end (FlowArgs.arg k v p) = ap (FlowArgs.arg k v) (append_args_end p)

pub convert_args_plain :
    (p : Parts) (args : FlowArgs)
    → IsPlain args
    → convert_args p args ≡ record p { args = append_args p.args args }
unfolding convert_args
convert_args_plain p FlowArgs.end h = ap (λ a. record p { args = a }) (sym (append_args_end p.args))
convert_args_plain p (FlowArgs.arg k v args) h =
    ap (λ q. convert_args q args) (place_plain k v (convert_value v) p h.0)
    ∙ convert_args_plain (record p { args = add_arg k v p.args }) args h.1
    ∙ ap (λ a. record p { args = a }) (append_args-add_arg k v p.args args)

-- one kind of nested steps put among the arguments, and what the loop then makes of them
pub convert_args-put_steps :
    (key : String) (s : FlowSteps) (args : FlowArgs) (p : Parts)
    → Lacks key args
    → convert_args no_parts args ≡ p
    → ((v : FlowValue) → place key v (Nested.steps Ir.FlowSteps.nil) p ≡ p)
    → convert_args no_parts (put_steps key s args)
      ≡ place key (FlowValue.steps s) (Nested.steps (convert_flow_steps s)) p
unfolding put_steps convert_flow_steps
convert_args-put_steps key FlowSteps.nil args p l e z = e ∙ sym (z _)
convert_args-put_steps key (FlowSteps.cons step rest) args p l e z =
    ap (convert_args no_parts) (set_arg_new key _ args l)
    ∙ convert_args-add_arg no_parts key _ args
    ∙ ap (place key _ _) e

pub convert_args-put_cases :
    (key : String) (c : FlowCases) (args : FlowArgs) (p : Parts)
    → Lacks key args
    → convert_args no_parts args ≡ p
    → ((v : FlowValue) → place key v (Nested.cases Ir.FlowCases.done) p ≡ p)
    → convert_args no_parts (put_cases key c args)
      ≡ place key (FlowValue.cases c) (Nested.cases (convert_cases c)) p
unfolding put_cases convert_cases
convert_args-put_cases key FlowCases.done args p l e z = e ∙ sym (z _)
convert_args-put_cases key (FlowCases.branch label s rest) args p l e z =
    ap (convert_args no_parts) (set_arg_new key _ args l)
    ∙ convert_args-add_arg no_parts key _ args
    ∙ ap (place key _ _) e
