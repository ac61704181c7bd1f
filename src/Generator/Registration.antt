-- ===== src/Generator/Registration.antt =====
-- When a sequence of registrations is accepted.
use mathlib.Core.List.{append_assoc, append-nil}
use ang.Common.{
  String, Bool, true, false, not, ◌&&◌, ◌||◌, none, some, List, [], ◌∷◌, ◌++◌, ◌≡◌, ◌≢◌, refl, ◌↔◌,
  arith, if◌then◌else◌, All, Bool-cases, Option-cases, inl, inr, ap, sym, ◌∙◌, ◌==◌, eq_iff,
  contains, lookup,
}
use ang.Text.{trim_space}
use ang.Capability.{TargetDef, CapabilitySet}
use ang.Generator.{
  Loggers, execute_registry, Step, StepRegistry, new_step_registry, register, keep_first,
}

-- the registrations of a target, one after another
abbrev pub register_all : StepRegistry → List Step → StepRegistry
register_all r [] = r
register_all r (step ∷ steps) = register_all (register r step) steps

-- A text is in a list of texts once at most.
abbrev pub Distinct : List String → Type 0
Distinct [] = Unit
Distinct (x ∷ xs) = (contains xs x ≡ false) × Distinct xs

abbrev pub names : List Step → List String
names [] = []
names (step ∷ steps) = trim_space step.name ∷ names steps

-- the artifact keys of the steps that have one
abbrev pub keys : List Step → List String
keys [] = []
keys (step ∷ steps) =
    if trim_space step.artifact_key == ""
    then keys steps
    else trim_space step.artifact_key ∷ keys steps

-- Every step has a name, and no two share their names or their artifact keys.
pub record IsWellNamed (steps : List Step) : Type 0 where
  pub named : All (λ step. (trim_space step.name == "") ≡ false) steps
  pub distinct_names : Distinct (names steps)
  pub distinct_keys : Distinct (keys steps)

-- the texts of `xs` are not among `taken`
abbrev Apart : List String → List String → Type 0
Apart taken xs = All (λ x. contains taken x ≡ false) xs

-- the artifact keys that a registry holds
abbrev taken_keys : List (String × String) → List String
taken_keys [] = []
taken_keys ((k, v) ∷ m) = k ∷ taken_keys m

-- `steps` can be registered after what `r` holds.
record Fits (r : StepRegistry) (steps : List Step) : Type 0 where
  well_named : IsWellNamed steps
  new_names : Apart r.step_names (names steps)
  new_keys : Apart (taken_keys r.artifact_keys) (keys steps)

register-stuck :
    (r : StepRegistry) (step : Step) {err : String}
    → r.reg_err ≡ some err
    → (register r step).reg_err ≡ some err
unfolding register keep_first
register-stuck r step h = ground arith

-- The first error stays.
register_all-stuck :
    (r : StepRegistry) (steps : List Step) {err : String}
    → r.reg_err ≡ some err
    → (register_all r steps).reg_err ≡ some err
register_all-stuck r [] h = h
register_all-stuck r (step ∷ steps) h =
    register_all-stuck (register r step) steps (register-stuck r step h)

lookup-none_iff :
    (k : String) (m : List (String × String))
    → (lookup k m ≡ none) ↔ (contains (taken_keys m) k ≡ false)
unfolding lookup contains
lookup-none_iff k [] = (λ _. refl, λ _. refl)
lookup-none_iff k ((j, v) ∷ m) = ground (arith, lookup-none_iff k m)

-- `Register` accepts the step.
accepts : StepRegistry → Step → Bool
accepts r step =
    not (trim_space step.name == "")
    && not (contains r.step_names (trim_space step.name))
    && (trim_space step.artifact_key == ""
        || not (contains (taken_keys r.artifact_keys) (trim_space step.artifact_key)))

register-refused :
    (r : StepRegistry) (step : Step) → accepts r step ≡ false → (register r step).reg_err ≢ none
unfolding register keep_first accepts
register-refused r step h e =
    ground (arith, lookup-none_iff (trim_space step.artifact_key) r.artifact_keys)

-- the registry behind an accepted step
record Entered (r : StepRegistry) (step : Step) (r' : StepRegistry) : Type 0 where
  no_err : r'.reg_err ≡ r.reg_err
  steps : r'.steps ≡ r.steps ++ step ∷ []
  step_names : r'.step_names ≡ trim_space step.name ∷ r.step_names
  artifact_keys : taken_keys r'.artifact_keys ≡ (
      if trim_space step.artifact_key == ""
      then taken_keys r.artifact_keys
      else trim_space step.artifact_key ∷ taken_keys r.artifact_keys)

register-Entered :
    (r : StepRegistry) (step : Step) → accepts r step ≡ true → Entered r step (register r step)
unfolding register accepts
register-Entered r step h =
    ground (arith, lookup-none_iff (trim_space step.artifact_key) r.artifact_keys)

Apart-cons_iff :
    (n : String) (taken xs : List String)
    → Apart (n ∷ taken) xs ↔ (Apart taken xs × (contains xs n ≡ false))
unfolding contains
Apart-cons_iff n taken [] = (λ _. (tt, refl), λ _. tt)
Apart-cons_iff n taken (x ∷ xs) = ground (arith, Apart-cons_iff n taken xs, eq_iff n x, eq_iff x n)

Fits-accepts :
    (r : StepRegistry) (step : Step) (steps : List Step)
    → Fits r (step ∷ steps)
    → accepts r step ≡ true
unfolding accepts
Fits-accepts r step steps f = ground arith

Fits-register :
    (r r' : StepRegistry) (step : Step) (steps : List Step)
    → accepts r step ≡ true
    → Entered r step r'
    → Fits r (step ∷ steps) ↔ Fits r' steps
unfolding accepts
Fits-register r r' step steps a e = ground (
  arith,
  Apart-cons_iff (trim_space step.name) r.step_names (names steps),
  Apart-cons_iff (trim_space step.artifact_key) (taken_keys r.artifact_keys) (keys steps),
)

Apart-nil : (xs : List String) → Apart [] xs
unfolding contains
Apart-nil [] = tt
Apart-nil (x ∷ xs) = (refl, Apart-nil xs)

register_all-Fits :
    (r : StepRegistry) (steps : List Step)
    → r.reg_err ≡ none
    → (register_all r steps).reg_err ≡ none
    → Fits r steps
register_all-Fits r [] e h = record {
  well_named = record { named = tt; distinct_names = tt; distinct_keys = tt };
  new_names = tt;
  new_keys = tt;
}
register_all-Fits r (step ∷ steps) e h = elim (Bool-cases (accepts r step)) [
  | inl a ↦
      let entered = register-Entered r step a in
      (Fits-register r (register r step) step steps a entered).1
        (register_all-Fits (register r step) steps (entered.no_err ∙ e) h)
  | inr refused ↦ elim (Option-cases (register r step).reg_err) [
    | inl none_yet ↦ absurd (register-refused r step refused none_yet)
    | inr (err, some_err) ↦ cc (register_all-stuck (register r step) steps some_err)
  ]
]

Fits-register_all :
    (r : StepRegistry) (steps : List Step)
    → r.reg_err ≡ none
    → Fits r steps
    → ((register_all r steps).reg_err ≡ none) × ((register_all r steps).steps ≡ r.steps ++ steps)
Fits-register_all r [] e f = (e, sym (append-nil r.steps))
Fits-register_all r (step ∷ steps) e f =
    let a = Fits-accepts r step steps f in
    let entered = register-Entered r step a in
    let (no_err, held) =
      Fits-register_all (register r step) steps (entered.no_err ∙ e)
        ((Fits-register r (register r step) step steps a entered).0 f) in
    (no_err, held ∙ ap (λ l. l ++ steps) entered.steps ∙ append_assoc r.steps (step ∷ []) steps)

-- A sequence of registrations leaves no error exactly if every step has a name, and no two steps
-- share a name or an artifact key, each read without surrounding space. Then the registry holds the
-- steps in the order of their registration.
pub register_all_iff :
    (steps : List Step)
    → (((register_all new_step_registry steps).reg_err ≡ none) ↔ IsWellNamed steps)
      × (IsWellNamed steps → (register_all new_step_registry steps).steps ≡ steps)
register_all_iff steps =
    let fits : IsWellNamed steps → Fits new_step_registry steps = λ w. record {
      well_named = w;
      new_names = Apart-nil (names steps);
      new_keys = Apart-nil (keys steps);
    } in
    (
      (
        λ h. (register_all-Fits new_step_registry steps refl h).well_named,
        λ w. (Fits-register_all new_step_registry steps refl (fits w)).0,
      ),
      λ w. (Fits-register_all new_step_registry steps refl (fits w)).1,
    )

execute-refused :
    (td : TargetDef) (set : CapabilitySet) (lg : Loggers) (r : StepRegistry) {err : String}
    → r.reg_err ≡ some err
    → execute_registry td set lg r ≡ ([], some err)
unfolding execute_registry
execute-refused td set lg r e = rw e

-- Steps that are not well named are not run at all: whatever follows, executing the registry gives
-- an error and tells the loggers nothing.
pub execute_not_well_named :
    (td : TargetDef) (set : CapabilitySet) (lg : Loggers) (steps : List Step)
    → ¬ IsWellNamed steps
    → (err : String) × (execute_registry td set lg (register_all new_step_registry steps)
        ≡ ([], some err))
execute_not_well_named td set lg steps bad =
    elim (Option-cases (register_all new_step_registry steps).reg_err) [
      | inl e ↦ absurd (bad ((register_all_iff steps).0.0 e))
      | inr (err, e) ↦ (err, execute-refused td set lg (register_all new_step_registry steps) e)
    ]
