-- ===== src/Flow/Walk/Places.antt =====
-- The steps that issues name.
use ang.Common.{
  ℕ, suc, String, Bool, Option, none, some, List, [], ◌∷◌, ◌≡◌, refl, Memᴰ, arith, lookup, All,
  All-append, All-mem, Option-cases, inl, inr,
}
use ang.Flow.{Step, Steps, Issue, action, location}
use ang.Flow.Specs.{Spec, specs}
use ang.Flow.Specs.Laws.{RawConstraints, IsRaw, lookup-specs-IsLawful}
use ang.Flow.Walk.{
  step_issues, spec_issues, contract_issues, arg_issues, child_issues, tx_issues, custom_issues,
  extra_issues, validate, missing_arg, missing_child, tx_required, unknown_action,
}
use ang.Flow.Walk.Reports.{Origin, mem-validate_iff}

-- The issue is an error about the step `s` at the place `idx` of its list, counted from 1.
pub record IsAbout (s : Step) (idx : ℕ) (x : Issue) : Type 0 where
  pub step : x.step ≡ idx
  pub action_of : x.action ≡ action s
  pub location_of : x.location ≡ location s
  pub severity : x.severity ≡ "error"

module _ (s : Step) (idx : ℕ) where
  arg_issues-IsAbout : (required : List String) → All (IsAbout s idx) (arg_issues s idx required)
  unfolding arg_issues missing_arg
  arg_issues-IsAbout [] = tt
  arg_issues-IsAbout (arg ∷ required) = ground (arith, arg_issues-IsAbout required)

  child_issues-IsAbout :
      (required : List String) → All (IsAbout s idx) (child_issues s idx required)
  unfolding child_issues missing_child
  child_issues-IsAbout [] = tt
  child_issues-IsAbout (key ∷ required) = ground (arith, child_issues-IsAbout required)

  tx_issues-IsAbout : (requires in_tx : Bool) → All (IsAbout s idx) (tx_issues s idx requires in_tx)
  unfolding tx_issues tx_required
  tx_issues-IsAbout requires in_tx = ground arith

  extra_issues-IsAbout : (o : Option Issue) → IsRaw o → All (IsAbout s idx) (extra_issues s idx o)
  unfolding extra_issues
  extra_issues-IsAbout none raw = tt
  extra_issues-IsAbout (some x) raw =
      (record { step = refl; action_of = refl; location_of = refl; severity = rw (raw.0) }, tt)

  custom_issues-IsAbout :
      (check : Option (Step → Option Issue))
      → RawConstraints check
      → All (IsAbout s idx) (custom_issues s idx check)
  unfolding custom_issues
  custom_issues-IsAbout none raw = tt
  custom_issues-IsAbout (some check) raw = extra_issues-IsAbout (check s) (raw s)

  contract_issues-IsAbout :
      (in_tx : Bool) (spec : Spec)
      → RawConstraints spec.custom_constraints
      → All (IsAbout s idx) (contract_issues s idx in_tx spec)
  unfolding contract_issues
  contract_issues-IsAbout in_tx spec raw =
      All-append (IsAbout s idx) _ _ (arg_issues-IsAbout spec.required_args) (
        All-append (IsAbout s idx) _ _ (child_issues-IsAbout spec.required_children) (
          All-append (IsAbout s idx) _ _ (tx_issues-IsAbout spec.requires_tx in_tx)
            (custom_issues-IsAbout spec.custom_constraints raw)))

  step_issues-IsAbout : (in_tx : Bool) → All (IsAbout s idx) (step_issues s idx in_tx)
  unfolding step_issues spec_issues unknown_action
  step_issues-IsAbout in_tx = elim (Option-cases (lookup (action s) specs)) [
    | inl e ↦ rw e (ground arith)
    | inr (spec, e) ↦
        rw e (contract_issues-IsAbout in_tx spec (lookup-specs-IsLawful (action s) e).raw)
  ]

-- Every issue of a flow is an error, and gives the action, the location and the place of a step of
-- the flow whose contract calls for it.
pub validate-IsAbout :
    (top : Steps) (x : Issue)
    → Memᴰ x (validate top)
    → (o : Origin top x) × IsAbout o.at_step (suc o.index) x
validate-IsAbout top x m =
    let o = (mem-validate_iff top x).0 m in
    (
      o,
      All-mem (IsAbout o.at_step (suc o.index)) _ (step_issues-IsAbout o.at_step (suc o.index) _)
          o.reported,
    )
