-- ===== src/Flow/Walk/Contract.antt =====
-- The steps and the flows that give no issue, and the contracts of actions.
use ang.Common.{
  ℕ, suc, String, Bool, true, false, Option, none, some, List, [], ◌∷◌, ◌++◌, ◌≡◌, refl, ◌↔◌, Memᴰ,
  arith, lookup, subst, All,
}
use mathlib.Core.List.Memᴰ
use ang.Flow.{Step, Steps, Issue, action, args, children, no_steps}
use ang.Flow.Specs.{Spec, has_non_empty_string, child, specs, is_known_prefix}
use ang.Flow.Walk.{
  step_issues, spec_issues, contract_issues, arg_issues, child_issues, tx_issues, custom_issues,
  validate,
}
use ang.Flow.Walk.Visits.{step_at, Within, has_tx}
use ang.Flow.Walk.Reports.{mem-validate_iff}

abbrev pub Passes : Option (Step → Option Issue) → Step → Type 0
Passes none s = Unit
Passes (some check) s = check s ≡ none

-- The contract `spec`, met by a step inside or outside a transaction.
pub record Meets (spec : Spec) (in_tx : Bool) (s : Step) : Type 0 where
  pub has_args : All (λ arg. has_non_empty_string (args s) arg ≡ true) spec.required_args
  pub has_children : All (λ key. no_steps (child (children s) key) ≡ false) spec.required_children
  pub has_tx : spec.requires_tx ≡ true → in_tx ≡ true
  pub constraints : Passes spec.custom_constraints s

abbrev pub MeetsOwn : Option Spec → Bool → Step → Type 0
MeetsOwn none in_tx s = is_known_prefix (action s) ≡ true
MeetsOwn (some spec) in_tx s = Meets spec in_tx s

-- The step meets the contract of its action; an action with no contract has a known prefix.
abbrev pub IsValid : Bool → Step → Type 0
IsValid in_tx s = MeetsOwn (lookup (action s) specs) in_tx s

append-nil_iff : (xs ys : List Issue) → (xs ++ ys ≡ []) ↔ ((xs ≡ []) × (ys ≡ []))
append-nil_iff [] ys = ground arith
append-nil_iff (x ∷ xs) ys = ground arith

module _ (s : Step) (idx : ℕ) where
  arg_issues-nil_iff :
      (required : List String)
      → (arg_issues s idx required ≡ [])
        ↔ All (λ arg. has_non_empty_string (args s) arg ≡ true) required
  unfolding arg_issues
  arg_issues-nil_iff [] = (λ _. tt, λ _. refl)
  arg_issues-nil_iff (arg ∷ required) = ground (arith, arg_issues-nil_iff required)

  child_issues-nil_iff :
      (required : List String)
      → (child_issues s idx required ≡ [])
        ↔ All (λ key. no_steps (child (children s) key) ≡ false) required
  unfolding child_issues
  child_issues-nil_iff [] = (λ _. tt, λ _. refl)
  child_issues-nil_iff (key ∷ required) = ground (arith, child_issues-nil_iff required)

  tx_issues-nil_iff :
      (requires in_tx : Bool)
      → (tx_issues s idx requires in_tx ≡ []) ↔ (requires ≡ true → in_tx ≡ true)
  unfolding tx_issues
  tx_issues-nil_iff requires in_tx = ground arith

  custom_issues-nil_iff :
      (check : Option (Step → Option Issue)) → (custom_issues s idx check ≡ []) ↔ Passes check s
  unfolding custom_issues
  custom_issues-nil_iff none = (λ _. tt, λ _. refl)
  custom_issues-nil_iff (some check) = ground arith

  contract_issues-nil_iff :
      (in_tx : Bool) (spec : Spec) → (contract_issues s idx in_tx spec ≡ []) ↔ Meets spec in_tx s
  unfolding contract_issues
  contract_issues-nil_iff in_tx spec =
      let a = arg_issues-nil_iff spec.required_args in
      let c = child_issues-nil_iff spec.required_children in
      let t = tx_issues-nil_iff spec.requires_tx in_tx in
      let u = custom_issues-nil_iff spec.custom_constraints in
      (
        λ e.
            let (ea, e') = (append-nil_iff _ _).0 e in
            let (ec, e'') = (append-nil_iff _ _).0 e' in
            let (et, eu) = (append-nil_iff _ _).0 e'' in
            record {
              has_args = a.0 ea;
              has_children = c.0 ec;
              has_tx = t.0 et;
              constraints = u.0 eu;
            },
        λ m. (append-nil_iff _ _).1 (
          a.1 m.has_args,
          (append-nil_iff _ _).1
              (c.1 m.has_children, (append-nil_iff _ _).1 (t.1 m.has_tx, u.1 m.constraints)),
        ),
      )

  spec_issues-nil_iff :
      (in_tx : Bool) (spec : Option Spec)
      → (spec_issues s idx in_tx spec ≡ []) ↔ MeetsOwn spec in_tx s
  unfolding spec_issues
  spec_issues-nil_iff in_tx none = ground arith
  spec_issues-nil_iff in_tx (some spec) = contract_issues-nil_iff in_tx spec

  -- A step gives no issue exactly if it meets the contract of its action.
  pub step_issues-nil_iff : (in_tx : Bool) → (step_issues s idx in_tx ≡ []) ↔ IsValid in_tx s
  unfolding step_issues
  step_issues-nil_iff in_tx = spec_issues-nil_iff in_tx (lookup (action s) specs)

-- Every step of the flow, at any depth, meets its contract where it stands.
pub record IsValidFlow (top : Steps) : Type 0 where
  pub at_step :
      (items : Steps) (above : List String) (n : ℕ) (s : Step)
      → Within top items above
      → step_at items n ≡ some s
      → IsValid (has_tx above) s

nil_of_no_mem : (xs : List Issue) → ((x : Issue) → Memᴰ x xs → ⊥) → xs ≡ []
nil_of_no_mem [] h = refl
nil_of_no_mem (x ∷ xs) h = absurd (h x (Memᴰ.head refl))

no_mem_of_nil : {xs : List Issue} → xs ≡ [] → (x : Issue) → Memᴰ x xs → ⊥
no_mem_of_nil e x m = Memᴰ.not-nil (subst (λ ys. Memᴰ x ys) e m)

-- `validate` reports nothing exactly if every step of the flow, at any depth, has a known action
-- and meets the contract of its action: required arguments that are texts and not blank, required
-- children, a surrounding `tx.Block` where one is needed, and the action's own constraints.
pub validate-nil_iff : (top : Steps) → (validate top ≡ []) ↔ IsValidFlow top
validate-nil_iff top = (
  λ e. record {
    at_step = λ items above n s w st. (step_issues-nil_iff s (suc n) (has_tx above)).0 (
        nil_of_no_mem _ (λ x m. no_mem_of_nil e x (
          (mem-validate_iff top x).1 (record {
            items = items;
            above = above;
            within = w;
            index = n;
            at_step = s;
            stands = st;
            reported = m;
          }))));
  },
  λ v. nil_of_no_mem _ (λ x m.
      let o = (mem-validate_iff top x).0 m in
      no_mem_of_nil
        ((step_issues-nil_iff o.at_step (suc o.index) (has_tx o.above)).1
          (v.at_step o.items o.above o.index o.at_step o.within o.stands))
        x o.reported),
)
