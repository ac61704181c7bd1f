-- ===== src/Flow/Walk.antt =====
-- compiler/flowsem/engine.go: Validate.
pub mod Visits
pub mod Reports
pub mod Contract
pub mod Places
pub mod Transactions
mod Examples
use ang.Common.{
  ℕ, suc, String, Bool, true, false, not, ◌&&◌, ◌||◌, Option, none, some, List, [], ◌∷◌, ◌++◌, ◌==◌,
  if◌then◌else◌, lookup,
}
use ang.Text.{to_upper, trim_prefix, concat}
use ang.Flow.{
  Step, Steps, Children, Location, Issue, step, nil, cons, end, entry, action, args, children,
  location, no_steps,
}
use ang.Flow.Specs.{Spec, has_non_empty_string, child, specs, is_known_prefix}

-- `issue(step, idx, code, message, hint)`
unfoldable pub issue : Step → ℕ → String → String → String → Issue
issue s idx code message hint = record {
  step = idx;
  action = action s;
  code = code;
  message = message;
  hint = hint;
  location = location s;
  severity = "error";
}

pub missing_arg : Step → ℕ → String → Issue
unfolding issue
missing_arg s idx arg =
    issue s idx (concat ("MISSING_" ∷ to_upper arg ∷ []))
      (concat (action s ∷ " missing '" ∷ arg ∷ "'" ∷ [])) "See action contract in flow semantics"

pub missing_child : Step → ℕ → String → Issue
unfolding issue
missing_child s idx key =
    issue s idx (concat ("MISSING_" ∷ to_upper (trim_prefix key "_") ∷ []))
      (concat (action s ∷ " missing '" ∷ trim_prefix key "_" ∷ "'" ∷ []))
      "See action contract in flow semantics"

pub arg_issues : Step → ℕ → List String → List Issue
arg_issues s idx [] = []
arg_issues s idx (arg ∷ required) =
    let rest = arg_issues s idx required in
    if has_non_empty_string (args s) arg then rest else missing_arg s idx arg ∷ rest

pub child_issues : Step → ℕ → List String → List Issue
child_issues s idx [] = []
child_issues s idx (key ∷ required) =
    let rest = child_issues s idx required in
    if no_steps (child (children s) key) then missing_child s idx key ∷ rest else rest

pub tx_required : Step → ℕ → Issue
unfolding issue
tx_required s idx =
    issue s idx "TX_REQUIRED" (concat (action s ∷ " outside tx.Block" ∷ []))
      "{action: \"tx.Block\", do: [ ... ]}"

pub tx_issues : Step → ℕ → Bool → Bool → List Issue
tx_issues s idx requires_tx in_tx = if requires_tx && not in_tx then tx_required s idx ∷ [] else []

-- the fields that the walk sets in an issue of CustomConstraints
pub complete : Step → ℕ → Issue → Issue
complete s idx extra = record extra {
  step = idx;
  action = action s;
  location = location s;
  severity = if extra.severity == "" then "error" else extra.severity;
}

pub extra_issues : Step → ℕ → Option Issue → List Issue
unfolding complete
extra_issues s idx none = []
extra_issues s idx (some extra) = complete s idx extra ∷ []

pub custom_issues : Step → ℕ → Option (Step → Option Issue) → List Issue
unfolding extra_issues
custom_issues s idx none = []
custom_issues s idx (some check) = extra_issues s idx (check s)

pub unknown_action : Step → ℕ → Issue
unfolding issue
unknown_action s idx =
    issue s idx "UNKNOWN_ACTION" (concat ("unknown action '" ∷ action s ∷ "'" ∷ []))
      "{action: \"repo.Find\" | \"mapping.Assign\" | \"flow.If\" ...}"

pub contract_issues : Step → ℕ → Bool → Spec → List Issue
contract_issues s idx in_tx spec =
    arg_issues s idx spec.required_args
    ++ (child_issues s idx spec.required_children
        ++ (tx_issues s idx spec.requires_tx in_tx ++ custom_issues s idx spec.custom_constraints))

pub spec_issues : Step → ℕ → Bool → Option Spec → List Issue
spec_issues s idx in_tx none = if is_known_prefix (action s) then [] else unknown_action s idx ∷ []
spec_issues s idx in_tx (some spec) = contract_issues s idx in_tx spec

-- what one round of the loop appends to `out` before it goes down to the children
pub step_issues : Step → ℕ → Bool → List Issue
step_issues s idx in_tx = spec_issues s idx in_tx (lookup (action s) specs)

pub next_tx : Bool → String → Bool
next_tx in_tx action = in_tx || action == "tx.Block"

-- `walk(items, inTx)` from the item of index i on: what it appends to `out`. An empty list of
-- children appends nothing.
mutual
  pub walk : Steps → ℕ → Bool → List Issue
  walk nil i in_tx = []
  walk (cons s rest) i in_tx = walk_step s i in_tx ++ walk rest (suc i) in_tx

  pub walk_step : Step → ℕ → Bool → List Issue
  walk_step (step a vs ch loc) i in_tx =
      step_issues (step a vs ch loc) (suc i) in_tx ++ walk_children ch (next_tx in_tx a)

  pub walk_children : Children → Bool → List Issue
  walk_children end in_tx = []
  walk_children (entry key steps rest) in_tx = walk steps 0 in_tx ++ walk_children rest in_tx

pub validate : Steps → List Issue
unfolding walk
validate steps = walk steps 0 false
