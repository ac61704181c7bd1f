-- ===== src/Flow/Walk/Visits.antt =====
-- Which steps a flow has, independently of the walk: where each stands, and below which actions.
use ang.Common.{
  ℕ, zero, suc, String, Bool, false, ◌||◌, Option, none, some, List, [], ◌∷◌, ◌==◌, ◌≡◌, ◌⊎◌,
}
use ang.Flow.{Step, Steps, Children, nil, cons, end, entry, action, children}

-- `items[n]`
abbrev pub step_at : Steps → ℕ → Option Step
step_at nil n = none
step_at (cons s rest) zero = some s
step_at (cons s rest) (suc n) = step_at rest n

-- `steps` is one of the lists of children
abbrev pub IsChild : Steps → Children → Type 0
IsChild steps end = ⊥
IsChild steps (entry key first rest) = (steps ≡ first) ⊎ IsChild steps rest

-- The lists of steps within a flow, each with the actions that stand above it.
pub data Within (top : Steps) : Steps → List String → Type 0 where
  whole : Within top top []
  below :
      {items : Steps} {above : List String} (s : Step) (n : ℕ) (steps : Steps)
      → Within top items above
      → step_at items n ≡ some s
      → IsChild steps (children s)
      → Within top steps (action s ∷ above)

-- one of the actions is `tx.Block`
abbrev pub has_tx : List String → Bool
has_tx [] = false
has_tx (a ∷ above) = has_tx above || a == "tx.Block"
