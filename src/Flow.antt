-- ===== src/Flow.antt =====
-- compiler/flowsem/engine.go: the steps of a flow and the issues that its validation reports.
-- The contracts of the actions are in Flow/Specs, the walk over the steps in Flow/Walk.
pub mod Specs
pub mod Walk
use ang.Common.{ℕ, Bool, String, List}

-- A value of `map[string]any`. The validation looks into a text, and into the rules of
-- `entity.PatchValidated`, a `map[string]map[string]string`.
pub data Value : Type 0 where
  text : String → Value
  rules : List (String × List (String × String)) → Value
  other : Value

abbrev pub Args : Type 0
Args = List (String × Value)

-- File, Line, Column and CUEPath of a step; positions are not negative.
pub record Location : Type 0 where
  pub file : String
  pub line : ℕ
  pub column : ℕ
  pub cue_path : String

-- `Children map[string][]Step` is the list of its entries, in the order of one `range`.
mutual
  pub data Step : Type 0 where
    step : (action : String) → (args : Args) → (children : Children) → (location : Location) → Step

  pub data Steps : Type 0 where
    nil : Steps
    cons : Step → Steps → Steps

  pub data Children : Type 0 where
    end : Children
    entry : (key : String) → Steps → Children → Children

abbrev pub action : Step → String
action (step a args ch loc) = a

abbrev pub args : Step → Args
args (step a vs ch loc) = vs

abbrev pub children : Step → Children
children (step a args ch loc) = ch

abbrev pub location : Step → Location
location (step a args ch loc) = loc

abbrev pub no_steps : Steps → Bool
no_steps nil = Bool.true
no_steps (cons s rest) = Bool.false

pub record Issue : Type 0 where
  pub step : ℕ
  pub action : String
  pub code : String
  pub message : String
  pub hint : String
  pub location : Location
  pub severity : String
