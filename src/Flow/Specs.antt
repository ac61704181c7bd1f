-- ===== src/Flow/Specs.antt =====
-- compiler/flowsem/engine.go: the contract of each action, and the tests that a contract makes.
pub mod Laws
use ang.Common.{
  String, Bool, true, false, not, ◌&&◌, ◌||◌, Option, none, some, List, [], ◌∷◌, ◌==◌,
  if◌then◌else◌, is_empty, lookup,
}
use ang.Text.{trim_space, has_prefix, split}
use ang.Flow.{
  Value, Args, Step, Steps, Children, Issue, text, rules, nil, end, entry, args, children, no_steps,
}

pub record Spec : Type 0 where
  pub required_args : List String
  pub required_children : List String
  pub declares_from_args : List String
  pub requires_tx : Bool
  pub custom_constraints : Option (Step → Option Issue)

-- `args[key].(string)`, the empty text if there is none
unfoldable pub text_or_empty : Option Value → String
text_or_empty (some (text s)) = s
text_or_empty _ = ""

unfoldable pub has_non_empty_string : Args → String → Bool
unfolding text_or_empty
has_non_empty_string vs key = not (trim_space (text_or_empty (lookup key vs)) == "")

-- `step.Children[key]`, no steps if the key is missing
unfoldable pub child : Children → String → Steps
child end key = nil
child (entry k steps rest) key = if k == key then steps else child rest key

-- `&Issue{Code: code, Message: message, Hint: hint}`
abbrev pub raw_issue : String → String → String → Issue
raw_issue code message hint = record {
  step = 0;
  action = "";
  code = code;
  message = message;
  hint = hint;
  location = record { file = ""; line = 0; column = 0; cue_path = "" };
  severity = "";
}

unfoldable pub check_upsert : Step → Option Issue
unfolding child
check_upsert s =
    if no_steps (child (children s) "_ifNew") && no_steps (child (children s) "_ifExists")
    then some (
        raw_issue "MISSING_BRANCHES" "repo.Upsert requires at least one branch: ifNew or ifExists"
          "{action: \"repo.Upsert\", ..., ifNew: [ ... ]}")
    else none

unfoldable pub check_switch : Step → Option Issue
unfolding child
check_switch s =
    if no_steps (child (children s) "_cases")
    then some (
        raw_issue "MISSING_CASES" "flow.Switch requires at least one case"
          "{action: \"flow.Switch\", value: \"req.Role\", cases: {owner: [ ... ]}}")
    else none

-- the sides of one `Target=Lookup` pair, split at '='
pair_ok : List String → Bool
pair_ok (target ∷ source ∷ []) = not (
    trim_space target == ""
    || trim_space source == ""
    || not (target == trim_space target)
    || not (source == trim_space source))
pair_ok _ = false

pairs_ok : List String → Bool
unfolding pair_ok
pairs_ok [] = true
pairs_ok (pair ∷ pairs) = pair_ok (split (trim_space pair) b'=') && pairs_ok pairs

unfoldable pub check_set : String → Option Issue
unfolding pairs_ok
check_set set =
    if trim_space set == ""
    then some (
        raw_issue "MISSING_SET" "list.Enrich missing 'set'"
          "{action: \"list.Enrich\", ..., set: \"AuthorName=Name,AuthorLogo=Logo\"}")
    else if pairs_ok (split set b',')
    then none
    else some (
        raw_issue "INVALID_SET_FORMAT"
          "list.Enrich 'set' must be comma-separated TargetField=LookupField pairs without spaces around '='"
          "{action: \"list.Enrich\", ..., set: \"AuthorName=Name,AuthorLogo=Logo\"}")

unfoldable pub check_enrich : Step → Option Issue
unfolding check_set text_or_empty
check_enrich s = check_set (text_or_empty (lookup "set" (args s)))

-- `strings.TrimSpace(rules[key])`
rule : List (String × String) → String → String
rule m key = trim_space (elim (lookup key m) [ none ↦ "" | some v ↦ v ])

normalize_ok : String → Bool
normalize_ok v = v == "" || v == "trim" || v == "lower" || v == "upper"

format_ok : String → Bool
format_ok v = v == "" || v == "email" || v == "phone"

unique_ok : String → Bool
unique_ok v = v == "" || has_prefix v "FindBy"

-- The body of the loop over `fields`.
unfoldable pub check_field : String → List (String × String) → Option Issue
unfolding rule normalize_ok format_ok unique_ok
check_field name m =
    if trim_space name == ""
    then some (
        raw_issue "INVALID_FIELD_NAME" "entity.PatchValidated contains empty field name"
          "{action: \"entity.PatchValidated\", fields: { Email: { ... } }}")
    else if not (normalize_ok (rule m "normalize"))
    then some (
        raw_issue "INVALID_NORMALIZE" "entity.PatchValidated has invalid normalize rule"
          "{ normalize: \"trim\" | \"lower\" | \"upper\" }")
    else if not (format_ok (rule m "format"))
    then some (
        raw_issue "INVALID_FORMAT" "entity.PatchValidated has invalid format rule"
          "{ format: \"email\" | \"phone\" }")
    else if not (unique_ok (rule m "unique"))
    then some (
        raw_issue "INVALID_UNIQUE_METHOD"
          "entity.PatchValidated unique method should start with FindBy"
          "{ unique: \"FindByTaxID\" }")
    else none

-- The loop returns at the first field that has an issue.
unfoldable pub check_fields : List (String × List (String × String)) → Option Issue
check_fields [] = none
check_fields ((name, m) ∷ fields) = elim (check_field name m) [
  | some issue ↦ some issue
  | none ↦ check_fields fields
]

missing_fields : Option Issue
missing_fields = some (
    raw_issue "MISSING_FIELDS" "entity.PatchValidated requires non-empty 'fields' map"
      "{action: \"entity.PatchValidated\", fields: { Email: { normalize: \"lower\" } }}")

unfoldable pub check_patch_value : Option Value → Option Issue
unfolding missing_fields check_fields
check_patch_value (some (rules fields)) =
    if is_empty fields then missing_fields else check_fields fields
check_patch_value _ = missing_fields

unfoldable pub check_patch : Step → Option Issue
unfolding check_patch_value
check_patch s = check_patch_value (lookup "fields" (args s))

abbrev blank_spec : Spec
blank_spec = record {
  required_args = [];
  required_children = [];
  declares_from_args = [];
  requires_tx = false;
  custom_constraints = none;
}

abbrev needs : List String → Spec
needs required = record blank_spec { required_args = required }

unfoldable pub specs : List (String × Spec)
specs =
    ("logic.Check", needs ("condition" ∷ "throw" ∷ []))
    ∷ ("event.Publish", needs ("name" ∷ []))
    ∷ ("notification.Dispatch", needs ("message" ∷ []))
    ∷ ("repo.GetForUpdate", record blank_spec { requires_tx = true })
    ∷ ("repo.Query", needs ("method" ∷ []))
    ∷ (
      "repo.Upsert",
      record blank_spec {
        required_args = "source" ∷ "find" ∷ "input" ∷ "output" ∷ [];
        declares_from_args = "output" ∷ [];
        custom_constraints = some check_upsert;
      },
    )
    ∷ (
      "flow.If",
      record blank_spec { required_args = "condition" ∷ []; required_children = "_then" ∷ [] },
    )
    ∷ (
      "flow.Switch",
      record blank_spec { required_args = "value" ∷ []; custom_constraints = some check_switch },
    )
    ∷ (
      "flow.For",
      record blank_spec { required_args = "each" ∷ "as" ∷ []; required_children = "_do" ∷ [] },
    )
    ∷ ("flow.Block", record blank_spec { required_children = "_do" ∷ [] })
    ∷ ("tx.Block", record blank_spec { required_children = "_do" ∷ [] })
    ∷ (
      "list.Filter",
      record blank_spec {
        required_args = "from" ∷ "condition" ∷ "output" ∷ [];
        declares_from_args = "output" ∷ [];
      },
    )
    ∷ ("list.Sort", needs ("items" ∷ "by" ∷ []))
    ∷ ("list.Append", needs ("to" ∷ "item" ∷ []))
    ∷ (
      "list.Enrich",
      record blank_spec {
        required_args = "items" ∷ "lookupSource" ∷ "lookupInput" ∷ "set" ∷ [];
        custom_constraints = some check_enrich;
      },
    )
    ∷ (
      "list.Paginate",
      record blank_spec {
        required_args = "input" ∷ "offset" ∷ "limit" ∷ "output" ∷ [];
        declares_from_args = "output" ∷ [];
      },
    )
    ∷ (
      "str.Normalize",
      record blank_spec {
        required_args = "input" ∷ "output" ∷ [];
        declares_from_args = "output" ∷ [];
      },
    )
    ∷ ("time.CheckExpiry", needs ("value" ∷ "throw" ∷ []))
    ∷ (
      "time.Parse",
      record blank_spec {
        required_args = "value" ∷ "output" ∷ [];
        declares_from_args = "output" ∷ [];
      },
    )
    ∷ (
      "map.Build",
      record blank_spec {
        required_args = "from" ∷ "key" ∷ "value" ∷ "output" ∷ [];
        declares_from_args = "output" ∷ [];
      },
    )
    ∷ ("audit.Log", needs ("actor" ∷ "company" ∷ "event" ∷ []))
    ∷ ("fsm.Transition", needs ("entity" ∷ "to" ∷ []))
    ∷ ("auth.RequireRole", needs ("userID" ∷ "companyID" ∷ "roles" ∷ []))
    ∷ ("auth.CheckRole", needs ("user" ∷ "roles" ∷ []))
    ∷ ("entity.PatchNonZero", needs ("target" ∷ "from" ∷ "fields" ∷ []))
    ∷ (
      "entity.PatchValidated",
      record blank_spec {
        required_args = "target" ∷ "from" ∷ [];
        custom_constraints = some check_patch;
      },
    )
    ∷ ("field.CopyNonEmpty", needs ("from" ∷ "to" ∷ []))
    ∷ ("enum.Validate", needs ("value" ∷ "allowed" ∷ "throw" ∷ []))
    ∷ []

known_prefixes : List String
known_prefixes =
    "repo." ∷ "mapping." ∷ "logic." ∷ "event." ∷ "fsm." ∷ "flow." ∷ "tx." ∷ "list."
    ∷ "notification." ∷ "audit." ∷ "auth." ∷ "entity." ∷ "field." ∷ "str." ∷ "enum." ∷ "time."
    ∷ "map." ∷ []

has_some_prefix : String → List String → Bool
has_some_prefix action [] = false
has_some_prefix action (p ∷ prefixes) = has_prefix action p || has_some_prefix action prefixes

unfoldable pub is_known_prefix : String → Bool
unfolding known_prefixes has_some_prefix
is_known_prefix action = action == "" || has_some_prefix action known_prefixes
