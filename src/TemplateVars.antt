-- ===== src/TemplateVars.antt =====
-- compiler/ir_semantic_validate.go: the variables that a template declares.
-- The regular expression for the path of a variable is a parameter.
-- Its proofs are in the modules below.
pub mod Declarations
mod Examples
use ang.Common.{
  String, Bool, true, false, not, ◌||◌, List, [], ◌∷◌, ◌++◌, ◌==◌, if◌then◌else◌, contains,
}
use ang.Text.{trim_space, to_lower, has_prefix, concat, quote}

-- `normalizeTemplateVars`
unfoldable pub normalize_template_vars : List String → List String
normalize_template_vars [] = []
normalize_template_vars (v ∷ vars) =
    let rest = normalize_template_vars vars in
    let s = trim_space v in if s == "" then rest else s ∷ rest

-- what a loop over variables appends, and the ones that it has seen
pub record Checked : Type 0 where
  pub errors : List String
  pub seen : List String

abbrev pub with_errors : List String → Checked → Checked
with_errors errors c = record c { errors = errors ++ c.errors }

module _ (is_path : String → Bool) (id : String) where
  -- the loop over the required variables
  unfoldable pub check_required : (seen : List String) → List String → Checked
  check_required seen [] = record { errors = []; seen = seen }
  check_required seen (v ∷ required) =
      let skipped = check_required seen required in
      let noted = check_required (v ∷ seen) required in
      if not (is_path v)
      then with_errors
          (concat ("template " ∷ quote id ∷ " has invalid requiredVars name " ∷ quote v ∷ []) ∷ [])
          skipped
      else with_errors
          (if contains seen v
            then concat ("template " ∷ quote id ∷ " has duplicate requiredVars " ∷ quote v ∷ [])
              ∷ []
            else [])
          noted

  -- the loop over the optional variables
  unfoldable pub check_optional : (required seen : List String) → List String → List String
  check_optional required seen [] = []
  check_optional required seen (v ∷ optional) =
      let skipped = check_optional required seen optional in
      let noted = check_optional required (v ∷ seen) optional in
      if not (is_path v)
      then concat ("template " ∷ quote id ∷ " has invalid optionalVars name " ∷ quote v ∷ [])
        ∷ skipped
      else (if contains seen v
          then concat ("template " ∷ quote id ∷ " has duplicate optionalVars " ∷ quote v ∷ []) ∷ []
          else [])
        ++ ((if contains required v
              then concat (
                  "template "
                  ∷ quote id
                  ∷ " declares var "
                  ∷ quote v
                  ∷ " in both requiredVars and optionalVars"
                  ∷ [])
                ∷ []
              else [])
            ++ noted)

  -- `validateTemplateVarLists`
  unfoldable pub validate_template_var_lists : (required optional : List String) → List String
  unfolding check_required check_optional
  validate_template_var_lists required optional =
      let c = check_required [] required in c.errors ++ check_optional c.seen [] optional
