-- ===== src/TemplateVars/Examples.antt =====
-- Declarations of variables, and the theorem at them.
use ang.Common.{String, Bool, true, List, [], ◌∷◌, ◌≡◌, refl, contains}
use ang.Text.{concat, quote, trim_space}
use ang.TemplateVars.{
  normalize_template_vars, check_required, check_optional, validate_template_var_lists,
}

abbrev any_path : String → Bool
any_path s = true

abbrev required : List String
required = "user" ∷ "order.id" ∷ []

normalized : normalize_template_vars (" user" ∷ " " ∷ "order.id" ∷ []) ≡ required
unfolding normalize_template_vars trim_space
normalized = refl

accepted_vars : validate_template_var_lists any_path "mail" required ("note" ∷ []) ≡ []
unfolding validate_template_var_lists check_required check_optional contains
accepted_vars = refl

refused_vars :
    validate_template_var_lists any_path "mail" required ("user" ∷ [])
    ≡ "template \"mail\" declares var \"user\" in both requiredVars and optionalVars" ∷ []
unfolding validate_template_var_lists check_required check_optional contains concat quote
refused_vars = refl
