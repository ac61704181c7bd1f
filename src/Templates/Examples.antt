-- ===== src/Templates/Examples.antt =====
-- Catalogs of one template.
use ang.Common.{◌≡◌, inl, inr, refl, String, Bool, true, none, some, [], ◌∷◌, ◌==◌, if◌then◌else◌}
use ang.Ir.{Template, zero_template}
use ang.Templates.{
  Arg, Node, Nodes, ListPointer, Parsed, validate_template_catalog, templates_errors,
  template_errors,
}
use ang.Templates.Panics.{validate_template_catalog-Panics}

abbrev user_name : Node
user_name = Node.action_node (some (Arg.field ("User" ∷ "Name" ∷ []) ∷ []))

-- the trees of two texts, one of which has an if without an else
abbrev parse : String → String → Parsed
parse name s =
    if s == "{{if .User}}{{.User.Name}}{{end}}"
    then Parsed.roots (
        Nodes.node
          (Node.list_node (
            Nodes.node
              (Node.if_node (some (Arg.field ("User" ∷ []) ∷ []))
                (ListPointer.to (Nodes.node user_name Nodes.end)) ListPointer.nil)
              Nodes.end))
          Nodes.end)
    else if s == "{{.User.Name}}"
    then Parsed.roots (Nodes.node (Node.list_node (Nodes.node user_name Nodes.end)) Nodes.end)
    else Parsed.failed "unexpected EOF"

abbrev any_path : String → Bool
any_path s = true

abbrev greeting : Template
greeting = record zero_template {
  id = "greeting";
  text = "{{.User.Name}}";
  required_vars = "User" ∷ "order" ∷ [];
}

abbrev bare : Template
bare = record greeting { text = "{{if .User}}{{.User.Name}}{{end}}" }

reports_unused :
    validate_template_catalog parse any_path (greeting ∷ [])
    ≡ some (
        "template \"greeting\" requiredVars contains \"order\" but template content does not reference it"
        ∷ [])
unfolding validate_template_catalog templates_errors template_errors ang.Templates.both
    ang.Templates.engine_of ang.Templates.engine_errors ang.Templates.content_errors
    ang.Templates.is_supported_template_engine ang.Templates.template_engine_compatible_with_channel
    ang.Templates.use_errors ang.Templates.unused_errors ang.Templates.is_template_var_used
    ang.Templates.some_has_prefix ang.Templates.collect_template_var_paths ang.Templates.add_content
    ang.Templates.add_paths ang.Templates.nodes_paths ang.Templates.pipe_paths
    ang.Templates.args_paths ang.Semantics.report ang.TemplateVars.normalize_template_vars
    ang.TemplateVars.validate_template_var_lists ang.TemplateVars.check_required
    ang.TemplateVars.check_optional ang.Text.trim_space ang.Text.to_lower ang.Text.equal_fold
    ang.Text.has_prefix ang.Text.concat ang.Text.quote ang.Text.join ang.Text.Numbers.decimal
    ang.Common.contains
reports_unused = refl

-- the if without an else
bare_panics : validate_template_catalog parse any_path (bare ∷ []) ≡ none
unfolding ang.Templates.engine_of ang.Text.trim_space ang.Text.equal_fold ang.Text.to_lower
bare_panics =
    (validate_template_catalog-Panics parse any_path (bare ∷ [])).1
      (inl (refl, (refl, inl (inl (inl (inr tt))))))
