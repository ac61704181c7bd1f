-- ===== src/Validation/Examples.antt =====
-- The whole validation at small schemas.
use ang.Common.{ℕ, ◌≡◌, inl, inr, refl, String, Bool, true, none, some, [], ◌∷◌}
use ang.Common.Int.{ℤ}
use ang.Ir.{Schema, zero_schema, zero_service, zero_template}
use ang.Templates.{Node, Nodes, ListPointer, Parsed, validate_template_catalog}
use ang.Validation.{Outcome, validate_ir_semantics}
use ang.Validation.Verdict.{validate_ir_semantics-decides}

abbrev any : String → Bool
any s = true

abbrev show_int : ℤ → String
show_int n = "n"

abbrev show_index : ℕ → String
show_index n = "n"

-- every text is an if without an else
abbrev parse : String → String → Parsed
parse name s =
    Parsed.roots
      (Nodes.node (Node.if_node none (ListPointer.to Nodes.end) ListPointer.nil) Nodes.end)

abbrev schema : Schema
schema = record zero_schema {
  services =
      record zero_service { name = "Orders"; uses = "Users" ∷ [] }
      ∷ record zero_service { name = "Users" }
      ∷ [];
  templates = record zero_template { id = "greeting"; text = "{{if .User}}Hello{{end}}" } ∷ [];
}

crashes :
    validate_ir_semantics any any any show_int show_index parse (some schema) ≡ Outcome.panicked
unfolding ang.Templates.engine_of ang.Text.trim_space ang.Text.equal_fold ang.Text.to_lower
crashes =
    (validate_ir_semantics-decides any any any show_int show_index parse schema).1.1
      (inl (refl, (refl, inl (inl (inr tt)))))
