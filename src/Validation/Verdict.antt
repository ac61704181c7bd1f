-- ===== src/Validation/Verdict.antt =====
-- What ValidateIRSemantics accepts.
use ang.Common.{
  ◌≡◌, ◌≢◌, ◌↔◌, inl, inr, refl, ap, ℕ, String, Bool, Option, none, some, List, [], ◌∷◌, ◌++◌,
}
use ang.Common.Int.{ℤ}
use ang.Ir.{Schema}
use ang.Semantics.Checks.{append-nil_of}
use ang.Semantics.Resolution.{IsResolved, reference_errors-nil_iff}
use ang.Cycles.{validate_service_dependency_cycles}
use ang.Cycles.Graph.{IsCycle}
use ang.Cycles.Verdict.{validate_service_dependency_cycles-decides}
use ang.Templates.{Parsed, validate_template_catalog}
use ang.Templates.Accepted.{AreAccepted, validate_template_catalog-nil_iff}
use ang.Templates.Panics.{SomePanics, validate_template_catalog-Panics}
use ang.Notifications.References.{AreInOrder, notification_errors-nil_iff}
use ang.Validation.{Outcome, error_list, verdict, finish, validate_ir_semantics}

verdict_iff : (errs : List String) → (verdict errs ≡ Outcome.valid) ↔ (errs ≡ [])
unfolding verdict
verdict_iff [] = (λ e. refl, λ e. refl)
verdict_iff (err ∷ errs) = (λ e. cc e, λ e. cc e)

verdict-returns : (errs : List String) → verdict errs ≢ Outcome.panicked
unfolding verdict
verdict-returns [] = λ e. cc e
verdict-returns (err ∷ errs) = λ e. cc e

-- No service reaches itself through the services that it uses.
abbrev pub IsAcyclic : Schema → Type 0
IsAcyclic schema = (cycle : List String) → IsCycle schema.services cycle → ⊥

cycles_iff :
    (schema : Schema)
    → (error_list (validate_service_dependency_cycles schema.services) ≡ []) ↔ IsAcyclic schema
unfolding error_list
cycles_iff schema = elim (validate_service_dependency_cycles-decides schema.services) [
  | inl (returns, acyclic) ↦ rw returns (λ e. acyclic, λ n. refl)
  | inr (cycle, is, err) ↦ rw err (λ e. cc e, λ n. absurd (n cycle is))
]

-- the content of an option, or a default
content_or : List String → Option (List String) → List String
content_or d none = d
content_or d (some xs) = xs

some_injective : {xs ys : List String} → some xs ≡ some ys → xs ≡ ys
unfolding content_or
some_injective {xs} e = ap (content_or xs) e

finish_valid :
    {B C A : Type 0} (before : List String) (catalog : Option (List String)) (after : List String)
    → ((before ≡ []) ↔ B)
    → ((catalog ≡ some []) ↔ C)
    → ((after ≡ []) ↔ A)
    → (finish before catalog after ≡ Outcome.valid) ↔ ((B × C) × A)
unfolding finish
finish_valid before none after b c a = (λ e. cc e, λ h. cc (c.1 h.0.1))
finish_valid {C = C} before (some errs) after b c a =
    let v = verdict_iff (before ++ errs ++ after) in
    let reported : (errs ≡ []) ↔ C = (λ e. c.0 (ap some e), λ h. some_injective (c.1 h)) in
    let all = append-nil_of (append-nil_of b reported) a in (λ e. all.0 (v.0 e), λ h. v.1 (all.1 h))

finish_panics :
    (before : List String) (catalog : Option (List String)) (after : List String)
    → (finish before catalog after ≡ Outcome.panicked) ↔ (catalog ≡ none)
unfolding finish
finish_panics before none after = (λ e. refl, λ e. refl)
finish_panics before (some errs) after = (λ e. absurd (verdict-returns _ e), λ e. cc e)

module _ (component_name import_path is_path : String → Bool) (show_int : ℤ → String)
    (show_index : ℕ → String) (parse : String → String → Parsed) where
  pub validate_ir_semantics-decides :
      (schema : Schema)
      → let outcome =
          validate_ir_semantics component_name import_path is_path show_int show_index parse
            (some schema) in
        ((outcome ≡ Outcome.valid) ↔ (
          ((IsResolved component_name import_path show_int schema × IsAcyclic schema)
            × AreAccepted parse is_path [] schema.templates)
          × AreInOrder show_index schema.templates schema.notifications))
        × ((outcome ≡ Outcome.panicked) ↔ SomePanics parse is_path schema.templates)
  unfolding validate_ir_semantics
  validate_ir_semantics-decides schema =
      let panics = finish_panics _ (validate_template_catalog parse is_path schema.templates) _ in
      let catalog = validate_template_catalog-Panics parse is_path schema.templates in
      (
        finish_valid _ _ _
            (append-nil_of (reference_errors-nil_iff component_name import_path show_int schema)
              (cycles_iff schema))
            (validate_template_catalog-nil_iff parse is_path schema.templates)
            (notification_errors-nil_iff show_index schema.templates schema.notifications),
        (λ e. catalog.0 (panics.0 e), λ h. panics.1 (catalog.1 h)),
      )
