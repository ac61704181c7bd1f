-- ===== src/Templates/Accepted.antt =====
-- The catalogs of templates that validateTemplateCatalog accepts.
use mathlib.Core.Option.{some_inj}
use ang.Common.{
  ℕ, suc, ◌≡◌, ◌↔◌, refl, ap, String, Bool, true, false, not, ◌&&◌, ◌||◌, Option, none, some, List,
  [], ◌∷◌, ◌==◌, Bool-cases, inl, inr, contains, All, arith,
}
use ang.Text.{trim_space, equal_fold}
use ang.Ir.{Template}
use ang.Semantics.Checks.{report-nil_iff, append-nil_of}
use ang.TemplateVars.{normalize_template_vars}
use ang.TemplateVars.Declarations.{AreDeclared, validate_template_var_lists-nil_iff}
use ang.Templates.{
  Parsed, Collected, both, engine_of, channel_of, contents_of, is_supported_template_engine,
  template_engine_compatible_with_channel, is_template_var_used, has_content, content_errors,
  engine_errors, unused_errors, use_errors, collect_template_var_paths, declared_errors,
  template_errors, templates_errors, validate_template_catalog,
}

abbrev is_email : Template → Bool
is_email t = equal_fold (channel_of t) "email" || equal_fold (trim_space t.kind) "email"

-- One of the contents is not blank, and neither is the subject of an email.
abbrev pub HasContents : Template → Type 0
HasContents t =
    ((trim_space t.text == "" && trim_space t.html == "" && trim_space t.body == "") ≡ false)
    × ((equal_fold (channel_of t) "email" || equal_fold (trim_space t.kind) "email") ≡ true
        → (trim_space t.subject == "") ≡ false)

-- The contents parse, and each required variable is among their paths or begins one.
abbrev pub UsesAll : List String → Collected → Type 0
UsesAll required Collected.panicked = ⊥
UsesAll required (Collected.unparsed err) = ⊥
UsesAll required (Collected.collected paths) =
    All (λ v. is_template_var_used v paths ≡ true) required

both-nil_iff :
    {A B : Type 0} (a b : Option (List String))
    → ((a ≡ some []) ↔ A)
    → ((b ≡ some []) ↔ B)
    → (both a b ≡ some []) ↔ (A × B)
unfolding both
both-nil_iff none b f g = (λ e. cc e, λ h. cc (f.1 h.0))
both-nil_iff (some ps) none f g = (λ e. cc e, λ h. cc (g.1 h.1))
both-nil_iff (some ps) (some qs) f g =
    let all =
      append-nil_of ((λ e. f.0 (ap some e), λ h. some_inj.0 (f.1 h)))
        ((λ e. g.0 (ap some e), λ h. some_inj.0 (g.1 h))) in
    (λ e. all.0 (some_inj.0 e), λ h. ap some (all.1 h))

content_errors-nil_iff : (id : String) (t : Template) → (content_errors id t ≡ []) ↔ HasContents t
unfolding content_errors
content_errors-nil_iff id t =
    let blank = trim_space t.text == "" && trim_space t.html == "" && trim_space t.body == "" in
    elim (Bool-cases (is_email t)) [
      | inl e ↦
          let iff =
            append-nil_of (report-nil_iff (trim_space t.subject == "") _)
              (report-nil_iff (not (has_content t)) _) in
          rw e
            (λ q. let h = iff.0 q in (ground arith, λ o. h.0), λ h. iff.1 (h.1 refl, ground arith))
      | inr e ↦
          let iff = report-nil_iff (not (has_content t)) _ in
          rw e (λ q. let h = iff.0 q in (ground arith, λ o. cc o), λ h. iff.1 (ground arith))
    ]

engine_errors-nil_iff :
    (id : String) (t : Template)
    → (engine_errors id t ≡ []) ↔ (
        (not (is_supported_template_engine (engine_of t)) ≡ false)
        × (not (template_engine_compatible_with_channel (engine_of t) (channel_of t)) ≡ false))
unfolding engine_errors
engine_errors-nil_iff id t = append-nil_of (report-nil_iff _ _) (report-nil_iff _ _)

unused_errors-nil_iff :
    (id : String) (used required : List String)
    → (unused_errors id used required ≡ []) ↔ All (λ v. is_template_var_used v used ≡ true) required
unfolding unused_errors
unused_errors-nil_iff id used [] = (λ e. tt, λ h. refl)
unused_errors-nil_iff id used (v ∷ required) =
    let rest = unused_errors-nil_iff id used required in
    let here = report-nil_iff (not (is_template_var_used v used)) _ in
    let iff = append-nil_of here rest in
    (λ e. let h = iff.0 e in (ground arith, h.1), λ h. iff.1 (ground arith, h.1))

use_errors-nil_iff :
    {B : Type 0} (id : String) (required before : List String) (c : Collected)
    → ((before ≡ []) ↔ B)
    → (use_errors id required before c ≡ some []) ↔ (B × UsesAll required c)
unfolding use_errors
use_errors-nil_iff id required before Collected.panicked b = (λ e. cc e, λ h. absurd h.1)
use_errors-nil_iff id required [] (Collected.unparsed err) b =
    (λ e. cc (some_inj.0 e), λ h. absurd h.1)
use_errors-nil_iff id required (x ∷ before) (Collected.unparsed err) b =
    (λ e. cc (some_inj.0 e), λ h. absurd h.1)
use_errors-nil_iff id required before (Collected.collected paths) b =
    let iff = append-nil_of b (unused_errors-nil_iff id paths required) in
    (λ e. iff.0 (some_inj.0 e), λ h. ap some (iff.1 h))

reported_never : (err : String) → (some (err ∷ []) ≡ some []) ↔ ⊥
reported_never err = (λ q. cc (some_inj.0 q), λ h. absurd h)

module _ (parse : String → String → Parsed) (is_path : String → Bool) where
  -- The id is new, the engine is known and fits the channel, there are contents, and the variables
  -- are declared as they should be.
  abbrev pub IsDeclared : (seen : List String) → (id : String) → Template → Type 0
  IsDeclared seen id t =
      (((contains seen id ≡ false)
          × ((not (is_supported_template_engine (engine_of t)) ≡ false)
              × (not (template_engine_compatible_with_channel (engine_of t) (channel_of t))
                  ≡ false)))
        × HasContents t)
      × AreDeclared is_path id (normalize_template_vars t.required_vars)
          (normalize_template_vars t.optional_vars)

  -- A template has an id and is declared as it should be, and the contents of a Go template parse and
  -- use the required variables.
  abbrev pub IsAccepted : (seen : List String) → Template → Type 0
  IsAccepted seen t =
      ((trim_space t.id == "") ≡ false)
      × IsDeclared seen (trim_space t.id) t
      × (equal_fold (engine_of t) "go_template" ≡ true
          → UsesAll (normalize_template_vars t.required_vars)
              (collect_template_var_paths parse is_path 0 (contents_of t)))

  -- Each template is accepted after those before it.
  abbrev pub AreAccepted : (seen : List String) → List Template → Type 0
  AreAccepted seen [] = Unit
  AreAccepted seen (t ∷ templates) =
      IsAccepted seen t × AreAccepted (trim_space t.id ∷ seen) templates

  declared_errors-nil_iff :
      (seen : List String) (id : String) (t : Template)
      → (declared_errors parse is_path seen id t ≡ []) ↔ IsDeclared seen id t
  declared_errors-nil_iff seen id t =
      append-nil_of
        (append-nil_of
          (append-nil_of (report-nil_iff (contains seen id) _) (engine_errors-nil_iff id t))
          (content_errors-nil_iff id t))
        (validate_template_var_lists-nil_iff is_path id (normalize_template_vars t.required_vars)
          (normalize_template_vars t.optional_vars))

  template_errors-nil_iff :
      (seen : List String) (t : Template)
      → (template_errors parse is_path seen (trim_space t.id) t ≡ some []) ↔ (
          IsDeclared seen (trim_space t.id) t
          × (equal_fold (engine_of t) "go_template" ≡ true
              → UsesAll
                  (normalize_template_vars t.required_vars)
                  (collect_template_var_paths parse is_path 0 (contents_of t))))
  unfolding template_errors
  template_errors-nil_iff seen t =
      let declared = declared_errors-nil_iff seen (trim_space t.id) t in
      elim (Bool-cases (equal_fold (engine_of t) "go_template")) [
        | inl e ↦
            let iff =
              use_errors-nil_iff (trim_space t.id) (normalize_template_vars t.required_vars) _
                (collect_template_var_paths parse is_path 0 (contents_of t)) declared in
            rw e (λ q. let h = iff.0 q in (h.0, λ o. h.1), λ h. iff.1 (h.0, h.1 refl))
        | inr e ↦ rw e (λ q. (declared.0 (some_inj.0 q), λ o. cc o), λ h. ap some (declared.1 h.0))
      ]

  templates_errors-nil_iff :
      (i : ℕ) (seen : List String) (templates : List Template)
      → (templates_errors parse is_path i seen templates ≡ some []) ↔ AreAccepted seen templates
  unfolding templates_errors
  templates_errors-nil_iff i seen [] = (λ e. tt, λ h. refl)
  templates_errors-nil_iff i seen (t ∷ templates) = elim (Bool-cases (trim_space t.id == "")) [
    | inl e ↦
        let reported = both-nil_iff _ _ (reported_never _) (λ q. q, λ q. q) in
        rw e (λ q. absurd (reported.0 q).0, λ h. cc h.0.0)
    | inr e ↦
        let rest = templates_errors-nil_iff (suc i) (trim_space t.id ∷ seen) templates in
        let iff = both-nil_iff _ _ (template_errors-nil_iff seen t) rest in
        rw e (λ q. let h = iff.0 q in ((refl, h.0.0, h.0.1), h.1), λ h. iff.1 ((h.0.1, h.0.2), h.1))
  ]

  -- validateTemplateCatalog returns without an error exactly if each template is accepted after those
  -- before it.
  pub validate_template_catalog-nil_iff :
      (templates : List Template)
      → (validate_template_catalog parse is_path templates ≡ some []) ↔ AreAccepted [] templates
  unfolding validate_template_catalog
  validate_template_catalog-nil_iff templates = templates_errors-nil_iff 0 [] templates
