-- ===== src/Semantics/Interface.antt =====
-- The settings of a field in a user interface that validateFieldUISemantics accepts.
use ang.Common.{String, Bool, false, not, ◌&&◌, [], ◌≡◌, ◌↔◌, ◌==◌, is_empty}
use ang.Common.Int.{ℤ, pos, ltb_ℤ}
use ang.Text.{trim_space}
use ang.Ir.{Field}
use ang.Semantics.{
  setting_text, ui_types, ui_importances, ui_input_kinds, ui_intents, ui_densities, ui_label_modes,
  ui_surfaces, field_is_required, ui_errors,
}
use ang.Semantics.Checks.{report-nil_iff, append-nil_of, IsSetting, setting_error-nil_iff}

-- the type of the control, as the code compares it
abbrev control : Field → String
control f = setting_text f.ui.type

module _ (component_name import_path : String → Bool) (show_int : ℤ → String) where
  -- no component for a custom control
  abbrev no_component : Field → Bool
  no_component f = control f == "custom" && trim_space f.ui.component == ""

  -- a component with another name than the code asks
  abbrev bad_component : Field → Bool
  bad_component f =
      not (trim_space f.ui.component == "") && not (component_name (trim_space f.ui.component))

  -- a source of a custom control that is no path
  abbrev bad_source : Field → Bool
  bad_source f =
      control f == "custom"
      && not (trim_space f.ui.source == "")
      && not (import_path (trim_space f.ui.source))

  -- a selection with neither options nor a source
  abbrev no_choice : Field → Bool
  no_choice f = control f == "select" && is_empty f.ui.options && trim_space f.ui.source == ""

  -- a hidden field that is required
  abbrev hidden_required : Field → Bool
  hidden_required f = f.ui.hidden && field_is_required f

  -- Every setting is known or left out; a component is named as the code asks, and a custom control
  -- has one, with a source that is a path if there is one; a selection has options or a source; a
  -- hidden field is not required; there are no fewer than no columns.
  abbrev pub IsPresentable : Field → Type 0
  IsPresentable f =
      IsSetting ui_types f.ui.type
      × ((no_component f ≡ false)
          × ((bad_component f ≡ false)
              × ((bad_source f ≡ false)
                  × ((no_choice f ≡ false)
                      × ((hidden_required f ≡ false)
                          × ((ltb_ℤ f.ui.columns (pos 0) ≡ false)
                              × (IsSetting ui_importances f.ui.importance
                                  × (IsSetting ui_input_kinds f.ui.input_kind
                                      × (IsSetting ui_intents f.ui.intent
                                          × (IsSetting ui_densities f.ui.density
                                              × (IsSetting ui_label_modes f.ui.label_mode
                                                  × IsSetting ui_surfaces f.ui.surface)))))))))))

  pub ui_errors-nil_iff :
      (place : String) (f : Field)
      → (ui_errors component_name import_path show_int place f ≡ []) ↔ IsPresentable f
  unfolding ui_errors
  ui_errors-nil_iff place f = append-nil_of (setting_error-nil_iff ui_types _ place _ f.ui.type) (
      append-nil_of (report-nil_iff (no_component f) _) (
        append-nil_of (report-nil_iff (bad_component f) _) (
          append-nil_of (report-nil_iff (bad_source f) _) (
            append-nil_of (report-nil_iff (no_choice f) _) (
              append-nil_of (report-nil_iff (hidden_required f) _) (
                append-nil_of (report-nil_iff (ltb_ℤ f.ui.columns (pos 0)) _) (
                  append-nil_of (setting_error-nil_iff ui_importances _ place _ f.ui.importance) (
                    append-nil_of (setting_error-nil_iff ui_input_kinds _ place _ f.ui.input_kind) (
                      append-nil_of (setting_error-nil_iff ui_intents _ place _ f.ui.intent) (
                        append-nil_of (setting_error-nil_iff ui_densities _ place _ f.ui.density) (
                          append-nil_of
                            (setting_error-nil_iff ui_label_modes _ place _ f.ui.label_mode)
                            (setting_error-nil_iff ui_surfaces _ place _ f.ui.surface))))))))))))
