-- ===== src/Semantics/Ui.antt =====
-- The user interface settings of a field: validateFieldUISemantics and its helpers.
use ang.Common.{
  String, Bool, true, false, not, ◌&&◌, ◌||◌, List, [], ◌∷◌, ◌++◌, ◌==◌, if◌then◌else◌, contains,
  is_empty,
}
use ang.Common.Int.{ℤ, pos, ltb_ℤ}
use ang.Text.{trim_space, to_lower, equal_fold, split, quote}
use ang.Ir.{Field}
use ang.Semantics.Rules.{report}

-- a setting as the code compares it
unfoldable pub setting_text : String → String
setting_text v = trim_space (to_lower v)

abbrev pub ui_types : List String
ui_types =
    "text" ∷ "textarea" ∷ "number" ∷ "currency" ∷ "email" ∷ "password" ∷ "phone" ∷ "url" ∷ "date"
    ∷ "datetime" ∷ "time" ∷ "select" ∷ "autocomplete" ∷ "checkbox" ∷ "switch" ∷ "file" ∷ "image"
    ∷ "custom" ∷ []

abbrev pub ui_importances : List String
ui_importances = "high" ∷ "normal" ∷ "low" ∷ []

abbrev pub ui_input_kinds : List String
ui_input_kinds = "sensitive" ∷ "email" ∷ "phone" ∷ "money" ∷ "search" ∷ "none" ∷ []

abbrev pub ui_intents : List String
ui_intents = "danger" ∷ "warning" ∷ "success" ∷ "info" ∷ "neutral" ∷ []

abbrev pub ui_densities : List String
ui_densities = "compact" ∷ "normal" ∷ "spacious" ∷ []

abbrev pub ui_label_modes : List String
ui_label_modes = "static" ∷ "floating" ∷ "hidden" ∷ []

abbrev pub ui_surfaces : List String
ui_surfaces = "paper" ∷ "flat" ∷ "raised" ∷ []

-- `isSupportedUIType` and the others like it
unfoldable pub is_supported : List String → String → Bool
unfolding setting_text
is_supported values v = contains values (setting_text v)

unfoldable pub has_required : List String → Bool
has_required [] = false
has_required (part ∷ parts) = equal_fold (trim_space part) "required" || has_required parts

-- `fieldIsRequired`
unfoldable pub field_is_required : Field → Bool
unfolding has_required
field_is_required f =
    if not f.optional
    then true
    else if trim_space f.validate_tag == ""
    then false
    else has_required (split (trim_space f.validate_tag) b',')

-- `v != "" && !isSupported(v)`, with v as the text of a setting
unfoldable pub setting_error : List String → (code place what value : String) → List String
unfolding report setting_text is_supported
setting_error values code place what value =
    report (not (setting_text value == "") && not (is_supported values (setting_text value)))
      (code ∷ " " ∷ place ∷ what ∷ quote value ∷ [])

module _ (component_name import_path : String → Bool) (show_int : ℤ → String) where
  -- `validateFieldUISemantics`
  unfoldable pub ui_errors : (place : String) → Field → List String
  ui_errors place f =
      let ui_type = setting_text f.ui.type in
      let component = trim_space f.ui.component in
      let source = trim_space f.ui.source in
      setting_error ui_types "[E_UI_UNKNOWN_TYPE]" place " uses unknown ui.type " f.ui.type
      ++ (report (ui_type == "custom" && component == "") (
            "[E_UI_CUSTOM_COMPONENT_REQUIRED] " ∷ place
            ∷ " uses ui.type=custom but ui.component is empty" ∷ [])
          ++ (report (not (component == "") && not (component_name component)) (
                "[E_UI_INVALID_COMPONENT] "
                ∷ place
                ∷ " has invalid ui.component "
                ∷ quote component
                ∷ [])
              ++ (report (ui_type == "custom" && not (source == "") && not (import_path source)) (
                    "[E_UI_INVALID_SOURCE] "
                    ∷ place
                    ∷ " has invalid ui.source "
                    ∷ quote source
                    ∷ [])
                  ++ (report (ui_type == "select" && is_empty f.ui.options && source == "") (
                        "[E_UI_SELECT_SOURCE_OR_OPTIONS_REQUIRED] " ∷ place
                        ∷ " uses ui.type=select but neither ui.options nor ui.source is set" ∷ [])
                      ++ (report (f.ui.hidden && field_is_required f) (
                            "[E_UI_HIDDEN_REQUIRED_CONFLICT] " ∷ place ∷ " is hidden but required"
                            ∷ [])
                          ++ (report (ltb_ℤ f.ui.columns (pos 0)) (
                                "[E_UI_COLUMNS_INVALID] "
                                ∷ place
                                ∷ " has negative ui.columns="
                                ∷ show_int f.ui.columns
                                ∷ [])
                              ++ (setting_error ui_importances "[E_UI_IMPORTANCE_INVALID]" place
                                    " has unsupported ui.importance " f.ui.importance
                                  ++ (setting_error ui_input_kinds "[E_UI_INPUT_KIND_INVALID]" place
                                        " has unsupported ui.inputKind " f.ui.input_kind
                                      ++ (setting_error ui_intents "[E_UI_INTENT_INVALID]" place
                                            " has unsupported ui.intent " f.ui.intent
                                          ++ (setting_error ui_densities "[E_UI_DENSITY_INVALID]"
                                                place " has unsupported ui.density " f.ui.density
                                              ++ (setting_error ui_label_modes
                                                    "[E_UI_LABEL_MODE_INVALID]" place
                                                    " has unsupported ui.labelMode " f.ui.label_mode
                                                  ++ (setting_error ui_surfaces
                                                      "[E_UI_SURFACE_INVALID]" place
                                                      " has unsupported ui.surface "
                                                      f.ui.surface))))))))))))
