-- ===== src/Notifications/References.antt =====
-- The notifications that validateNotificationTemplateRefs accepts.
use ang.Common.{
  ℕ, suc, String, Bool, true, false, not, ◌||◌, Option, none, some, List, [], ◌∷◌, ◌==◌, ◌≡◌, ◌↔◌,
  ◌⊎◌, inl, inr, refl, lookup, is_empty, All, if◌then◌else◌,
}
use ang.Text.{trim_space}
use ang.Semantics.{report}
use ang.Semantics.Checks.{append-nil_of, each-nil_iff}
use ang.Ir.{
  Template, NotificationChannelSpec, NotificationChannels, NotificationPolicyRule,
  NotificationPolicies, NotificationsConfig,
}
use ang.Notifications.{
  index_templates, template_channel_compatible, channels_to_check, channel_errors_at,
  channel_errors, rule_errors_at, rule_errors, rules_errors, all_channel_errors, all_rule_errors,
  notification_errors,
}

-- The template is there, and fits all the channels.
abbrev pub Fits : Option Template → List String → Type 0
Fits none channels = ⊥
Fits (some t) channels = All (λ ch. template_channel_compatible t.channel ch ≡ true) channels

-- A reference that is blank, or names a template that fits the channels.
abbrev pub IsReference : List (String × Template) → (template : String) → List String → Type 0
IsReference by_id template channels =
    ((trim_space template == "") ≡ true) ⊎ Fits (lookup (trim_space template) by_id) channels

abbrev pub AreChannels : List (String × Template) → Option NotificationChannels → Type 0
AreChannels by_id none = Unit
AreChannels by_id (some c) =
    All (λ (e : String × NotificationChannelSpec). IsReference by_id e.1.template (e.0 ∷ []))
      c.channels

abbrev pub AreRules :
    List (String × Template) → Option NotificationChannels → Option NotificationPolicies → Type 0
AreRules by_id channels none = Unit
AreRules by_id channels (some p) =
    All
      (λ (r : NotificationPolicyRule). IsReference by_id r.template (channels_to_check channels r))
      p.rules

-- `errors` are those behind a test for a blank text
skip_blank :
    {P : Type 0} (blank : Bool) (errors : List String)
    → (errors ≡ []) ↔ P
    → ((if blank then [] else errors) ≡ []) ↔ ((blank ≡ true) ⊎ P)
skip_blank true errors h = (λ _. inl refl, λ _. refl)
skip_blank false errors h = (λ e. inr (h.0 e), λ s. elim s [ inl q ↦ cc q | inr p ↦ h.1 p ])

fits_iff :
    (compatible : Bool) (message : List String)
    → (report (not compatible) message ≡ []) ↔ (compatible ≡ true)
unfolding report
fits_iff true message = (λ _. refl, λ _. refl)
fits_iff false message = (λ e. cc e, λ e. cc e)

channel_errors_at-nil_iff :
    (name tpl : String) (o : Option Template)
    → (channel_errors_at name tpl o ≡ []) ↔ Fits o (name ∷ [])
unfolding channel_errors_at
channel_errors_at-nil_iff name tpl none = (λ e. cc e, λ h. absurd h)
channel_errors_at-nil_iff name tpl (some t) =
    let f = fits_iff (template_channel_compatible t.channel name) _ in
    (λ e. (f.0 e, tt), λ h. f.1 h.0)

channel_errors-nil_iff :
    (by_id : List (String × Template)) (e : String × NotificationChannelSpec)
    → (channel_errors by_id e ≡ []) ↔ IsReference by_id e.1.template (e.0 ∷ [])
unfolding channel_errors
channel_errors-nil_iff by_id (name, spec) = skip_blank (trim_space spec.template == "") _ (
    channel_errors_at-nil_iff name (trim_space spec.template)
      (lookup (trim_space spec.template) by_id))

all_channel_errors-nil_iff :
    (show_index : ℕ → String) (by_id : List (String × Template)) (o : Option NotificationChannels)
    → (all_channel_errors show_index by_id o ≡ []) ↔ AreChannels by_id o
unfolding all_channel_errors
all_channel_errors-nil_iff show_index by_id none = (λ _. tt, λ _. refl)
all_channel_errors-nil_iff show_index by_id (some c) =
    each-nil_iff _ _ (channel_errors-nil_iff by_id) c.channels

module _ (show_index : ℕ → String) where
  rule_errors_at-nil_iff :
      (i : ℕ) (tpl : String) (channels : List String) (o : Option Template)
      → (rule_errors_at show_index i tpl channels o ≡ []) ↔ Fits o channels
  unfolding rule_errors_at
  rule_errors_at-nil_iff i tpl channels none = (λ e. cc e, λ h. absurd h)
  rule_errors_at-nil_iff i tpl channels (some t) =
      each-nil_iff (λ ch. template_channel_compatible t.channel ch ≡ true) _
        (λ ch. fits_iff (template_channel_compatible t.channel ch) _) channels

  rules_errors-nil_iff :
      (by_id : List (String × Template)) (channels : Option NotificationChannels) (i : ℕ)
      (rules : List NotificationPolicyRule)
      → (rules_errors show_index by_id channels i rules ≡ [])
        ↔ All
            (λ (r : NotificationPolicyRule).
              IsReference by_id r.template (channels_to_check channels r))
            rules
  unfolding rules_errors rule_errors
  rules_errors-nil_iff by_id channels i [] = (λ _. tt, λ _. refl)
  rules_errors-nil_iff by_id channels i (r ∷ rules) =
      append-nil_of
        (skip_blank (trim_space r.template == "") _ (
          rule_errors_at-nil_iff i (trim_space r.template) (channels_to_check channels r)
            (lookup (trim_space r.template) by_id)))
        (rules_errors-nil_iff by_id channels (suc i) rules)

  all_rule_errors-nil_iff :
      (by_id : List (String × Template)) (channels : Option NotificationChannels)
      (o : Option NotificationPolicies)
      → (all_rule_errors show_index by_id channels o ≡ []) ↔ AreRules by_id channels o
  unfolding all_rule_errors
  all_rule_errors-nil_iff by_id channels none = (λ _. tt, λ _. refl)
  all_rule_errors-nil_iff by_id channels (some p) = rules_errors-nil_iff by_id channels 0 p.rules

  -- The references of the notifications are in order: there are none, or no template has an id, or
  -- each reference fits.
  abbrev pub AreInOrder : List Template → Option NotificationsConfig → Type 0
  AreInOrder templates none = Unit
  AreInOrder templates (some n) =
      let by_id = index_templates [] templates in
      ((is_empty templates || is_empty by_id) ≡ true)
      ⊎ (AreChannels by_id n.channels × AreRules by_id n.channels n.policies)

  -- No error is reported on the notifications exactly if there are none, or no template has an id,
  -- or every channel and every rule names no template or one of the catalog that fits: its channel
  -- is the one that uses it, up to letter case and space, or one of the two is not given. A rule that
  -- names no channel of its own uses the default ones.
  pub notification_errors-nil_iff :
      (templates : List Template) (o : Option NotificationsConfig)
      → (notification_errors show_index templates o ≡ []) ↔ AreInOrder templates o
  unfolding notification_errors
  notification_errors-nil_iff templates none = (λ _. tt, λ _. refl)
  notification_errors-nil_iff templates (some n) =
      let by_id = index_templates [] templates in
      skip_blank (is_empty templates || is_empty by_id) _ (
        append-nil_of (all_channel_errors-nil_iff show_index by_id n.channels)
          (all_rule_errors-nil_iff by_id n.channels n.policies))
