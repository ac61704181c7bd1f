-- ===== src/Notifications.antt =====
-- compiler/ir_semantic_validate.go: validateNotificationTemplateRefs, the references from the
-- notifications to the template catalog. The printing of an index is a parameter.
-- Its proofs are in the modules below.
pub mod References
mod Examples
use ang.Common.{
  ℕ, suc, String, Bool, true, false, not, ◌||◌, Option, none, some, List, [], ◌∷◌, ◌++◌, ◌==◌,
  if◌then◌else◌, is_empty, lookup,
}
use ang.Ir.{
  Template, NotificationChannelSpec, NotificationChannels, NotificationPolicyRule,
  NotificationPolicies, NotificationsConfig,
}
use ang.Text.{trim_space, to_lower, concat, quote}
use ang.Semantics.{each, report}

-- `templateSet` and `templateByID`, with the newest template first
unfoldable pub index_templates : List (String × Template) → List Template → List (String × Template)
index_templates by_id [] = by_id
index_templates by_id (t ∷ templates) =
    let id = trim_space t.id in
    index_templates (if id == "" then by_id else (id, t) ∷ by_id) templates

-- `templateChannelCompatible`
unfoldable pub template_channel_compatible : (template_channel usage_channel : String) → Bool
template_channel_compatible template_channel usage_channel =
    let t = trim_space (to_lower template_channel) in
    let u = trim_space (to_lower usage_channel) in if t == "" || u == "" then true else t == u

-- the channels of a list that are not blank, without the space around them
unfoldable pub named_channels : List String → List String
named_channels [] = []
named_channels (ch ∷ channels) =
    let rest = named_channels channels in
    let c = trim_space ch in if c == "" then rest else c ∷ rest

unfoldable pub default_channels_of : Option NotificationChannels → List String
default_channels_of none = []
default_channels_of (some channels) = named_channels channels.default_channels

-- `channelsToCheck`
unfoldable pub channels_to_check :
    Option NotificationChannels → NotificationPolicyRule → List String
unfolding named_channels default_channels_of
channels_to_check channels rule =
    let own = named_channels rule.channels in
    if is_empty own then default_channels_of channels else own

-- a channel whose template is `tpl`
unfoldable pub channel_errors_at : (name tpl : String) → Option Template → List String
unfolding report
channel_errors_at name tpl none =
    concat
      ("notifications channel " ∷ quote name ∷ " references unknown template " ∷ quote tpl ∷ [])
    ∷ []
channel_errors_at name tpl (some t) = report (not (template_channel_compatible t.channel name)) (
    "notifications channel "
    ∷ quote name
    ∷ " uses template "
    ∷ quote tpl
    ∷ " with incompatible channel "
    ∷ quote t.channel
    ∷ [])

unfoldable pub channel_errors :
    List (String × Template) → String × NotificationChannelSpec → List String
unfolding channel_errors_at
channel_errors by_id (name, spec) =
    let tpl = trim_space spec.template in
    if tpl == "" then [] else channel_errors_at name tpl (lookup tpl by_id)

module _ (show_index : ℕ → String) where
  -- a rule whose template is `tpl`
  unfoldable pub rule_errors_at : ℕ → (tpl : String) → List String → Option Template → List String
  unfolding each report
  rule_errors_at i tpl channels none =
      concat (
        "notifications policy rule["
        ∷ show_index i
        ∷ "] references unknown template "
        ∷ quote tpl
        ∷ [])
      ∷ []
  rule_errors_at i tpl channels (some t) =
      each
        (λ ch. report (not (template_channel_compatible t.channel ch)) (
          "notifications policy rule["
          ∷ show_index i
          ∷ "] channel "
          ∷ quote ch
          ∷ " uses template "
          ∷ quote tpl
          ∷ " with incompatible channel "
          ∷ quote t.channel
          ∷ []))
        channels

  unfoldable pub rule_errors :
      List (String × Template)
      → Option NotificationChannels
      → ℕ
      → NotificationPolicyRule
      → List String
  unfolding rule_errors_at channels_to_check
  rule_errors by_id channels i rule =
      let tpl = trim_space rule.template in
      if tpl == ""
      then []
      else rule_errors_at i tpl (channels_to_check channels rule) (lookup tpl by_id)

  -- the loop over the rules from index i on
  unfoldable pub rules_errors :
      List (String × Template)
      → Option NotificationChannels
      → ℕ
      → List NotificationPolicyRule
      → List String
  unfolding rule_errors
  rules_errors by_id channels i [] = []
  rules_errors by_id channels i (rule ∷ rules) =
      rule_errors by_id channels i rule ++ rules_errors by_id channels (suc i) rules

  unfoldable pub all_channel_errors :
      List (String × Template) → Option NotificationChannels → List String
  unfolding each channel_errors
  all_channel_errors by_id none = []
  all_channel_errors by_id (some channels) = each (channel_errors by_id) channels.channels

  unfoldable pub all_rule_errors :
      List (String × Template)
      → Option NotificationChannels
      → Option NotificationPolicies
      → List String
  unfolding rules_errors
  all_rule_errors by_id channels none = []
  all_rule_errors by_id channels (some policies) = rules_errors by_id channels 0 policies.rules

  -- `validateNotificationTemplateRefs` on the templates and the notifications of a schema
  unfoldable pub notification_errors : List Template → Option NotificationsConfig → List String
  unfolding index_templates all_channel_errors all_rule_errors
  notification_errors templates none = []
  notification_errors templates (some n) =
      let by_id = index_templates [] templates in
      if is_empty templates || is_empty by_id
      then []
      else all_channel_errors by_id n.channels ++ all_rule_errors by_id n.channels n.policies
