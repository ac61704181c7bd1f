-- ===== src/Notifications/Examples.antt =====
-- Validations of a small configuration, and the theorem at it.
use ang.Common.{ℕ, String, some, List, [], ◌∷◌, ◌≡◌, refl, lookup}
use ang.Text.{trim_space, to_lower, concat, quote}
use ang.Semantics.{each, report}
use ang.Ir.{Template, NotificationsConfig, zero_template}
use ang.Notifications.{
  index_templates, template_channel_compatible, named_channels, default_channels_of,
  channels_to_check, channel_errors_at, channel_errors, rule_errors_at, rule_errors, rules_errors,
  all_channel_errors, all_rule_errors, notification_errors,
}

abbrev catalog : List Template
catalog =
    record zero_template { id = " welcome "; channel = "Email" }
    ∷ record zero_template { id = ""; channel = "sms" }
    ∷ []

abbrev config : String → NotificationsConfig
config default = record {
  channels = some (record {
    default_channels = default ∷ " " ∷ [];
    channels = ("email", record { template = "welcome" }) ∷ ("sms", record { template = "" }) ∷ [];
  });
  policies = some (record { rules = record { channels = []; template = "welcome" } ∷ [] });
}

abbrev show : ℕ → String
show n = "0"

accepted : notification_errors show catalog (some (config "email")) ≡ []
unfolding notification_errors index_templates template_channel_compatible named_channels
    default_channels_of channels_to_check channel_errors_at channel_errors rule_errors_at
    rule_errors rules_errors all_channel_errors all_rule_errors each report trim_space to_lower
    concat quote lookup
accepted = refl

refused :
    notification_errors show catalog (some (config "sms"))
    ≡ "notifications policy rule[0] channel \"sms\" uses template \"welcome\" with incompatible channel \"Email\""
      ∷ []
unfolding notification_errors index_templates template_channel_compatible named_channels
    default_channels_of channels_to_check channel_errors_at channel_errors rule_errors_at
    rule_errors rules_errors all_channel_errors all_rule_errors each report trim_space to_lower
    concat quote lookup
refused = refl
