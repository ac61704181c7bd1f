-- ===== src/Policy/Examples.antt =====
-- The theorems on endpoint policies at a concrete endpoint.
use ang.Common.{
  String, true, false, ◌||◌, Option, none, some, [], ◌∷◌, ◌≡◌, refl, ◌↔◌, ◌==◌, if◌then◌else◌,
}
use ang.Common.Int.{ℤ, pos}
use ang.Text.{to_upper, trim_space}
use ang.Normalizer.{Endpoint, zero_endpoint}
use ang.Policy.{from_endpoint, validate_endpoint}
use ang.Policy.Retry.{IsValid, IsUsable, validate_endpoint-none_iff, from_endpoint-IsUsable}

-- a stand-in for `time.ParseDuration` that takes seconds of one digit
parse : String → Option String
parse s = if s == "5s" then none else some "time: invalid duration"

show_int : ℤ → String
show_int n = "?"

abbrev pay : Endpoint
pay = record zero_endpoint {
  method = "post";
  auth_type = "jwt";
  permission = "";
  auth_roles = [];
  cache_ttl = "";
  timeout = "5s";
  idempotency = true;
  max_body_size = pos 1024;
  rate_limit = some (record { rps = pos 10; burst = pos 20 });
  circuit_breaker = none;
  retry_policy = some (record {
    enabled = true;
    max_attempts = pos 0;
    base_delay_ms = pos 50;
    retry_on_statuses = pos 503 ∷ [];
    retry_network_errors = false;
  });
}

pay_accepted : validate_endpoint parse show_int pay ≡ none
unfolding validate_endpoint parse to_upper trim_space
pay_accepted = refl

validate_endpoint-none_iff_example :
    (validate_endpoint parse show_int pay ≡ none) ↔ IsValid parse show_int pay
validate_endpoint-none_iff_example = validate_endpoint-none_iff parse show_int pay

from_endpoint-IsUsable_example :
    IsUsable (from_endpoint pay).retry
    × (pay.retry_policy ≡ none
        → (from_endpoint pay).retry.enabled
          ≡ (pay.idempotency || to_upper pay.method == "GET" || to_upper pay.method == "HEAD"))
from_endpoint-IsUsable_example = from_endpoint-IsUsable pay
