-- ===== src/Policy.antt =====
-- compiler/policy/endpoint.go and compiler/policy/validate.go: the policy of an endpoint.
pub mod Retry
pub mod Headers
mod Examples
use ang.Common.{
  ℕ, String, Bool, true, false, not, ◌&&◌, ◌||◌, Option, none, some, List, [], ◌∷◌, ◌++◌, ◌==◌,
  if◌then◌else◌,
}
use ang.Common.Int.{ℤ, pos, negsuc, ltb_ℤ, leb_ℤ}
use ang.Normalizer.{Endpoint, RateLimitDef, CircuitBreakerDef, RetryPolicyDef}
use ang.Text.{trim_space, to_upper, concat, quote}

-- The RetryPolicy of the policy layer has the fields of normalizer.RetryPolicyDef.
abbrev pub RetryPolicy : Type 0
RetryPolicy = RetryPolicyDef

-- with the one field of ValidationPolicy, its required headers
pub record EndpointPolicy : Type 0 where
  pub auth_type : String
  pub permission : String
  pub auth_roles : List String
  pub cache_ttl : String
  pub timeout : String
  pub idempotency : Bool
  pub max_body_size : ℤ
  pub rate_limit : Option RateLimitDef
  pub circuit_breaker : Option CircuitBreakerDef
  pub retry : RetryPolicy
  pub required_headers : List String

unfoldable pub required_headers : Endpoint → List String
required_headers ep =
    let method = to_upper ep.method in
    (if not (ep.auth_type == "") && not (ep.auth_type == "none") then "Authorization" ∷ [] else [])
    ++ (if ep.idempotency && not (method == "GET") && not (method == "WS")
        then "Idempotency-Key" ∷ []
        else [])

at_least_one_attempt : RetryPolicy → RetryPolicy
at_least_one_attempt rp =
    if rp.enabled && leb_ℤ rp.max_attempts (pos 0) then record rp { max_attempts = pos 1 } else rp

no_negative_delay : RetryPolicy → RetryPolicy
no_negative_delay rp =
    if rp.enabled && ltb_ℤ rp.base_delay_ms (pos 0) then record rp { base_delay_ms = pos 0 } else rp

abbrev no_retry : RetryPolicy
no_retry = record {
  enabled = false;
  max_attempts = pos 0;
  base_delay_ms = pos 0;
  retry_on_statuses = [];
  retry_network_errors = false;
}

-- the policy of an endpoint that declares none
default_retry : Bool → Bool → RetryPolicy
default_retry idempotency is_safe_method =
    if not (idempotency || is_safe_method) then no_retry else record {
      enabled = true;
      max_attempts = if is_safe_method && not idempotency then pos 2 else pos 3;
      base_delay_ms = pos 200;
      retry_on_statuses = pos 429 ∷ pos 502 ∷ pos 503 ∷ pos 504 ∷ [];
      retry_network_errors = true;
    }

declared_or_default : Option RetryPolicy → Bool → String → RetryPolicy
unfolding at_least_one_attempt no_negative_delay default_retry
declared_or_default (some rp) idempotency method = no_negative_delay (at_least_one_attempt rp)
declared_or_default none idempotency method =
    default_retry idempotency (method == "GET" || method == "HEAD")

unfoldable pub retry_policy : Endpoint → RetryPolicy
unfolding declared_or_default
retry_policy ep = declared_or_default ep.retry_policy ep.idempotency (to_upper ep.method)

-- `FromEndpoint`
unfoldable pub from_endpoint : Endpoint → EndpointPolicy
from_endpoint ep = record {
  auth_type = ep.auth_type;
  permission = ep.permission;
  auth_roles = ep.auth_roles;
  cache_ttl = ep.cache_ttl;
  timeout = ep.timeout;
  idempotency = ep.idempotency;
  max_body_size = ep.max_body_size;
  rate_limit = ep.rate_limit;
  circuit_breaker = ep.circuit_breaker;
  retry = retry_policy ep;
  required_headers = required_headers ep;
}

-- Go's `time.ParseDuration` reads fractions in floating point, so it is a parameter: the text of
-- its error, or none. `show_int` is `%d`.
module _ (parse_duration_error : String → Option String) (show_int : ℤ → String) where
  invalid_duration : String → String → Option String
  invalid_duration what value = if value == "" then none else elim (parse_duration_error value) [
    | none ↦ none
    | some err ↦ some (concat ("invalid " ∷ what ∷ " " ∷ quote value ∷ ": " ∷ err ∷ []))
  ]

  rate_limit_error : Option RateLimitDef → Option String
  rate_limit_error none = none
  rate_limit_error (some rl) =
      if ltb_ℤ rl.rps (pos 0) || ltb_ℤ rl.burst (pos 0)
      then some "rate_limit values cannot be negative"
      else none

  status_error : List ℤ → Option String
  status_error [] = none
  status_error (code ∷ codes) =
      if ltb_ℤ code (pos 100) || ltb_ℤ (pos 599) code
      then some
          (concat ("retry.retry_on_statuses contains invalid HTTP code " ∷ show_int code ∷ []))
      else status_error codes

  retry_error : Option RetryPolicy → Option String
  unfolding status_error
  retry_error none = none
  retry_error (some rp) =
      if ltb_ℤ rp.max_attempts (pos 0)
      then some "retry.max_attempts cannot be negative"
      else if ltb_ℤ rp.base_delay_ms (pos 0)
      then some "retry.base_delay_ms cannot be negative"
      else status_error rp.retry_on_statuses

  -- the first error of the two
  abbrev or_else : Option String → Option String → Option String
  or_else (some err) later = some err
  or_else none later = later

  idempotency_error : Endpoint → Option String
  idempotency_error ep =
      let method = to_upper (trim_space ep.method) in
      if ep.idempotency && (method == "GET" || method == "WS")
      then some (concat ("idempotency is not allowed for " ∷ method ∷ " endpoints" ∷ []))
      else none

  -- `ValidateEndpoint`; none is Go's nil
  pub validate_endpoint : Endpoint → Option String
  unfolding invalid_duration rate_limit_error retry_error idempotency_error
  validate_endpoint ep = or_else (idempotency_error ep) (
      or_else (invalid_duration "timeout" ep.timeout) (
        or_else (invalid_duration "cache.ttl" ep.cache_ttl) (
          or_else
            (if ltb_ℤ ep.max_body_size (pos 0)
              then some "max_body_size cannot be negative"
              else none)
            (or_else (rate_limit_error ep.rate_limit) (retry_error ep.retry_policy)))))
