-- ===== src/Policy/Retry.antt =====
-- What validation accepts, and what the retry policy of an endpoint can be.
use ang.Common.{
  String, Bool, true, false, ◌||◌, Option, none, some, List, [], ◌∷◌, ◌≡◌, refl, ◌↔◌, arith, All,
  ◌==◌, subst, sym,
}
use ang.Common.Int.{ℤ, pos, ltb_ℤ, leb_ℤ}
use ang.Text.{to_upper, trim_space}
use ang.Normalizer.{Endpoint, RateLimitDef}
use ang.Policy.{
  RetryPolicy, declared_or_default, retry_policy, from_endpoint, validate_endpoint, status_error,
  retry_error, rate_limit_error, invalid_duration, idempotency_error,
}

abbrev pub NotNegative : ℤ → Type 0
NotNegative n = ltb_ℤ n (pos 0) ≡ false

-- a status code of HTTP
abbrev pub IsStatus : ℤ → Type 0
IsStatus code = (leb_ℤ (pos 100) code ≡ true) × (leb_ℤ code (pos 599) ≡ true)

abbrev pub IsLimit : Option RateLimitDef → Type 0
IsLimit none = Unit
IsLimit (some rl) = NotNegative rl.rps × NotNegative rl.burst

abbrev pub IsRetry : Option RetryPolicy → Type 0
IsRetry none = Unit
IsRetry (some rp) =
    NotNegative rp.max_attempts × NotNegative rp.base_delay_ms × All IsStatus rp.retry_on_statuses

-- an unset duration, or one that parses
abbrev pub IsDuration : (String → Option String) → String → Type 0
IsDuration parse value = (value == "") ≡ false → parse value ≡ none

module _ (parse : String → Option String) (show_int : ℤ → String) where
  -- The endpoint has no conflict in its policy.
  pub record IsValid (ep : Endpoint) : Type 0 where
    pub idempotent :
        ep.idempotency ≡ true
        → (to_upper (trim_space ep.method) == "GET" || to_upper (trim_space ep.method) == "WS")
          ≡ false
    pub timeout : IsDuration parse ep.timeout
    pub cache_ttl : IsDuration parse ep.cache_ttl
    pub body_size : NotNegative ep.max_body_size
    pub limit : IsLimit ep.rate_limit
    pub retry : IsRetry ep.retry_policy

  status_error-none_iff :
      (codes : List ℤ) → (status_error parse show_int codes ≡ none) ↔ All IsStatus codes
  unfolding status_error
  status_error-none_iff [] = (λ _. tt, λ _. refl)
  status_error-none_iff (code ∷ codes) = ground (arith, status_error-none_iff codes)

  retry_error-none_iff :
      (o : Option RetryPolicy) → (retry_error parse show_int o ≡ none) ↔ IsRetry o
  unfolding retry_error
  retry_error-none_iff none = (λ _. tt, λ _. refl)
  retry_error-none_iff (some rp) = ground (arith, status_error-none_iff rp.retry_on_statuses)

  rate_limit_error-none_iff :
      (o : Option RateLimitDef) → (rate_limit_error parse show_int o ≡ none) ↔ IsLimit o
  unfolding rate_limit_error
  rate_limit_error-none_iff none = (λ _. tt, λ _. refl)
  rate_limit_error-none_iff (some rl) = ground arith

  invalid_duration-none_iff :
      (what value : String)
      → (invalid_duration parse show_int what value ≡ none) ↔ IsDuration parse value
  unfolding invalid_duration
  invalid_duration-none_iff what value = ground arith

  idempotency_error-none_iff :
      (ep : Endpoint)
      → (idempotency_error parse show_int ep ≡ none) ↔ (
          ep.idempotency ≡ true
          → (to_upper (trim_space ep.method) == "GET" || to_upper (trim_space ep.method) == "WS")
            ≡ false)
  unfolding idempotency_error
  idempotency_error-none_iff ep = ground arith

  -- An endpoint is accepted exactly if it has no conflict: idempotency only beside a method other
  -- than GET and WS, durations that are unset or parse, no negative size, rate, number of attempts
  -- or delay, and only status codes from 100 to 599.
  pub validate_endpoint-none_iff :
      (ep : Endpoint) → (validate_endpoint parse show_int ep ≡ none) ↔ IsValid ep
  unfolding validate_endpoint
  validate_endpoint-none_iff ep = ground (
    arith,
    idempotency_error-none_iff ep,
    invalid_duration-none_iff "timeout" ep.timeout,
    invalid_duration-none_iff "cache.ttl" ep.cache_ttl,
    rate_limit_error-none_iff ep.rate_limit,
    retry_error-none_iff ep.retry_policy,
  )

-- what a client may do with a retry policy
pub record IsUsable (rp : RetryPolicy) : Type 0 where
  pub attempts : rp.enabled ≡ true → leb_ℤ (pos 1) rp.max_attempts ≡ true
  pub delay : rp.enabled ≡ true → NotNegative rp.base_delay_ms

-- Whatever the endpoint declares, an enabled retry policy makes at least one attempt and waits no
-- negative time; with none declared, it is enabled exactly if the endpoint is idempotent or its
-- method is GET or HEAD.
pub from_endpoint-IsUsable :
    (ep : Endpoint)
    → IsUsable (from_endpoint ep).retry
      × (ep.retry_policy ≡ none
          → (from_endpoint ep).retry.enabled
            ≡ (ep.idempotency || to_upper ep.method == "GET" || to_upper ep.method == "HEAD"))
unfolding from_endpoint retry_policy
from_endpoint-IsUsable ep = ground arith

declared_keeps_statuses :
    (rp : RetryPolicy) (idempotency : Bool) (method : String)
    → (declared_or_default (some rp) idempotency method).retry_on_statuses ≡ rp.retry_on_statuses
unfolding declared_or_default
declared_keeps_statuses rp idempotency method = ground arith

declared_statuses :
    (o : Option RetryPolicy) (idempotency : Bool) (method : String)
    → IsRetry o
    → All IsStatus (declared_or_default o idempotency method).retry_on_statuses
unfolding declared_or_default
declared_statuses none idempotency method h = ground arith
declared_statuses (some rp) idempotency method h =
    subst (λ codes. All IsStatus codes) (sym (declared_keeps_statuses rp idempotency method)) h.2

-- A client of an accepted endpoint retries only on status codes of HTTP, those from 100 to 599.
accepted_statuses :
    (parse : String → Option String) (show_int : ℤ → String) (ep : Endpoint)
    → validate_endpoint parse show_int ep ≡ none
    → All IsStatus (from_endpoint ep).retry.retry_on_statuses
unfolding from_endpoint retry_policy
accepted_statuses parse show_int ep ok =
    declared_statuses ep.retry_policy ep.idempotency (to_upper ep.method)
      ((validate_endpoint-none_iff parse show_int ep).0 ok).retry
