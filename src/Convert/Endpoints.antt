-- ===== src/Convert/Endpoints.antt =====
-- The conversion of an endpoint.
use ang.Common.{Bool, not, ◌||◌, Option, none, some, ◌==◌, is_empty, if◌then◌else◌}
use ang.Normalizer
use ang.Ir

-- the condition under which an endpoint has a policy of access
abbrev pub has_auth : Normalizer.Endpoint → Bool
has_auth ep = not (ep.auth_type == "") || not (ep.permission == "") || not (is_empty ep.auth_roles)

abbrev pub has_slo : Normalizer.Endpoint → Bool
has_slo ep = not (ep.slo.latency == "") || not (ep.slo.success == "")

abbrev pub convert_auth : Normalizer.Endpoint → Option Ir.EndpointAuth
convert_auth ep =
    if has_auth ep
    then some record {
      type = ep.auth_type;
      permission = ep.permission;
      roles = ep.auth_roles;
      check = ep.auth_check;
      inject = ep.auth_inject;
    }
    else none

unfoldable pub convert_rate_limit : Option Normalizer.RateLimitDef → Option Ir.RateLimit
convert_rate_limit none = none
convert_rate_limit (some r) = some record { rps = r.rps; burst = r.burst }

unfoldable pub convert_circuit_breaker :
    Option Normalizer.CircuitBreakerDef → Option Ir.CircuitBreaker
convert_circuit_breaker none = none
convert_circuit_breaker (some c) =
    some record { threshold = c.threshold; timeout = c.timeout; half_open_max = c.half_open_max }

unfoldable pub convert_retry : Option Normalizer.RetryPolicyDef → Option Ir.RetryPolicy
convert_retry none = none
convert_retry (some r) = some record {
  enabled = r.enabled;
  max_attempts = r.max_attempts;
  base_delay_ms = r.base_delay_ms;
  retry_on_statuses = r.retry_on_statuses;
  retry_network_errors = r.retry_network_errors;
}

unfoldable pub convert_pagination : Option Normalizer.PaginationDef → Option Ir.Pagination
convert_pagination none = none
convert_pagination (some p) =
    some record { type = p.type; default_limit = p.default_limit; max_limit = p.max_limit }

abbrev pub convert_slo : Normalizer.Endpoint → Option Ir.Slo
convert_slo ep =
    if has_slo ep then some record { latency = ep.slo.latency; success = ep.slo.success } else none

unfoldable pub convert_test_hints : Option Normalizer.TestHints → Option Ir.TestHints
convert_test_hints none = none
convert_test_hints (some h) = some record { happy_path = h.happy_path; error_cases = h.error_cases }

-- `ConvertEndpoint`
unfoldable pub convert_endpoint : Normalizer.Endpoint → Ir.Endpoint
convert_endpoint ep = record {
  method = ep.method;
  path = ep.path;
  service = ep.service_name;
  rpc = ep.rpc;
  description = ep.description;
  messages = ep.messages;
  room_param = ep.room_param;
  auth = convert_auth ep;
  cache = ep.cache_ttl;
  cache_tags = ep.cache_tags;
  invalidate = ep.invalidate;
  optimistic_update = ep.optimistic_update;
  rate_limit = convert_rate_limit ep.rate_limit;
  circuit_breaker = convert_circuit_breaker ep.circuit_breaker;
  retry = convert_retry ep.retry_policy;
  timeout = ep.timeout;
  max_body_size = ep.max_body_size;
  idempotent = ep.idempotency;
  dedupe_key = ep.dedupe_key;
  errors = ep.errors;
  pagination = convert_pagination ep.pagination;
  view = ep.view;
  slo = convert_slo ep;
  test_hints = convert_test_hints ep.test_hints;
  metadata = ep.metadata;
  source = ep.source;
}
