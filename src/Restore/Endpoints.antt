-- ===== src/Restore/Endpoints.antt =====
-- The way back for an endpoint.
use ang.Common.{Option, none, some}
use ang.Normalizer
use ang.Normalizer.{zero_slo_def}
use ang.Ir
use ang.Ir.{zero_endpoint_auth}

-- the five fields that are read off Auth, which keep their zero values if it is nil
unfoldable pub restore_auth : Option Ir.EndpointAuth → Ir.EndpointAuth
restore_auth none = zero_endpoint_auth
restore_auth (some a) = a

unfoldable pub restore_rate_limit : Option Ir.RateLimit → Option Normalizer.RateLimitDef
restore_rate_limit none = none
restore_rate_limit (some r) = some record { rps = r.rps; burst = r.burst }

unfoldable pub restore_circuit_breaker :
    Option Ir.CircuitBreaker → Option Normalizer.CircuitBreakerDef
restore_circuit_breaker none = none
restore_circuit_breaker (some c) =
    some record { threshold = c.threshold; timeout = c.timeout; half_open_max = c.half_open_max }

unfoldable pub restore_retry : Option Ir.RetryPolicy → Option Normalizer.RetryPolicyDef
restore_retry none = none
restore_retry (some r) = some record {
  enabled = r.enabled;
  max_attempts = r.max_attempts;
  base_delay_ms = r.base_delay_ms;
  retry_on_statuses = r.retry_on_statuses;
  retry_network_errors = r.retry_network_errors;
}

unfoldable pub restore_pagination : Option Ir.Pagination → Option Normalizer.PaginationDef
restore_pagination none = none
restore_pagination (some p) =
    some record { type = p.type; default_limit = p.default_limit; max_limit = p.max_limit }

unfoldable pub restore_slo : Option Ir.Slo → Normalizer.SloDef
restore_slo none = zero_slo_def
restore_slo (some s) = record { latency = s.latency; success = s.success }

unfoldable pub restore_test_hints : Option Ir.TestHints → Option Normalizer.TestHints
restore_test_hints none = none
restore_test_hints (some h) = some record { happy_path = h.happy_path; error_cases = h.error_cases }

-- the body of the loop of `IREndpointsToNormalizer`
unfoldable pub restore_endpoint : Ir.Endpoint → Normalizer.Endpoint
restore_endpoint ep = record {
  method = ep.method;
  path = ep.path;
  service_name = ep.service;
  rpc = ep.rpc;
  description = ep.description;
  messages = ep.messages;
  room_param = ep.room_param;
  auth_type = (restore_auth ep.auth).type;
  permission = (restore_auth ep.auth).permission;
  auth_roles = (restore_auth ep.auth).roles;
  auth_check = (restore_auth ep.auth).check;
  auth_inject = (restore_auth ep.auth).inject;
  cache_ttl = ep.cache;
  cache_tags = ep.cache_tags;
  invalidate = ep.invalidate;
  optimistic_update = ep.optimistic_update;
  rate_limit = restore_rate_limit ep.rate_limit;
  circuit_breaker = restore_circuit_breaker ep.circuit_breaker;
  retry_policy = restore_retry ep.retry;
  timeout = ep.timeout;
  max_body_size = ep.max_body_size;
  idempotency = ep.idempotent;
  dedupe_key = ep.dedupe_key;
  errors = ep.errors;
  pagination = restore_pagination ep.pagination;
  view = ep.view;
  slo = restore_slo ep.slo;
  test_hints = restore_test_hints ep.test_hints;
  metadata = ep.metadata;
  source = ep.source;
}
