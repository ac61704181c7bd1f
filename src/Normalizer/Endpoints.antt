-- ===== src/Normalizer/Endpoints.antt =====
-- Endpoints and their policies.
use ang.Common.{String, Bool, false, Option, none, List, []}
use ang.Common.Int.{ℤ, pos}
use ang.Values.{Metadata}
use ang.Normalizer.Methods.{PaginationDef}

pub record TestHints : Type 0 where
  pub happy_path : String
  pub error_cases : List String

abbrev pub zero_test_hints : TestHints
zero_test_hints = record { happy_path = ""; error_cases = [] }

pub record RateLimitDef : Type 0 where
  pub rps : ℤ
  pub burst : ℤ

abbrev pub zero_rate_limit_def : RateLimitDef
zero_rate_limit_def = record { rps = pos 0; burst = pos 0 }

pub record CircuitBreakerDef : Type 0 where
  pub threshold : ℤ
  pub timeout : String
  pub half_open_max : ℤ

abbrev pub zero_circuit_breaker_def : CircuitBreakerDef
zero_circuit_breaker_def = record { threshold = pos 0; timeout = ""; half_open_max = pos 0 }

pub record RetryPolicyDef : Type 0 where
  pub enabled : Bool
  pub max_attempts : ℤ
  pub base_delay_ms : ℤ
  pub retry_on_statuses : List ℤ
  pub retry_network_errors : Bool

pub record SloDef : Type 0 where
  pub latency : String
  pub success : String

abbrev pub zero_slo_def : SloDef
zero_slo_def = record { latency = ""; success = "" }

pub record Endpoint : Type 0 where
  pub method : String
  pub path : String
  pub service_name : String
  pub rpc : String
  pub description : String
  pub messages : List String
  pub room_param : String
  pub auth_type : String
  pub permission : String
  pub auth_roles : List String
  pub auth_check : String
  pub auth_inject : List String
  pub cache_ttl : String
  pub cache_tags : List String
  pub invalidate : List String
  pub optimistic_update : String
  pub rate_limit : Option RateLimitDef
  pub circuit_breaker : Option CircuitBreakerDef
  pub retry_policy : Option RetryPolicyDef
  pub timeout : String
  pub max_body_size : ℤ
  pub idempotency : Bool
  pub dedupe_key : String
  pub errors : List String
  pub pagination : Option PaginationDef
  pub view : String
  pub slo : SloDef
  pub test_hints : Option TestHints
  pub metadata : Metadata
  pub source : String

abbrev pub zero_endpoint : Endpoint
zero_endpoint = record {
  method = "";
  path = "";
  service_name = "";
  rpc = "";
  description = "";
  messages = [];
  room_param = "";
  auth_type = "";
  permission = "";
  auth_roles = [];
  auth_check = "";
  auth_inject = [];
  cache_ttl = "";
  cache_tags = [];
  invalidate = [];
  optimistic_update = "";
  rate_limit = none;
  circuit_breaker = none;
  retry_policy = none;
  timeout = "";
  max_body_size = pos 0;
  idempotency = false;
  dedupe_key = "";
  errors = [];
  pagination = none;
  view = "";
  slo = zero_slo_def;
  test_hints = none;
  metadata = none;
  source = "";
}
