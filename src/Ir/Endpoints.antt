-- ===== src/Ir/Endpoints.antt =====
-- Endpoints and their policies.
use ang.Common.{String, Bool, false, Option, none, List, []}
use ang.Common.Int.{ℤ, pos}
use ang.Values.{Metadata}
use ang.Ir.Methods.{Pagination}

pub record TestHints : Type 0 where
  pub happy_path : String
  pub error_cases : List String

abbrev pub zero_test_hints : TestHints
zero_test_hints = record { happy_path = ""; error_cases = [] }

pub record EndpointAuth : Type 0 where
  pub type : String
  pub permission : String
  pub roles : List String
  pub check : String
  pub inject : List String

abbrev pub zero_endpoint_auth : EndpointAuth
zero_endpoint_auth = record { type = ""; permission = ""; roles = []; check = ""; inject = [] }

pub record RateLimit : Type 0 where
  pub rps : ℤ
  pub burst : ℤ

abbrev pub zero_rate_limit : RateLimit
zero_rate_limit = record { rps = pos 0; burst = pos 0 }

pub record CircuitBreaker : Type 0 where
  pub threshold : ℤ
  pub timeout : String
  pub half_open_max : ℤ

abbrev pub zero_circuit_breaker : CircuitBreaker
zero_circuit_breaker = record { threshold = pos 0; timeout = ""; half_open_max = pos 0 }

pub record RetryPolicy : Type 0 where
  pub enabled : Bool
  pub max_attempts : ℤ
  pub base_delay_ms : ℤ
  pub retry_on_statuses : List ℤ
  pub retry_network_errors : Bool

pub record Slo : Type 0 where
  pub latency : String
  pub success : String

abbrev pub zero_slo : Slo
zero_slo = record { latency = ""; success = "" }

pub record Endpoint : Type 0 where
  pub method : String
  pub path : String
  pub service : String
  pub rpc : String
  pub description : String
  pub messages : List String
  pub room_param : String
  pub auth : Option EndpointAuth
  pub cache : String
  pub cache_tags : List String
  pub invalidate : List String
  pub optimistic_update : String
  pub rate_limit : Option RateLimit
  pub circuit_breaker : Option CircuitBreaker
  pub retry : Option RetryPolicy
  pub timeout : String
  pub max_body_size : ℤ
  pub idempotent : Bool
  pub dedupe_key : String
  pub errors : List String
  pub pagination : Option Pagination
  pub view : String
  pub slo : Option Slo
  pub test_hints : Option TestHints
  pub metadata : Metadata
  pub source : String

abbrev pub zero_endpoint : Endpoint
zero_endpoint = record {
  method = "";
  path = "";
  service = "";
  rpc = "";
  description = "";
  messages = [];
  room_param = "";
  auth = none;
  cache = "";
  cache_tags = [];
  invalidate = [];
  optimistic_update = "";
  rate_limit = none;
  circuit_breaker = none;
  retry = none;
  timeout = "";
  max_body_size = pos 0;
  idempotent = false;
  dedupe_key = "";
  errors = [];
  pagination = none;
  view = "";
  slo = none;
  test_hints = none;
  metadata = none;
  source = "";
}
