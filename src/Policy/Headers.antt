-- ===== src/Policy/Headers.antt =====
-- The headers that an endpoint requires.
use ang.Common.{String, true, not, ◌&&◌, ◌||◌, ◌≡◌, arith, contains, ◌==◌, none, Option}
use ang.Common.Int.{ℤ}
use ang.Text.{to_upper, trim_space}
use ang.Normalizer.{Endpoint}
use ang.Policy.{required_headers, from_endpoint, validate_endpoint}
use ang.Policy.Retry.{validate_endpoint-none_iff}

-- `Authorization` is required exactly if there is authentication, and `Idempotency-Key` exactly if
-- the endpoint is idempotent and its method is neither GET nor WS.
required_headers_iff :
    (ep : Endpoint)
    → (contains (from_endpoint ep).required_headers "Authorization"
        ≡ not (ep.auth_type == "" || ep.auth_type == "none"))
      × (contains (from_endpoint ep).required_headers "Idempotency-Key"
          ≡ (ep.idempotency && not (to_upper ep.method == "GET" || to_upper ep.method == "WS")))
unfolding from_endpoint required_headers contains
required_headers_iff ep = ground arith

-- An accepted endpoint that is idempotent, with no space around its method, requires the header
-- `Idempotency-Key`.
idempotent_needs_key :
    (parse : String → Option String) (show_int : ℤ → String) (ep : Endpoint)
    → validate_endpoint parse show_int ep ≡ none
    → trim_space ep.method ≡ ep.method
    → ep.idempotency ≡ true
    → contains (from_endpoint ep).required_headers "Idempotency-Key" ≡ true
idempotent_needs_key parse show_int ep ok bare idem = ground (
  arith,
  required_headers_iff ep,
  ((validate_endpoint-none_iff parse show_int ep).0 ok).idempotent idem,
  bare,
)
