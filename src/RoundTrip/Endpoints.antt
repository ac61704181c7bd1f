-- ===== src/RoundTrip/Endpoints.antt =====
-- Endpoints there and back.
use ang.Common.{
  ◌≡◌, ◌⊎◌, ◌↔◌, inl, inr, refl, ap, sym, ◌∙◌, Bool, true, false, not, ◌||◌, Option, none, some,
  String, List, [], ◌∷◌, ◌==◌, is_empty, eq_iff, arith, Bool-cases,
}
use ang.Normalizer.{Endpoint, SloDef, zero_slo_def}
use ang.Normalizer
use ang.Ir
use ang.Ir.{zero_endpoint_auth}
use ang.Convert.{
  convert_endpoint, convert_auth, convert_slo, has_auth, has_slo, convert_rate_limit,
  convert_circuit_breaker, convert_retry, convert_pagination, convert_test_hints,
}
use ang.Restore.{
  restore_endpoint, restore_auth, restore_slo, restore_rate_limit, restore_circuit_breaker,
  restore_retry, restore_pagination, restore_test_hints,
}

rate_limit : (r : Option Normalizer.RateLimitDef) → restore_rate_limit (convert_rate_limit r) ≡ r
unfolding restore_rate_limit convert_rate_limit
rate_limit none = refl
rate_limit (some r) = refl

circuit_breaker :
    (c : Option Normalizer.CircuitBreakerDef)
    → restore_circuit_breaker (convert_circuit_breaker c) ≡ c
unfolding restore_circuit_breaker convert_circuit_breaker
circuit_breaker none = refl
circuit_breaker (some c) = refl

retry : (r : Option Normalizer.RetryPolicyDef) → restore_retry (convert_retry r) ≡ r
unfolding restore_retry convert_retry
retry none = refl
retry (some r) = refl

pub pagination :
    (p : Option Normalizer.PaginationDef) → restore_pagination (convert_pagination p) ≡ p
unfolding restore_pagination convert_pagination
pagination none = refl
pagination (some p) = refl

test_hints : (h : Option Normalizer.TestHints) → restore_test_hints (convert_test_hints h) ≡ h
unfolding restore_test_hints convert_test_hints
test_hints none = refl
test_hints (some h) = refl

-- a text that is not reported as filled is empty
unfilled : (s : String) → not (s == "") ≡ false → s ≡ ""
unfilled s h = (eq_iff s "").0 (ground arith)

empty_list : {A : Type 0} (xs : List A) → not (is_empty xs) ≡ false → xs ≡ []
empty_list [] h = refl
empty_list (x ∷ xs) h = cc h

none_of_two : (a b : Bool) → (a || b) ≡ false → (a ≡ false) × (b ≡ false)
none_of_two a b h = (ground arith, ground arith)

-- what the endpoint says of its access
abbrev auth_fields : Endpoint → Ir.EndpointAuth
auth_fields ep = record {
  type = ep.auth_type;
  permission = ep.permission;
  roles = ep.auth_roles;
  check = ep.auth_check;
  inject = ep.auth_inject;
}

-- The endpoint has a policy of access, or nothing that only a policy of access has.
abbrev pub KeepsAuth : Endpoint → Type 0
KeepsAuth ep = (has_auth ep ≡ true) ⊎ ((ep.auth_check ≡ "") × (ep.auth_inject ≡ []))

without_auth :
    (ep : Endpoint) → has_auth ep ≡ false → restore_auth (convert_auth ep) ≡ zero_endpoint_auth
unfolding restore_auth
without_auth ep h = rw h refl

no_auth_fields :
    (ep : Endpoint)
    → has_auth ep ≡ false
    → (ep.auth_type ≡ "") × ((ep.permission ≡ "") × (ep.auth_roles ≡ []))
no_auth_fields ep h =
    let outer = none_of_two _ _ h in
    let inner = none_of_two _ _ outer.0 in
    (unfilled _ inner.0, (unfilled _ inner.1, empty_list _ outer.1))

auth : (ep : Endpoint) → KeepsAuth ep → restore_auth (convert_auth ep) ≡ auth_fields ep
unfolding restore_auth
auth ep k = elim (Bool-cases (has_auth ep)) [
  | inl h ↦ rw h refl
  | inr h ↦
      let rest = no_auth_fields ep h in
      without_auth ep h
      ∙ elim k [ inl h' ↦ cc | inr lost ↦ simp (rest.0, rest.1.0, rest.1.1, lost.0, lost.1) ]
]

slo_zero : (s : SloDef) → s.latency ≡ "" → s.success ≡ "" → s ≡ zero_slo_def
slo_zero s l m = λ i. record { latency = l i; success = m i }

slo : (ep : Endpoint) → restore_slo (convert_slo ep) ≡ ep.slo
unfolding restore_slo
slo ep = elim (Bool-cases (has_slo ep)) [
  | inl h ↦ rw h refl
  | inr h ↦
      let rest = none_of_two _ _ h in
      let latency = unfilled _ rest.0 in
      let success = unfilled _ rest.1 in rw h (sym (slo_zero ep.slo latency success))
]

-- ConvertEndpoint followed by the way back gives the same endpoint exactly if the endpoint has an auth
-- type, a permission or a role, or has neither an auth check nor an injected field.
pub restore_endpoint-convert_endpoint :
    (ep : Endpoint) → (restore_endpoint (convert_endpoint ep) ≡ ep) ↔ KeepsAuth ep
unfolding restore_endpoint convert_endpoint
restore_endpoint-convert_endpoint ep = (
  λ e. elim (Bool-cases (has_auth ep)) [
    | inl h ↦ inl h
    | inr h ↦
        let zero = without_auth ep h in
        let check = ap (λ (r : Endpoint). r.auth_check) e in
        let inject = ap (λ (r : Endpoint). r.auth_inject) e in
        inr (
          sym check ∙ ap (λ (a : Ir.EndpointAuth). a.check) zero,
          sym inject ∙ ap (λ (a : Ir.EndpointAuth). a.inject) zero,
        )
  ],
  λ k.
      rw
        (
          auth ep k,
          slo ep,
          rate_limit ep.rate_limit,
          circuit_breaker ep.circuit_breaker,
          retry ep.retry_policy,
          pagination ep.pagination,
          test_hints ep.test_hints,
        )
        refl,
)
