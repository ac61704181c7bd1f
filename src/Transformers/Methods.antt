-- ===== src/Transformers/Methods.antt =====
-- The metadata that the transformers give services and methods, and a second run on them.
use ang.Common.{
  ◌≡◌, refl, ap, sym, ◌∙◌, String, Bool, true, false, some, List, [], ◌∷◌, map, if◌then◌else◌, All,
  All-map_of,
}
use mathlib.Core.List.{map-map}
use ang.Common.Writes.{put_all, put_all_idem}
use ang.Values.{Json, Metadata, entries, write}
use ang.Ir.{Method, Service}
use ang.Versioning.Invariants.{IsMadeMethod, IsMadeService}
use ang.Transformers.Services.{
  tracing_method, caching_method, caching_service, tracing_service, cache_settings, has_caching,
  span_name,
}
use ang.Transformers.Writes.{for_attributes-writes, writes_for}

abbrev pub trace_and_cache : String → Method → Method
trace_and_cache service m = caching_method (tracing_method service m)

method_writes : String → Method → List (String × Json)
method_writes service m =
    ("span_name", span_name service m.name) ∷ writes_for "cache" "cache" cache_settings m.attributes

method_metadata :
    (service : String) (m : Method)
    → (trace_and_cache service m).metadata
      ≡ some (put_all (method_writes service m) (entries m.metadata))
unfolding method_writes put_all
method_metadata service m = for_attributes-writes "cache" "cache" cache_settings m.attributes _

metadata_idem :
    (service : String) (m : Method)
    → (trace_and_cache service (trace_and_cache service m)).metadata
      ≡ (trace_and_cache service m).metadata
unfolding method_writes entries
metadata_idem service m =
    let once = method_metadata service m in
    let twice = method_metadata service (trace_and_cache service m) in
    let ws = method_writes service m in
    twice
    ∙ ap (λ x. some (put_all ws (entries x))) once
    ∙ ap some (put_all_idem ws (entries m.metadata))
    ∙ sym once

-- A second run changes nothing in a method.
trace_and_cache_idem :
    (service : String) (m : Method)
    → trace_and_cache service (trace_and_cache service m) ≡ trace_and_cache service m
trace_and_cache_idem service m =
    ap (λ (x : Metadata). record m { metadata = x }) (metadata_idem service m)

methods_idem :
    (service : String) (ms : List Method)
    → map (trace_and_cache service) (map (trace_and_cache service) ms)
      ≡ map (trace_and_cache service) ms
methods_idem service [] = refl
methods_idem service (m ∷ ms) = rw (trace_and_cache_idem service m, methods_idem service ms) refl

has_caching_same :
    (f : Method → Method)
    → ((m : Method) → (f m).attributes ≡ m.attributes)
    → (ms : List Method) → has_caching (map f ms) ≡ has_caching ms
unfolding has_caching
has_caching_same f h [] = refl
has_caching_same f h (m ∷ ms) = rw (h m, has_caching_same f h ms) refl

abbrev pub trace_and_cache_all : Service → Service
trace_and_cache_all s = caching_service (tracing_service s)

service_writes : Bool → List (String × Json)
service_writes caching =
    ("tracing_enabled", Json.boolean true)
    ∷ (if caching then ("needs_caching_decorator", Json.boolean true) ∷ [] else [])

written :
    (caching : Bool) (m : Metadata)
    → (if caching
        then write "needs_caching_decorator"
            (Json.boolean true)
            (write "tracing_enabled" (Json.boolean true) m)
        else write "tracing_enabled" (Json.boolean true) m)
      ≡ some (put_all (service_writes caching) (entries m))
unfolding service_writes put_all entries
written true m = refl
written false m = refl

service_metadata :
    (s : Service)
    → (trace_and_cache_all s).metadata
      ≡ some (put_all (service_writes (has_caching s.methods)) (entries s.metadata))
service_metadata s =
    rw (has_caching_same (tracing_method s.name) (λ m. refl) s.methods)
      (written (has_caching s.methods) s.metadata)

pub service_methods :
    (s : Service) → (trace_and_cache_all s).methods ≡ map (trace_and_cache s.name) s.methods
service_methods s = map-map caching_method (tracing_method s.name) s.methods

service_metadata_idem :
    (s : Service)
    → (trace_and_cache_all (trace_and_cache_all s)).metadata ≡ (trace_and_cache_all s).metadata
unfolding entries
service_metadata_idem s =
    let once = service_metadata s in
    let twice = service_metadata (trace_and_cache_all s) in
    let ws = service_writes (has_caching s.methods) in
    let same : has_caching (trace_and_cache_all s).methods ≡ has_caching s.methods =
      ap has_caching (service_methods s)
      ∙ has_caching_same (trace_and_cache s.name) (λ m. refl) s.methods in
    twice
    ∙ ap (λ b. some (put_all (service_writes b) (entries (trace_and_cache_all s).metadata))) same
    ∙ ap (λ x. some (put_all ws (entries x))) once
    ∙ ap some (put_all_idem ws (entries s.metadata))
    ∙ sym once

service_methods_idem :
    (s : Service)
    → (trace_and_cache_all (trace_and_cache_all s)).methods ≡ (trace_and_cache_all s).methods
service_methods_idem s =
    service_methods (trace_and_cache_all s)
    ∙ ap (map (trace_and_cache s.name)) (service_methods s)
    ∙ methods_idem s.name s.methods
    ∙ sym (service_methods s)

-- A second run changes nothing in a service.
pub trace_and_cache_all_idem :
    (s : Service) → trace_and_cache_all (trace_and_cache_all s) ≡ trace_and_cache_all s
trace_and_cache_all_idem s =
    λ i. record s { methods = service_methods_idem s i; metadata = service_metadata_idem s i }

-- Their metadata are there behind a run.
pub trace_and_cache_all-IsMade :
    (s : Service) → All IsMadeMethod s.methods → IsMadeService (trace_and_cache_all s)
trace_and_cache_all-IsMade s h = (
  rw (service_metadata s) tt,
  rw (service_methods s) (
      All-map_of IsMadeMethod IsMadeMethod (trace_and_cache s.name)
        (λ m k. (rw (method_metadata s.name m) tt, k.1)) s.methods h),
)
