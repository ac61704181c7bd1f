-- ===== src/Transformers/Services.antt =====
-- The transformers of services and of the schema, in compiler/transformers/advanced.go.
use ang.Common.{
  String, Bool, true, false, ◌||◌, Option, none, some, List, [], ◌∷◌, map, lookup, ◌==◌,
  if◌then◌else◌,
}
use ang.Text.{concat}
use ang.Values.{Json, JsonMembers, write}
use ang.Ir.{Schema, Attribute, Service, Method}
use ang.Transformers.Loops.{for_attributes}

-- TracingTransformer

-- ServiceName.MethodName
abbrev pub span_name : String → String → Json
span_name service method = Json.text (concat (service ∷ "." ∷ method ∷ []))

abbrev pub tracing_method : String → Method → Method
tracing_method service m = record m {
  metadata = write "span_name" (span_name service m.name) m.metadata;
}

abbrev pub tracing_service : Service → Service
tracing_service s = record s {
  metadata = write "tracing_enabled" (Json.boolean true) s.metadata;
  methods = map (tracing_method s.name) s.methods;
}

abbrev pub transform_tracing : Schema → Schema
transform_tracing s = record s { services = map tracing_service s.services }

-- CachingTransformer

-- `attr.Args[key]`, which is nil if it is missing
unfoldable pub arg_of : Option Json → Json
arg_of none = Json.null
arg_of (some v) = v

unfoldable pub or_five_minutes : Json → Json
or_five_minutes Json.null = Json.text "5m"
or_five_minutes v = v

abbrev pub cache_settings : Attribute → Json
cache_settings a = Json.object (
    JsonMembers.member "enabled" (Json.boolean true) (
      JsonMembers.member "ttl" (or_five_minutes (arg_of (lookup "ttl" a.args))) (
        JsonMembers.member "key" (arg_of (lookup "key" a.args))
          (JsonMembers.member "strategy" (Json.text "read-through") JsonMembers.end))))

abbrev pub caching_method : Method → Method
caching_method m = record m {
  metadata =
      for_attributes "cache" (λ a meta. write "cache" (cache_settings a) meta) m.attributes
        m.metadata;
}

unfoldable pub has_attribute : String → List Attribute → Bool
has_attribute name [] = false
has_attribute name (a ∷ rest) = a.name == name || has_attribute name rest

-- `hasCaching` behind the loop over the methods
unfoldable pub has_caching : List Method → Bool
has_caching [] = false
has_caching (m ∷ ms) = has_attribute "cache" m.attributes || has_caching ms

abbrev pub caching_service : Service → Service
caching_service s = record s {
  methods = map caching_method s.methods;
  metadata =
      if has_caching s.methods
      then write "needs_caching_decorator" (Json.boolean true) s.metadata
      else s.metadata;
}

abbrev pub transform_caching : Schema → Schema
transform_caching s = record s { services = map caching_service s.services }

-- ProfilingTransformer

abbrev pub transform_profiling : Schema → Schema
transform_profiling s = record s {
  metadata =
      write "pprof_endpoint" (Json.text "/debug/pprof")
        (write "profiling_enabled" (Json.boolean true) s.metadata);
}
