-- ===== src/Transformers/JsonRuns.antt =====
-- The transformers on a schema whose metadata and attributes hold JSON values.
use mathlib.Core.List.{flat_map}
use ang.Common.{
  ◌≡◌, refl, sym, subst, String, Bool, true, false, none, some, List, [], ◌∷◌, map, inl, inr,
  lookup, ◌==◌, Option, if◌then◌else◌, All, All-append, All_trivial, All-map_of, Bool-cases,
}
use ang.Text.{concat}
use ang.Values.{Json, Metadata, write}
use ang.Ir.{Attribute, Schema, Entity, Field, Service, Method, Source}
use ang.Abi.Contract.{IsJson, IsJsonMap, HasJson}
use ang.Hooks.Writes.{AreJson, write-IsJsonMap}
use ang.Hooks.Schemas.{lookup-IsJson}
use ang.Transformers.Loops.{for_attributes, has_key}
use ang.Transformers.Entities.{
  image_fields, image_metadata, mark_image, thumbs, thumb_field, validation_field, rule_of,
}
use ang.Transformers.Services.{
  cache_settings, arg_of, or_five_minutes, tracing_method, has_caching, span_name,
}
use ang.Transformers.Fields.{enrich-All}
use ang.Transformers.Methods.{trace_and_cache, trace_and_cache_all, service_methods}
use ang.Transformers.EntityRuns.{suffix, run_entity, run_entity_fields}
use ang.Transformers.Reruns.{run}

abbrev pub HasJsonField : Field → Type 0
HasJsonField f = IsJsonMap f.metadata

for_attributes-IsJsonMap :
    {P : Attribute → Type 0} (name : String) (body : Attribute → Metadata → Metadata)
    → ((a : Attribute) (m : Metadata) → P a → IsJsonMap m → IsJsonMap (body a m))
    → (attributes : List Attribute) (m : Metadata) → All P attributes
    → IsJsonMap m
    → IsJsonMap (for_attributes name body attributes m)
unfolding for_attributes
for_attributes-IsJsonMap name body h [] m p j = j
for_attributes-IsJsonMap name body h (a ∷ rest) m p j = elim (Bool-cases (a.name == name)) [
  | inl e ↦ rw e (for_attributes-IsJsonMap name body h rest (body a m) p.1 (h a m p.0 j))
  | inr n ↦ rw n (for_attributes-IsJsonMap name body h rest m p.1 j)
]

image_metadata-IsJsonMap :
    (thumb : String) (attributes : List Attribute) (m : Metadata)
    → IsJsonMap m
    → IsJsonMap (image_metadata thumb attributes m)
unfolding image_metadata
image_metadata-IsJsonMap thumb attributes none j = tt
image_metadata-IsJsonMap thumb attributes (some m) j =
    for_attributes-IsJsonMap {P = λ a. Unit} "image" (mark_image thumb)
      (λ a x t k. write-IsJsonMap _ _ _ tt (write-IsJsonMap _ _ x tt k)) attributes (some m)
      (All_trivial attributes) j

thumbs-HasJsonField :
    (f : Field) (attributes : List Attribute)
    → All HasJsonField (thumbs (thumb_field suffix f) attributes)
unfolding thumbs
thumbs-HasJsonField f [] = tt
thumbs-HasJsonField f (a ∷ rest) = elim (Bool-cases (a.name == "image")) [
  | inl e ↦ rw e ((tt, (tt, tt)), thumbs-HasJsonField f rest)
  | inr n ↦ rw n (thumbs-HasJsonField f rest)
]

image_fields-HasJsonField :
    (fs : List Field) → All HasJsonField fs → All HasJsonField (flat_map (image_fields suffix) fs)
unfolding flat_map
image_fields-HasJsonField [] j = tt
image_fields-HasJsonField (f ∷ fs) j =
    All-append HasJsonField (image_fields suffix f) (flat_map (image_fields suffix) fs)
      (
        image_metadata-IsJsonMap (concat (f.name ∷ suffix ∷ [])) f.attributes f.metadata j.0,
        thumbs-HasJsonField f f.attributes,
      )
      (image_fields-HasJsonField fs j.1)

validation_field-HasJsonField : (f : Field) → HasJsonField f → HasJsonField (validation_field f)
validation_field-HasJsonField f j =
    for_attributes-IsJsonMap {P = λ a. Unit} "validate"
      (λ a m. write "validate_tag" (Json.text (rule_of f.optional a)) m)
      (λ a x t k. write-IsJsonMap _ _ x tt k) f.attributes f.metadata (All_trivial f.attributes) j

abbrev pub HasJsonEntity : Entity → Type 0
HasJsonEntity e = IsJsonMap e.metadata × All HasJsonField e.fields

run_entity-HasJsonEntity : (e : Entity) → HasJsonEntity e → HasJsonEntity (run_entity e)
run_entity-HasJsonEntity e j =
    let fs = flat_map (image_fields suffix) e.fields in
    subst HasJsonEntity (sym (run_entity_fields e)) (
      j.0,
      enrich-All HasJsonField (has_key "timestamps" e.metadata) (has_key "soft_delete" e.metadata)
          (map validation_field fs) ((tt, (tt, tt)), ((tt, (tt, tt)), (tt, tt)))
          (All-map_of HasJsonField HasJsonField validation_field validation_field-HasJsonField fs
            (image_fields-HasJsonField e.fields j.1)),
    )

-- The arguments of an attribute are JSON values.
abbrev pub HasJsonArgs : Attribute → Type 0
HasJsonArgs a = AreJson a.args

arg_of-IsJson :
    (k : String) (args : List (String × Json)) (found : Option Json)
    → AreJson args
    → lookup k args ≡ found
    → IsJson (arg_of found)
unfolding arg_of
arg_of-IsJson k args none h e = tt
arg_of-IsJson k args (some v) h e = lookup-IsJson k args h e

or_five_minutes-IsJson : (v : Json) → IsJson v → IsJson (or_five_minutes v)
unfolding or_five_minutes
or_five_minutes-IsJson Json.null j = tt
or_five_minutes-IsJson (Json.boolean b) j = j
or_five_minutes-IsJson (Json.number n) j = j
or_five_minutes-IsJson (Json.float32 x) j = j
or_five_minutes-IsJson (Json.float64 x) j = j
or_five_minutes-IsJson (Json.text s) j = j
or_five_minutes-IsJson (Json.array xs) j = j
or_five_minutes-IsJson (Json.object m) j = j
or_five_minutes-IsJson (Json.foreign t) j = j

cache_settings-IsJson : (a : Attribute) → HasJsonArgs a → IsJson (cache_settings a)
cache_settings-IsJson a h =
    let ttl = or_five_minutes-IsJson _ (arg_of-IsJson "ttl" a.args (lookup "ttl" a.args) h refl) in
    let key = arg_of-IsJson "key" a.args (lookup "key" a.args) h refl in
    (tt, (ttl, (key, (tt, tt))))

-- a method with JSON metadata, and with JSON arguments of its attributes
abbrev pub HasJsonMethod : Method → Type 0
HasJsonMethod m = IsJsonMap m.metadata × All (λ (c : Source). IsJsonMap c.metadata) m.sources

abbrev pub HasJsonMethodArgs : Method → Type 0
HasJsonMethodArgs m = All HasJsonArgs m.attributes

abbrev pub HasJsonService : Service → Type 0
HasJsonService v = IsJsonMap v.metadata × All HasJsonMethod v.methods

abbrev pub HasJsonServiceArgs : Service → Type 0
HasJsonServiceArgs v = All HasJsonMethodArgs v.methods

method-HasJsonMethod :
    (service : String) (m : Method)
    → HasJsonMethod m
    → HasJsonMethodArgs m
    → HasJsonMethod (trace_and_cache service m)
method-HasJsonMethod service m j args = (
  for_attributes-IsJsonMap "cache" (λ a meta. write "cache" (cache_settings a) meta)
      (λ a x h k. write-IsJsonMap "cache" (cache_settings a) x (cache_settings-IsJson a h) k)
      m.attributes (write "span_name" (span_name service m.name) m.metadata) args
      (write-IsJsonMap "span_name" (span_name service m.name) m.metadata tt j.0),
  j.1,
)

methods-HasJsonMethod :
    (service : String) (ms : List Method)
    → All HasJsonMethod ms
    → All HasJsonMethodArgs ms
    → All HasJsonMethod (map (trace_and_cache service) ms)
methods-HasJsonMethod service [] j args = tt
methods-HasJsonMethod service (m ∷ ms) j args =
    (method-HasJsonMethod service m j.0 args.0, methods-HasJsonMethod service ms j.1 args.1)

service_metadata-IsJsonMap :
    (caching : Bool) (m : Metadata)
    → IsJsonMap m
    → IsJsonMap (if caching then write "needs_caching_decorator" (Json.boolean true) m else m)
service_metadata-IsJsonMap true m j = write-IsJsonMap _ _ m tt j
service_metadata-IsJsonMap false m j = j

service-HasJsonService :
    (v : Service) → HasJsonService v → HasJsonServiceArgs v → HasJsonService (trace_and_cache_all v)
service-HasJsonService v j args = (
  service_metadata-IsJsonMap (has_caching (map (tracing_method v.name) v.methods)) _
      (write-IsJsonMap "tracing_enabled" (Json.boolean true) v.metadata tt j.0),
  rw (service_methods v) (methods-HasJsonMethod v.name v.methods j.1 args),
)

services-HasJsonService :
    (vs : List Service)
    → All HasJsonService vs
    → All HasJsonServiceArgs vs
    → All HasJsonService (map trace_and_cache_all vs)
services-HasJsonService [] j args = tt
services-HasJsonService (v ∷ vs) j args =
    (service-HasJsonService v j.0 args.0, services-HasJsonService vs j.1 args.1)

-- The transformers keep the metadata JSON values.
pub run-HasJson : (s : Schema) → HasJson s → All HasJsonServiceArgs s.services → HasJson (run s)
run-HasJson s j args = (
  write-IsJsonMap _ _ _ tt (write-IsJsonMap _ _ s.metadata tt j.0),
  (
    All-map_of HasJsonEntity HasJsonEntity run_entity run_entity-HasJsonEntity s.entities j.1.0,
    (services-HasJsonService s.services j.1.1.0 args, j.1.1.1),
  ),
)
