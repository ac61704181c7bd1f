-- ===== src/Hooks/Builtin.antt =====
-- The hooks of the registry.
use ang.Common.{
  String, true, Option, none, some, List, [], ◌∷◌, ◌++◌, lookup, is_empty, if◌then◌else◌,
}
use ang.Values.{Json, Metadata, write}
use ang.Ir.{
  Entity, zero_entity, Field, zero_field, Attribute, Service, Method, zero_method, type_ref,
  TypePointer,
}
use ang.Versioning.{ensure_map}

-- `Hook`; each call gives what it leaves and its error
pub record Hook : Type 0 where
  pub attribute : String
  pub on_field : Field → Attribute → Field × Option String
  pub on_entity : Entity → Attribute → Entity × Option String
  pub on_service : Service → Attribute → Service × Option String
  pub on_method : Method → Attribute → Method × Option String

-- `BaseHook`, which does nothing
abbrev pub base_hook : String → Hook
base_hook attribute = record {
  attribute = attribute;
  on_field = λ f a. (f, none);
  on_entity = λ e a. (e, none);
  on_service = λ s a. (s, none);
  on_method = λ m a. (m, none);
}

-- a hook on fields that changes their metadata, after a map has been made of nil ones
abbrev pub field_hook : String → (Attribute → Metadata → Metadata) → Hook
field_hook attribute change = record (base_hook attribute) {
  on_field = λ f a. (record f { metadata = change a (ensure_map f.metadata) }, none);
}

-- `if s, ok := arg.(string); ok { m[key] = s }`
unfoldable pub write_text : String → Option Json → Metadata → Metadata
write_text key (some (Json.text s)) m = write key (Json.text s) m
write_text key arg m = m

-- `if s, ok := arg.(string); ok { m[key] = s } else { m[key] = other }`
unfoldable pub write_text_or : String → String → Option Json → Metadata → Metadata
write_text_or other key (some (Json.text s)) m = write key (Json.text s) m
write_text_or other key arg m = write key (Json.text other) m

-- `if b, ok := arg.(bool); ok && b { m[key] = true }`
unfoldable pub write_true : String → Option Json → Metadata → Metadata
write_true key (some (Json.boolean true)) m = write key (Json.boolean true) m
write_true key arg m = m

-- `if b, ok := arg.(bool); ok { m[key] = b }`
unfoldable pub write_boolean : String → Option Json → Metadata → Metadata
write_boolean key (some (Json.boolean b)) m = write key (Json.boolean b) m
write_boolean key arg m = m

-- The order in which `range` visits the arguments of an attribute, a map.
abbrev pub Range : Type 0
Range = List (String × Json) → List (String × Json)

-- `for k := range args { m[key] = k; break }`, with the arguments in the order of the range
unfoldable pub write_first_key : String → List (String × Json) → Metadata → Metadata
write_first_key key [] m = m
write_first_key key ((k, v) ∷ args) m = write key (Json.text k) m

abbrev pub db_hook : Attribute → Metadata → Metadata
db_hook a m = write_true "index" (lookup "index" a.args) (
    write_true "unique" (lookup "unique" a.args) (
      write_true "primary_key" (lookup "primary_key" a.args)
        (write_text "sql_type" (lookup "type" a.args) m)))

-- the rule, given the argument of that name
unfoldable pub validate_hook_with : List (String × Json) → Option Json → Metadata → Metadata
validate_hook_with args (some (Json.text rule)) m = write "validate_rule" (Json.text rule) m
validate_hook_with args arg m = if is_empty args then write_first_key "validate_rule" args m else m

abbrev pub validate_hook : Attribute → Metadata → Metadata
validate_hook a m = validate_hook_with a.args (lookup "rule" a.args) m

abbrev pub image_hook : Attribute → Metadata → Metadata
image_hook a m =
    write_text_or "_thumb" "thumb_suffix" (lookup "thumb_suffix" a.args)
      (write "generate_thumbnail" (Json.boolean true) (write "file_kind" (Json.text "image") m))

abbrev pub file_hook : Attribute → Metadata → Metadata
file_hook a m =
    write_boolean "generate_thumbnail" (lookup "thumbnail" a.args)
      (write_text_or "auto" "file_kind" (lookup "kind" a.args) m)

abbrev pub env_hook : Range → Attribute → Metadata → Metadata
env_hook range a m = write_first_key "env_var" (range a.args) m

-- `if ttl, ok := attr.Args["ttl"].(string); ok`
unfoldable pub cache_ttl : Option Json → Method → Method
cache_ttl (some (Json.text ttl)) m = record m {
  cache_ttl = ttl;
  metadata = write "cache_enabled" (Json.boolean true) m.metadata;
}
cache_ttl arg m = m

abbrev pub cache_hook : Method → Attribute → Method
cache_hook m a =
    let m' = cache_ttl (lookup "ttl" a.args) (record m { metadata = ensure_map m.metadata }) in
    record m' { metadata = write_text "cache_key_template" (lookup "key" a.args) m'.metadata }

abbrev pub plain_field : String → String → Field
plain_field name kind = record zero_field {
  name = name;
  type = type_ref kind "" TypePointer.nil TypePointer.nil;
}

abbrev pub create_payment_intent : Method
create_payment_intent = record zero_method {
  name = "CreatePaymentIntent";
  input = some (record zero_entity {
    name = "CreatePaymentIntentInput";
    fields =
        plain_field "amount" "int64"
        ∷ plain_field "currency" "string"
        ∷ record (plain_field "customer_id" "string") { optional = true }
        ∷ [];
  });
  output = some (record zero_entity {
    name = "PaymentIntent";
    fields =
        plain_field "id" "string"
        ∷ plain_field "client_secret" "string"
        ∷ plain_field "status" "string"
        ∷ [];
  });
  metadata = some (("generated_by", Json.text "stripe_payment_hook") ∷ []);
}

abbrev pub stripe_payment_hook : Service → Attribute → Service
stripe_payment_hook s a = record s {
  metadata =
      write_text_or "amount" "stripe_amount_field" (lookup "field" a.args)
        (write "stripe_enabled" (Json.boolean true) s.metadata);
  methods = s.methods ++ create_payment_intent ∷ [];
}

-- what `DefaultHookRegistry` registers, in order
abbrev pub default_hooks : Range → List Hook
default_hooks range =
    field_hook "db" db_hook
    ∷ field_hook "validate" validate_hook
    ∷ field_hook "image" image_hook
    ∷ field_hook "file" file_hook
    ∷ field_hook "env" (env_hook range)
    ∷ record (base_hook "cache") { on_method = λ m a. (cache_hook m a, none) }
    ∷ record (base_hook "stripe_payment") { on_service = λ s a. (stripe_payment_hook s a, none) }
    ∷ []
