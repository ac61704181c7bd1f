-- ===== src/Abi.antt =====
-- compiler/ir/abi.go: the contract that a schema has to meet at the boundary of the emitters, and the
-- upgrade before it as compiler/emitter/ir_emitter.go composes the two. Its proofs are below.
pub mod Contract
pub mod Emission
mod Examples
use Prim.Native.Nat.{◌/◌, ◌%◌}
use Prim.Native.String.{String, ◌++◌}
use ang.Common.{ℕ, suc, ◌+◌, Bool, Option, none, some, List, [], ◌∷◌, ◌==◌, not, eqb, if◌then◌else◌}
use ang.Text.{concat, quote}
use ang.Text.Numbers.{decimal}
use ang.Values.{Json, JsonItems, JsonMembers, Metadata}
use ang.Ir.{Schema, Entity, Field, Service, Method, Source, Event, Endpoint}
use ang.Versioning.{Migrated, migrate_to_current}

-- `math.IsNaN || math.IsInf` of the float32 and of the float64 with these bits
unfoldable pub is_non_finite32 : ℕ → Bool
is_non_finite32 bits = eqb (bits / 0x800000 % 0x100) 0xff

unfoldable pub is_non_finite64 : ℕ → Bool
is_non_finite64 bits = eqb (bits / 0x10000000000000 % 0x800) 0x7ff

-- the first error of two checks in this order
unfoldable pub first_of : Option String → Option String → Option String
first_of none second = second
first_of (some err) second = some err

abbrev pub complain_if : Bool → String → Option String
complain_if bad message = if bad then some message else none

-- a map as a value of type `any`
unfoldable pub members_of : List (String × Json) → JsonMembers
members_of [] = JsonMembers.end
members_of ((k, v) ∷ m) = JsonMembers.member k v (members_of m)

-- a loop over a slice that stops at the first error
unfoldable pub first_error {ℓ} : {A : Type ℓ} → (ℕ → A → Option String) → ℕ → List A → Option String
first_error check i [] = none
first_error check i (x ∷ xs) = first_of (check i x) (first_error check (suc i) xs)

unfoldable pub prefixed : String → Option String → Option String
prefixed context none = none
prefixed context (some err) = some (context ++ (": " ++ err))

-- `fmt.Sprintf("%s[%d]", path, i)`
abbrev pub indexed : String → ℕ → String
indexed path i = concat (path ∷ "[" ∷ decimal i ∷ "]" ∷ [])

-- `validateJSONValue`
unfoldable mutual
  pub validate_json_value : Json → String → Option String
  validate_json_value Json.null path = none
  validate_json_value (Json.boolean b) path = none
  validate_json_value (Json.number n) path = none
  validate_json_value (Json.float32 x) path =
      complain_if (is_non_finite32 x) (path ++ " contains non-finite float32")
  validate_json_value (Json.float64 x) path =
      complain_if (is_non_finite64 x) (path ++ " contains non-finite float64")
  validate_json_value (Json.text s) path = none
  validate_json_value (Json.array items) path = validate_items items path 0
  validate_json_value (Json.object members) path = validate_members members path
  validate_json_value (Json.foreign type) path =
      some (concat (path ∷ " contains non-ABI value of type " ∷ type ∷ []))

  -- the loop over a slice, from an index on
  pub validate_items : JsonItems → String → ℕ → Option String
  validate_items JsonItems.nil path i = none
  validate_items (JsonItems.item v items) path i =
      first_of (validate_json_value v (indexed path i)) (validate_items items path (suc i))

  -- the loop over a map
  pub validate_members : JsonMembers → String → Option String
  validate_members JsonMembers.end path = none
  validate_members (JsonMembers.member k v members) path =
      first_of (validate_json_value v (concat (path ∷ "." ∷ k ∷ [])))
        (validate_members members path)

-- the same for metadata, whose nil map has no entries
unfoldable pub validate_metadata : Metadata → String → Option String
validate_metadata none path = none
validate_metadata (some m) path = validate_json_value (Json.object (members_of m)) path

abbrev pub validate_field : ℕ → ℕ → Field → Option String
validate_field i j f =
    validate_metadata f.metadata (indexed (indexed "entities" i ++ ".fields") j ++ ".metadata")

abbrev pub validate_entity : ℕ → Entity → Option String
validate_entity i e =
    first_of (validate_metadata e.metadata (indexed "entities" i ++ ".metadata"))
      (first_error (validate_field i) 0 e.fields)

abbrev pub validate_source : ℕ → ℕ → ℕ → Source → Option String
validate_source i j k s =
    validate_metadata s.metadata
      (indexed (indexed (indexed "services" i ++ ".methods") j ++ ".sources") k ++ ".metadata")

abbrev pub validate_method : ℕ → ℕ → Method → Option String
validate_method i j m =
    first_of
      (validate_metadata m.metadata (indexed (indexed "services" i ++ ".methods") j ++ ".metadata"))
      (first_error (validate_source i j) 0 m.sources)

abbrev pub validate_service : ℕ → Service → Option String
validate_service i s =
    first_of (validate_metadata s.metadata (indexed "services" i ++ ".metadata"))
      (first_error (validate_method i) 0 s.methods)

abbrev pub validate_event : ℕ → Event → Option String
validate_event i e = validate_metadata e.metadata (indexed "events" i ++ ".metadata")

abbrev pub validate_endpoint_metadata : ℕ → Endpoint → Option String
validate_endpoint_metadata i e = validate_metadata e.metadata (indexed "endpoints" i ++ ".metadata")

abbrev pub validate_parts : Schema → Option String
validate_parts s = first_of (validate_metadata s.metadata "schema.metadata") (
    first_of (first_error validate_entity 0 s.entities) (
      first_of (first_error validate_service 0 s.services) (
        first_of (first_error validate_event 0 s.events)
          (first_error validate_endpoint_metadata 0 s.endpoints))))

-- `ValidateABIV2`, where none is a nil schema
unfoldable pub validate_abi_v2 : Option Schema → Option String
validate_abi_v2 none = some "nil schema"
validate_abi_v2 (some s) =
    if not (s.ir_version == "2")
    then some (concat ("ir_version=" ∷ quote s.ir_version ∷ ", expected " ∷ quote "2" ∷ []))
    else validate_parts s

-- the contract after an upgrade with this error and this schema
unfoldable pub checked : Option String → Option Schema → Migrated
checked (some err) s = record { err = some ("ir version migration: " ++ err); schema = s }
checked none s = record { err = prefixed "ir abi validation" (validate_abi_v2 s); schema = s }

-- the first two calls of `EmitFromIR`: the error, and the schema that is emitted without one
unfoldable pub prepare : Option Schema → Migrated
prepare s = let m = migrate_to_current s in checked m.err m.schema
