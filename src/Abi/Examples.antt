-- ===== src/Abi/Examples.antt =====
-- The contract at small schemas.
use ang.Common.{◌≡◌, ◌↔◌, refl, none, some, [], ◌∷◌}
use ang.Values.{Json, JsonItems}
use ang.Ir.{Schema, zero_schema, zero_entity}
use ang.Abi.{validate_abi_v2, prepare}
use ang.Abi.Contract.{HasJson, validate_abi_v2-HasJson}

abbrev bad : Schema
bad = record zero_schema {
  ir_version = "2";
  entities =
      record zero_entity {
        metadata = some (
            ("scores", Json.array (JsonItems.item (Json.float64 0x7ff0000000000000) JsonItems.nil))
            ∷ []);
      }
      ∷ [];
}

infinite :
    validate_abi_v2 (some bad) ≡ some "entities[0].metadata.scores[0] contains non-finite float64"
unfolding validate_abi_v2 ang.Abi.first_error ang.Abi.first_of ang.Abi.validate_metadata
    ang.Abi.validate_json_value ang.Abi.members_of ang.Abi.is_non_finite64 ang.Text.concat
    ang.Text.Numbers.decimal
infinite = refl

-- the upgrade takes a version with a space for the current one and leaves it, and the contract
-- refuses it then
padded :
    (prepare (some (record zero_schema { ir_version = " 2" }))).err
    ≡ some "ir abi validation: ir_version=\" 2\", expected \"2\""
unfolding prepare ang.Abi.checked ang.Abi.prefixed validate_abi_v2 ang.Versioning.migrate_to_version
    ang.Versioning.normalize_version ang.Versioning.migrate_loop ang.Versioning.finish
    ang.Text.trim_space ang.Text.concat ang.Text.quote
padded = refl

validate_abi_v2-HasJson_example :
    (validate_abi_v2 (some bad) ≡ none) ↔ ((bad.ir_version ≡ "2") × HasJson bad)
validate_abi_v2-HasJson_example = validate_abi_v2-HasJson bad
