-- ===== src/Transformers/Examples.antt =====
-- The transformers on a small schema.
use ang.Common.{◌≡◌, ◌↔◌, refl, true, none, some, List, [], ◌∷◌, map, String}
use ang.Values.{Json}
use ang.Ir.{Schema, zero_schema, Entity, zero_entity, Field, zero_field, zero_service, zero_method}
use ang.Versioning.{normalize_v1_invariants}
use ang.Versioning.Upgrade.{migrate_two, two}
use ang.Transformers.Registry.{apply, default_registry}
use ang.Transformers.Reruns.{run, apply-upgraded, HasNoImages, apply_idempotent_iff}

abbrev avatar : Field
avatar = record zero_field {
  name = "avatar";
  attributes = record { name = "image"; args = [] } ∷ [];
}

abbrev email : Field
email = record zero_field {
  name = "email";
  optional = true;
  attributes = record { name = "validate"; args = ("rule", Json.text "email") ∷ [] } ∷ [];
}

abbrev user : Entity
user = record zero_entity {
  name = "User";
  fields = avatar ∷ email ∷ [];
  metadata = some (("timestamps", Json.boolean true) ∷ []);
}

abbrev users : Schema
users = record zero_schema {
  ir_version = "2";
  entities = user ∷ [];
  services =
      record zero_service {
        name = "Users";
        methods =
            record zero_method {
              name = "Get";
              attributes = record { name = "cache"; args = [] } ∷ [];
            }
            ∷ [];
      }
      ∷ [];
}

abbrev names : Schema → List (List String)
names s = map (λ (e : Entity). map (λ (f : Field). f.name) e.fields) s.entities

abbrev users_after : Schema
users_after = run (normalize_v1_invariants users)

fields_once :
    names users_after
    ≡ ("avatar" ∷ "avatar_thumb" ∷ "email" ∷ "created_at" ∷ "updated_at" ∷ []) ∷ []
unfolding mathlib.Core.List.flat_map ang.Transformers.Entities.thumbs
    ang.Transformers.Entities.has_field ang.Transformers.Entities.image_metadata ang.Common.lookup
    ang.Values.entries ang.Versioning.ensure_map ang.Text.concat
fields_once = refl

-- The thumbnail is added once more.
fields_twice :
    names (run users_after)
    ≡ ("avatar" ∷ "avatar_thumb" ∷ "avatar_thumb" ∷ "email" ∷ "created_at" ∷ "updated_at" ∷ []) ∷ []
unfolding mathlib.Core.List.flat_map ang.Transformers.Entities.thumbs
    ang.Transformers.Entities.has_field ang.Transformers.Entities.image_metadata ang.Common.lookup
    ang.Values.entries ang.Versioning.ensure_map ang.Text.concat
fields_twice = refl

apply_idempotent_iff_example :
    (apply default_registry (some users_after) ≡ record { err = none; schema = some users_after })
    ↔ HasNoImages users_after
apply_idempotent_iff_example =
    apply_idempotent_iff users users_after
      (apply-upgraded users (normalize_v1_invariants users) (migrate_two users "2" two two))
