-- ===== src/Pipeline/Examples.antt =====
-- The conversion of a small application.
use ang.Common.{◌≡◌, refl, true, none, some, List, [], ◌∷◌, map, All}
use ang.Values.{Json}
use ang.Normalizer
use ang.Ir.{Attribute, Schema, Service, Entity, Field, zero_schema, zero_entity, zero_field}
use ang.Convert.{Application, convert_from_normalizer, build_dependency_graph}
use ang.Hooks.Builtin.{Range, env_hook}
use ang.Hooks.Process.{process, default_hook_registry}
use ang.Hooks.Schemas.{hooked}
use ang.Hooks.Runs.{HoldsNothing, process-upgraded}
use ang.Hooks.Reruns.{IsRange, HasSingleEnv, process_idempotent}
use mathlib.Core.List.{reverse}
use ang.Versioning.{migrate_to_version, normalize_v1_invariants}
use ang.Versioning.Upgrade.{migrate_two, two}
use ang.Abi.Contract.{HasJson}
use ang.Abi.Emission.{upgraded-HasJson}
use ang.Pipeline.{error_text, converted, convert_and_transform}
use ang.Pipeline.Graph.{IsAnchored, IsLinked, build_dependency_graph-IsAnchored}
use ang.Pipeline.Success.{
  IsJsonApplication, IsEmittable, emitted, convert_and_transform-IsEmittable,
}

-- the order in which the arguments stand
abbrev as_written : Range
as_written args = args

abbrev back_to_front : Range
back_to_front = reverse

-- Some value of another type holds an attribute.
abbrev held : Json → List Attribute
held (Json.foreign t) = record { name = "cache"; args = [] } ∷ []
held _ = []

held_nothing : HoldsNothing held
held_nothing (Json.foreign t) j = absurd j
held_nothing Json.null j = refl
held_nothing (Json.boolean b) j = refl
held_nothing (Json.number n) j = refl
held_nothing (Json.float32 x) j = refl
held_nothing (Json.float64 x) j = refl
held_nothing (Json.text s) j = refl
held_nothing (Json.array xs) j = refl
held_nothing (Json.object m) j = refl

abbrev blog : Application
blog = record {
  entities =
      record Normalizer.zero_entity {
        name = "Post";
        fields =
            record Normalizer.zero_field {
              name = "title";
              type = "string";
              validate_tag = "required";
            }
            ∷ [];
        metadata = some (("timestamps", Json.boolean true) ∷ []);
      }
      ∷ [];
  services =
      record Normalizer.zero_service {
        name = "Posts";
        methods = record Normalizer.zero_method { name = "Get" } ∷ [];
      }
      ∷ [];
  events = [];
  errors = [];
  endpoints = [];
  repos = [];
  config = record { fields = [] };
  auth = none;
  rbac = none;
  schedules = [];
  views = [];
  project = record { name = "blog"; version = "1.0" };
}

prints :
    error_text record { stage = "IR"; code = "X"; op = "migrate ir schema"; err = "nil schema" }
    ≡ "[IR:X] migrate ir schema: nil schema"
unfolding error_text ang.Text.concat
prints = refl

blog_json : IsJsonApplication blog
unfolding ang.Convert.convert_from_normalizer ang.Convert.convert_entity ang.Convert.convert_field
    ang.Convert.convert_service ang.Convert.convert_method
blog_json = record {
  metadata = (tt, ((((tt, tt), (tt, tt)), tt), (((tt, ((tt, tt), tt)), tt), (tt, tt))));
  args = ((tt, tt), tt);
}

convert_and_transform-IsEmittable_example :
    (convert_and_transform as_written held blog
      ≡ converted (some (emitted as_written held held_nothing blog)))
    × IsEmittable (emitted as_written held held_nothing blog)
convert_and_transform-IsEmittable_example =
    convert_and_transform-IsEmittable as_written held held_nothing blog blog_json

-- a schema with a field of the database, as the hooks find it
abbrev enriched_blog : Schema
enriched_blog = record zero_schema {
  ir_version = "2";
  entities =
      record zero_entity {
        name = "Post";
        fields =
            record zero_field {
              name = "id";
              attributes =
                  record {
                    name = "db";
                    args = ("type", Json.text "uuid") ∷ ("primary_key", Json.boolean true) ∷ [];
                  }
                  ∷ record { name = "env"; args = ("POST_ID", Json.text "") ∷ [] }
                  ∷ [];
            }
            ∷ [];
      }
      ∷ [];
}

enriched_blog_json : HasJson enriched_blog
enriched_blog_json = (tt, (((tt, (tt, tt)), tt), (tt, (tt, tt))))

hooked_metadata :
    map
      (λ (e : Entity). map (λ (f : Field). f.metadata) e.fields)
      (hooked back_to_front (normalize_v1_invariants enriched_blog)).entities
    ≡ (some (
          ("sql_type", Json.text "uuid")
          ∷ ("primary_key", Json.boolean true)
          ∷ ("env_var", Json.text "POST_ID")
          ∷ [])
        ∷ [])
      ∷ []
unfolding ang.Hooks.Fields.hook_changes ang.Hooks.Fields.hook_change ang.Versioning.ensure_map
    ang.Hooks.Builtin.write_text ang.Hooks.Builtin.write_true ang.Hooks.Builtin.write_first_key
    ang.Common.lookup ang.Values.entries ang.Common.Writes.put
hooked_metadata = refl

-- Of two arguments, the first one that the range visits is written.
one_of_two :
    (env_hook as_written
        (record { name = "env"; args = ("A", Json.null) ∷ ("B", Json.null) ∷ [] })
        (some [])
      ≡ some (("env_var", Json.text "A") ∷ []))
    × (env_hook back_to_front
          (record { name = "env"; args = ("A", Json.null) ∷ ("B", Json.null) ∷ [] })
          (some [])
        ≡ some (("env_var", Json.text "B") ∷ []))
unfolding ang.Hooks.Builtin.write_first_key ang.Values.entries ang.Common.Writes.put
one_of_two = (refl, refl)

as_written-IsRange : IsRange as_written
as_written-IsRange args h = refl

back_to_front-IsRange : IsRange back_to_front
back_to_front-IsRange [] h = refl
back_to_front-IsRange (x ∷ []) h = refl
back_to_front-IsRange (x ∷ y ∷ args) h = absurd h

-- what the hooks leave
abbrev hooked_blog : Schema
hooked_blog = hooked as_written (normalize_v1_invariants enriched_blog)

hooked_blog-HasSingleEnv : HasSingleEnv hooked_blog
hooked_blog-HasSingleEnv = (((λ e. cc e, (λ e. tt, tt)), tt), tt)

process_idempotent_example :
    ((t : Schema) × (migrate_to_version (some enriched_blog) "2"
        ≡ record { err = none; schema = some t })
      × (hooked_blog ≡ hooked as_written t))
    × (process held (default_hook_registry back_to_front) (some hooked_blog)
        ≡ record { err = none; schema = some hooked_blog })
process_idempotent_example =
    let up = migrate_two enriched_blog "2" two two in
    process_idempotent as_written back_to_front as_written-IsRange back_to_front-IsRange held
      held_nothing enriched_blog hooked_blog enriched_blog_json hooked_blog-HasSingleEnv
      (process-upgraded as_written held held_nothing enriched_blog
        (normalize_v1_invariants enriched_blog) up
        (upgraded-HasJson enriched_blog (normalize_v1_invariants enriched_blog) up
          enriched_blog_json))

abbrev blog_schema : Schema
blog_schema = convert_from_normalizer blog

build_dependency_graph-IsAnchored_example :
    All (IsAnchored blog_schema) (build_dependency_graph blog_schema).edges
    × All
        (λ (v : Service). All (IsLinked (build_dependency_graph blog_schema) v.name) v.methods)
        blog_schema.services
build_dependency_graph-IsAnchored_example = build_dependency_graph-IsAnchored blog_schema
