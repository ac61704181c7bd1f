-- ===== src/Pipeline/Success.antt =====
-- The whole conversion of an application whose metadata are JSON values.
use ang.Common.{◌≡◌, refl, some, List, map, All, All-map_of}
use ang.Values.{Json}
use ang.Ir.{Attribute, Schema, Service}
use ang.Convert.{Application, convert_from_normalizer}
use ang.Versioning.{normalize_v1_invariants, ensure_service, ensure_method}
use ang.Versioning.Upgrade.{two, migrate_two, migrate_fixed}
use ang.Versioning.Invariants.{IsNormal, normalize-IsNormal}
use ang.Abi.Contract.{HasJson, validate_abi_v2-HasJson}
use ang.Abi.Emission.{upgraded-HasJson}
use ang.Transformers.Reruns.{run, run-IsNormal, apply-upgraded}
use ang.Transformers.JsonRuns.{HasJsonServiceArgs, HasJsonMethodArgs, run-HasJson}
use ang.Hooks.Builtin.{Range}
use ang.Hooks.Schemas.{hooked, hooked-IsNormal, hooked-HasJson}
use ang.Hooks.Runs.{HoldsNothing, process-upgraded}
use ang.Pipeline.{converted, convert_and_transform, unless_failed, wrap_contract_error}

-- The metadata of an application and the arguments of its methods' attributes are JSON values.
pub record IsJsonApplication (a : Application) : Type 0 where
  pub metadata : HasJson (convert_from_normalizer a)
  pub args : All HasJsonServiceArgs (convert_from_normalizer a).services

-- What the emitters get.
pub record IsEmittable (s : Schema) : Type 0 where
  pub version : s.ir_version ≡ "2"
  pub made : IsNormal s
  pub json : HasJson s

normal_args :
    (vs : List Service) → All HasJsonServiceArgs vs → All HasJsonServiceArgs (map ensure_service vs)
normal_args vs h =
    All-map_of HasJsonServiceArgs HasJsonServiceArgs ensure_service
      (λ v k. All-map_of HasJsonMethodArgs HasJsonMethodArgs ensure_method (λ m i. i) v.methods k)
      vs h

module _ (range : Range) (held : Json → List Attribute) (nothing : HoldsNothing held)
    (a : Application) where
  -- the schema behind the transformers, and behind the hooks
  abbrev enriched : Schema
  enriched = run (normalize_v1_invariants (convert_from_normalizer a))

  abbrev pub emitted : Schema
  emitted = hooked range enriched

  -- If a value that is JSON holds no attributes, then ConvertAndTransform turns every application
  -- whose metadata and method attributes hold JSON values into a schema, which is the converted one
  -- behind the migration, the transformers and the hooks of fields. It has the current version, no
  -- map of metadata is nil in it, its entities and their fields, its services, their methods and
  -- sources, its events and its endpoints, and it meets the contract of the emitters.
  pub convert_and_transform-IsEmittable :
      IsJsonApplication a
      → (convert_and_transform range held a ≡ converted (some emitted)) × IsEmittable emitted
  unfolding convert_and_transform unless_failed wrap_contract_error convert_from_normalizer
  convert_and_transform-IsEmittable j =
      let s = convert_from_normalizer a in
      let t = normalize_v1_invariants s in
      let up = migrate_two s "2" two two in
      let normal = normalize-IsNormal s in
      let json =
        run-HasJson t (upgraded-HasJson s t up j.metadata) (normal_args s.services j.args) in
      let run_normal = run-IsNormal t normal in
      let applied = apply-upgraded t t (migrate_fixed t "2" two two normal) in
      let processed =
        process-upgraded range held nothing enriched enriched
          (migrate_fixed enriched "2" two two run_normal) json in
      let final = hooked-HasJson range enriched run_normal json in
      let abi = (validate_abi_v2-HasJson emitted).1 (refl, final) in
      (
        rw (up, applied, processed, abi) refl,
        record { version = refl; made = hooked-IsNormal range enriched run_normal; json = final },
      )
