-- ===== src/Abi/Emission.antt =====
-- The upgrade of a schema and the contract after it.
use ang.Common.{
  ◌≡◌, ◌↔◌, ◌⊎◌, inl, inr, refl, ap, sym, subst, ◌∙◌, ℕ, suc, String, Option, none, some, List, [],
  ◌∷◌, map,
}
use mathlib.Core.Option.{some_inj}
use ang.Values.{Metadata}
use ang.Ir.{Schema}
use ang.Abi.{
  first_of, validate_metadata, first_error, validate_parts, validate_entity, validate_field,
  validate_service, validate_method, validate_source, validate_event, validate_endpoint_metadata,
}
use ang.Abi.Contract.{HasJson, parts_iff}
use ang.Versioning.{
  ensure_map, ensure_entity, ensure_field, ensure_service, ensure_method, ensure_source,
  ensure_event, ensure_endpoint, normalize_v1_invariants, normalize_version, migrate_to_version,
  Migrated, migrate_v0_to_v1, migrate_v1_to_v2,
}
use ang.Versioning.Upgrade.{
  from_unknown, two, IsKnown-cases, migrate_zero, migrate_one, migrate_two,
}

metadata_same :
    (m : Metadata) (path : String)
    → validate_metadata (ensure_map m) path ≡ validate_metadata m path
unfolding validate_metadata ensure_map ang.Abi.members_of ang.Abi.validate_json_value
metadata_same none path = refl
metadata_same (some m) path = refl

first_error_same :
    {A : Type 0} (check : ℕ → A → Option String) (f : A → A)
    → ((i : ℕ) (x : A) → check i (f x) ≡ check i x)
    → (i : ℕ) (xs : List A) → first_error check i (map f xs) ≡ first_error check i xs
unfolding first_error
first_error_same check f h i [] = refl
first_error_same check f h i (x ∷ xs) = rw (h i x, first_error_same check f h (suc i) xs) refl

-- Making the nil maps changes nothing for the contract.
parts_same : (s : Schema) → validate_parts (normalize_v1_invariants s) ≡ validate_parts s
parts_same s =
    rw
      (
        metadata_same s.metadata "schema.metadata",
        first_error_same (validate_entity) ensure_entity
            (λ i e.
              rw
                (
                  metadata_same e.metadata _,
                  first_error_same (validate_field i) ensure_field
                      (λ j f. metadata_same f.metadata _) 0 e.fields,
                )
                refl)
            0 s.entities,
        first_error_same (validate_service) ensure_service
            (λ i v.
              rw
                (
                  metadata_same v.metadata _,
                  first_error_same (validate_method i) ensure_method
                      (λ j m.
                        rw
                          (
                            metadata_same m.metadata _,
                            first_error_same (validate_source i j) ensure_source
                                (λ k c. metadata_same c.metadata _) 0 m.sources,
                          )
                          refl)
                      0 v.methods,
                )
                refl)
            0 s.services,
        first_error_same (validate_event) ensure_event (λ i e. metadata_same e.metadata _) 0
            s.events,
        first_error_same (validate_endpoint_metadata) ensure_endpoint
            (λ i e. metadata_same e.metadata _) 0 s.endpoints,
      )
      refl

-- The version is one that the upgrade replaces, or the current one to the letter.
abbrev pub IsAccepted : String → Type 0
IsAccepted v = (normalize_version v ≡ "0") ⊎ ((normalize_version v ≡ "1") ⊎ (v ≡ "2"))

HasJson-same : (s s' : Schema) → validate_parts s' ≡ validate_parts s → HasJson s' ↔ HasJson s
HasJson-same s s' e =
    let made = parts_iff s' in
    let old = parts_iff s in (λ h. old.0 (sym e ∙ made.1 h), λ h. made.0 (e ∙ old.1 h))

one_same :
    (s : Schema) → validate_parts (normalize_v1_invariants (migrate_v1_to_v2 s)) ≡ validate_parts s
one_same s =
    parts_same (migrate_v1_to_v2 s)
    ∙ parts_same (record (normalize_v1_invariants s) { ir_version = "2" })
    ∙ parts_same s

-- An upgrade keeps the metadata as they are for the contract.
pub upgraded-HasJson :
    (s s' : Schema)
    → migrate_to_version (some s) "2" ≡ record { err = none; schema = some s' }
    → HasJson s
    → HasJson s'
upgraded-HasJson s s' e h = elim (IsKnown-cases (normalize_version s.ir_version)) [
  | inl (inl zero) ↦
      made (migrate_zero s "2" two zero)
        (one_same (migrate_v0_to_v1 s) ∙ parts_same (record s { ir_version = "1" }))
  | inl (inr (inl one)) ↦ made (migrate_one s "2" two one) (one_same s)
  | inl (inr (inr current)) ↦ made (migrate_two s "2" two current) (parts_same s)
  | inr u ↦ absurd ((from_unknown s "2" two u).0 (ap (λ (r : Migrated). r.err) e))
]
  where
    made :
        {t : Schema}
        → migrate_to_version (some s) "2" ≡ record { err = none; schema = some t }
        → validate_parts t ≡ validate_parts s
        → HasJson s'
    made {t} m same =
        let found : t ≡ s' = some_inj.0 (ap (λ (r : Migrated). r.schema) (sym m ∙ e)) in
        subst HasJson found ((HasJson-same s t same).1 h)
