-- ===== src/Hooks/Reruns.antt =====
-- A second run of the registered hooks, which may range over arguments in another order.
use mathlib.Core.Option.{some_inj}
use ang.Common.{
  ◌≡◌, refl, ap, sym, subst, ◌∙◌, String, none, some, List, [], ◌∷◌, inl, inr, map, All, Bool-cases,
  ◌==◌, eq_iff,
}
use ang.Values.{Json, Metadata}
use ang.Ir.{Attribute, Schema, Entity, Field}
use ang.Versioning.{Migrated, migrate_to_version}
use ang.Versioning.Upgrade.{two, migrate_fixed, migrate_to_version-upgrades}
use ang.Abi.Contract.{HasJson}
use ang.Abi.Emission.{upgraded-HasJson}
use ang.Hooks.Builtin.{Range}
use ang.Hooks.Process.{default_hook_registry, process}
use ang.Hooks.Fields.{hook_change, hook_changes, hooked_field}
use ang.Hooks.Schemas.{hooked_entity, hooked, hooked-IsNormal, hooked-HasJson, hooked_idem}
use ang.Hooks.Runs.{HoldsNothing, process-upgraded, process-Refused}

-- There is one order at most for the arguments.
abbrev pub AtMostOne : List (String × Json) → Type 0
AtMostOne [] = Unit
AtMostOne (x ∷ []) = Unit
AtMostOne (x ∷ y ∷ args) = ⊥

-- A range over a map of at most one entry visits it.
abbrev pub IsRange : Range → Type 0
IsRange range = (args : List (String × Json)) → AtMostOne args → range args ≡ args

-- No attribute `env` of a field has several arguments.
abbrev pub HasSingleEnv : Schema → Type 0
HasSingleEnv s =
    All
      (λ (e : Entity).
        All (λ (f : Field). All (λ (a : Attribute). "env" ≡ a.name → AtMostOne a.args) f.attributes)
          e.fields)
      s.entities

module _ (range range' : Range) (visits : IsRange range) (visits' : IsRange range') where
  hook_change-same :
      (a : Attribute) (m : Metadata)
      → ("env" ≡ a.name → AtMostOne a.args)
      → hook_change range a.name a m ≡ hook_change range' a.name a m
  unfolding hook_change
  hook_change-same a m single = elim (Bool-cases ("env" == a.name)) [
    | inl env ↦
        let one = single ((eq_iff "env" a.name).0 env) in
        rw (visits a.args one, visits' a.args one) refl
    | inr n ↦ rw n refl
  ]

  hook_changes-same :
      (attributes : List Attribute) (m : Metadata)
      → All (λ (a : Attribute). "env" ≡ a.name → AtMostOne a.args) attributes
      → hook_changes range attributes m ≡ hook_changes range' attributes m
  unfolding hook_changes
  hook_changes-same [] m h = refl
  hook_changes-same (a ∷ rest) m h =
      ap (hook_changes range rest) (hook_change-same a m h.0)
      ∙ hook_changes-same rest (hook_change range' a.name a m) h.1

  fields-same :
      (fs : List Field)
      → All
          (λ (f : Field). All (λ (a : Attribute). "env" ≡ a.name → AtMostOne a.args) f.attributes)
          fs
      → map (hooked_field range) fs ≡ map (hooked_field range') fs
  fields-same [] h = refl
  fields-same (f ∷ fs) h =
      rw (hook_changes-same f.attributes f.metadata h.0, fields-same fs h.1) refl

  entities-same :
      (es : List Entity)
      → All
          (λ (e : Entity).
            All
              (λ (f : Field).
                All (λ (a : Attribute). "env" ≡ a.name → AtMostOne a.args) f.attributes)
              e.fields)
          es
      → map (hooked_entity range) es ≡ map (hooked_entity range') es
  entities-same [] h = refl
  entities-same (e ∷ es) h = rw (fields-same e.fields h.0, entities-same es h.1) refl

  -- If a value that is JSON holds no attributes, then on a schema whose metadata are JSON values the
  -- registered hooks leave everything but the metadata of fields as the migration makes it. A second
  -- Process of what a first one has let pass changes nothing, in whatever orders the two range over
  -- arguments, if no attribute `env` of a field has several of them.
  pub process_idempotent :
      (held : Json → List Attribute)
      → HoldsNothing held
      → (s s' : Schema) → HasJson s
      → HasSingleEnv s'
      → process held (default_hook_registry range) (some s)
        ≡ record { err = none; schema = some s' }
      → ((t : Schema) × (migrate_to_version (some s) "2" ≡ record { err = none; schema = some t })
          × (s' ≡ hooked range t))
        × (process held (default_hook_registry range') (some s')
            ≡ record { err = none; schema = some s' })
  process_idempotent held nothing s s' j single e = elim (migrate_to_version-upgrades s "2") [
    | inr h ↦ absurd (process-Refused range held nothing s h.1 (ap (λ (m : Migrated). m.err) e))
    | inl h ↦
        let (t, m, u) = h.1 in
        let json = upgraded-HasJson s t m j in
        let once = process-upgraded range held nothing s t m json in
        let same : hooked range t ≡ s' =
          some_inj.0 (ap (λ (r : Migrated). r.schema) (sym once ∙ e)) in
        let normal = hooked-IsNormal range t u.normal in
        let fixed = migrate_fixed (hooked range t) "2" two u.version normal in
        let again =
          process-upgraded range' held nothing (hooked range t) (hooked range t) fixed
            (hooked-HasJson range t u.normal json) in
        let other : hooked range' s' ≡ hooked range s' =
          ap (λ (es : List Entity). record s' { entities = es })
            (sym (entities-same s'.entities single)) in
        let settled : hooked range' s' ≡ s' =
          other ∙ ap (hooked range) (sym same) ∙ hooked_idem range t u.normal ∙ same in
        (
          (t, m, sym same),
          subst
                (λ x.
                  process held (default_hook_registry range') (some x)
                  ≡ record { err = none; schema = some (hooked range' x) })
                same again
              ∙ ap (λ (x : Schema). record { err = none; schema = some x }) settled,
        )
  ]
