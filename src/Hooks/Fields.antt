-- ===== src/Hooks/Fields.antt =====
-- What the registered hooks write to the metadata of a field.
use ang.Common.{
  ◌≡◌, refl, ap, sym, ◌∙◌, String, Bool, true, false, Option, none, some, List, [], ◌∷◌, ◌++◌, inl,
  inr, Bool-cases, if◌then◌else◌, lookup, ◌==◌,
}
use ang.Values.{Json, Metadata}
use ang.Ir.{Attribute, Field}
use ang.Versioning.{ensure_map}
use ang.Hooks.Builtin.{
  write_text, write_text_or, write_true, write_boolean, write_first_key, Range, db_hook,
  validate_hook, validate_hook_with, image_hook, file_hook, env_hook,
}
use ang.Hooks.Process.{
  hooks_for, default_hook_registry, register_all, run_hooks, run_attributes, process_field, after,
}
use ang.Hooks.Writes.{Writes, same-Writes, write-Writes, then-Writes, either-Writes}

write_text-Writes : (key : String) (arg : Option Json) → Writes (write_text key arg)
unfolding write_text
write_text-Writes key (some (Json.text s)) = write-Writes key (Json.text s) tt
write_text-Writes key _ = same-Writes

write_text_or-Writes :
    (other key : String) (arg : Option Json) → Writes (write_text_or other key arg)
unfolding write_text_or
write_text_or-Writes other key (some (Json.text s)) = write-Writes key (Json.text s) tt
write_text_or-Writes other key _ = write-Writes key (Json.text other) tt

write_true-Writes : (key : String) (arg : Option Json) → Writes (write_true key arg)
unfolding write_true
write_true-Writes key (some (Json.boolean true)) = write-Writes key (Json.boolean true) tt
write_true-Writes key _ = same-Writes

write_boolean-Writes : (key : String) (arg : Option Json) → Writes (write_boolean key arg)
unfolding write_boolean
write_boolean-Writes key (some (Json.boolean b)) = write-Writes key (Json.boolean b) tt
write_boolean-Writes key _ = same-Writes

write_first_key-Writes :
    (key : String) (args : List (String × Json)) → Writes (write_first_key key args)
unfolding write_first_key
write_first_key-Writes key [] = same-Writes
write_first_key-Writes key ((k, v) ∷ args) = write-Writes key (Json.text k) tt

validate_hook_with-Writes :
    (args : List (String × Json)) (arg : Option Json) → Writes (validate_hook_with args arg)
unfolding validate_hook_with
validate_hook_with-Writes args (some (Json.text s)) = write-Writes "validate_rule" (Json.text s) tt
validate_hook_with-Writes [] _ = write_first_key-Writes "validate_rule" []
validate_hook_with-Writes (a ∷ args) _ = same-Writes

ensure_map-Writes : Writes ensure_map
unfolding ensure_map ang.Common.Writes.put_all
ensure_map-Writes = record { writes = []; json = tt; result = λ m. refl }

module _ (range : Range) where
  -- the change that the hooks of an attribute make, given the attribute's name
  unfoldable pub hook_change : String → Attribute → Metadata → Metadata
  hook_change name a m =
      if "db" == name
      then db_hook a (ensure_map m)
      else if "validate" == name
      then validate_hook a (ensure_map m)
      else if "image" == name
      then image_hook a (ensure_map m)
      else if "file" == name
      then file_hook a (ensure_map m)
      else if "env" == name
      then env_hook range a (ensure_map m)
      else m

  hook_change-Writes : (name : String) (a : Attribute) → Writes (hook_change name a)
  unfolding hook_change
  hook_change-Writes name a =
      either-Writes ("db" == name)
        (then-Writes ensure_map-Writes (
          then-Writes (write_text-Writes "sql_type" (lookup "type" a.args)) (
            then-Writes (write_true-Writes "primary_key" (lookup "primary_key" a.args)) (
              then-Writes (write_true-Writes "unique" (lookup "unique" a.args))
                (write_true-Writes "index" (lookup "index" a.args))))))
        (either-Writes ("validate" == name)
          (then-Writes ensure_map-Writes (validate_hook_with-Writes a.args (lookup "rule" a.args)))
          (either-Writes ("image" == name)
            (then-Writes ensure_map-Writes (
              then-Writes (write-Writes "file_kind" (Json.text "image") tt) (
                then-Writes (write-Writes "generate_thumbnail" (Json.boolean true) tt)
                  (write_text_or-Writes "_thumb" "thumb_suffix" (lookup "thumb_suffix" a.args)))))
            (either-Writes ("file" == name)
              (then-Writes ensure_map-Writes (
                then-Writes (write_text_or-Writes "auto" "file_kind" (lookup "kind" a.args))
                  (write_boolean-Writes "generate_thumbnail" (lookup "thumbnail" a.args))))
              (either-Writes ("env" == name)
                (then-Writes ensure_map-Writes (write_first_key-Writes "env_var" (range a.args)))
                same-Writes))))

  -- the changes of all attributes of a field
  unfoldable pub hook_changes : List Attribute → Metadata → Metadata
  hook_changes [] m = m
  hook_changes (a ∷ rest) m = hook_changes rest (hook_change a.name a m)

  pub hook_changes-Writes : (attributes : List Attribute) → Writes (hook_changes attributes)
  unfolding hook_changes
  hook_changes-Writes [] = same-Writes
  hook_changes-Writes (a ∷ rest) =
      then-Writes (hook_change-Writes a.name a) (hook_changes-Writes rest)

  -- a field with its metadata changed, and no error
  abbrev changed : Field → Metadata → Field × Option String
  changed f m = (record f { metadata = m }, none)

  hooks_run :
      (context : List String) (name : String) (a : Attribute) (f : Field)
      → run_hooks (λ h. h.on_field) context (hooks_for (default_hook_registry range) name) a f
        ≡ changed f (hook_change name a f.metadata)
  unfolding run_hooks hooks_for register_all hook_change after ang.Common.Writes.put
  hooks_run context name a f = elim (Bool-cases ("db" == name)) [
    | inl e ↦ rw e refl
    | inr n1 ↦ elim (Bool-cases ("validate" == name)) [
      | inl e ↦ rw (n1, e) refl
      | inr n2 ↦ elim (Bool-cases ("image" == name)) [
        | inl e ↦ rw (n1, n2, e) refl
        | inr n3 ↦ elim (Bool-cases ("file" == name)) [
          | inl e ↦ rw (n1, n2, n3, e) refl
          | inr n4 ↦ elim (Bool-cases ("env" == name)) [
            | inl e ↦ rw (n1, n2, n3, n4, e) refl
            | inr n5 ↦ elim (Bool-cases ("cache" == name)) [
              | inl e ↦ rw (n1, n2, n3, n4, n5, e) refl
              | inr n6 ↦ elim (Bool-cases ("stripe_payment" == name)) [
                | inl e ↦ rw (n1, n2, n3, n4, n5, n6, e) refl
                | inr n7 ↦ rw (n1, n2, n3, n4, n5, n6, n7) refl
              ]
            ]
          ]
        ]
      ]
    ]
  ]

  attributes_run :
      (name : List String) (attributes : List Attribute) (f : Field)
      → run_attributes (λ h. h.on_field) (default_hook_registry range) name attributes f
        ≡ changed f (hook_changes attributes f.metadata)
  unfolding run_attributes hook_changes after
  attributes_run name [] f = refl
  attributes_run name (a ∷ rest) f =
      rw (hooks_run ("hook " ∷ a.name ∷ " on " ∷ name) a.name a f)
        (attributes_run name rest (record f { metadata = hook_change a.name a f.metadata }))

  abbrev pub hooked_field : Field → Field
  hooked_field f = record f { metadata = hook_changes f.attributes f.metadata }

  -- The hooks of a field write to its metadata and report no error.
  pub process_field-hooked :
      (entity : String) (f : Field)
      → process_field (default_hook_registry range) entity f ≡ (hooked_field f, none)
  process_field-hooked entity f = attributes_run _ f.attributes f
