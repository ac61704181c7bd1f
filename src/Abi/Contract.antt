-- ===== src/Abi/Contract.antt =====
-- What the contract accepts.
use ang.Common.{
  ◌≡◌, ◌↔◌, inl, inr, refl, ℕ, suc, String, Bool, true, false, Option, none, some, List, [], ◌∷◌,
  ◌==◌, All, eq_iff, Bool-cases, if◌then◌else◌,
}
use ang.Values.{Json, JsonItems, JsonMembers, Metadata}
use ang.Ir.{Schema, Entity, Field, Service, Method, Source, Event, Endpoint}
use ang.Abi.{
  is_non_finite32, is_non_finite64, first_of, validate_json_value, validate_items, validate_members,
  members_of, validate_metadata, first_error, validate_entity, validate_service, validate_field,
  validate_method, validate_source, validate_event, validate_endpoint_metadata, validate_abi_v2,
  validate_parts,
}

-- The value is one of JSON's: its floats are finite, and no part of it has another type.
abbrev mutual
  pub IsJson : Json → Type 0
  IsJson Json.null = Unit
  IsJson (Json.boolean b) = Unit
  IsJson (Json.number n) = Unit
  IsJson (Json.float32 x) = is_non_finite32 x ≡ false
  IsJson (Json.float64 x) = is_non_finite64 x ≡ false
  IsJson (Json.text s) = Unit
  IsJson (Json.array items) = AreItems items
  IsJson (Json.object members) = AreMembers members
  IsJson (Json.foreign type) = ⊥

  pub AreItems : JsonItems → Type 0
  AreItems JsonItems.nil = Unit
  AreItems (JsonItems.item v items) = IsJson v × AreItems items

  pub AreMembers : JsonMembers → Type 0
  AreMembers JsonMembers.end = Unit
  AreMembers (JsonMembers.member k v members) = IsJson v × AreMembers members

-- The metadata is nil, or all its values are JSON's.
abbrev pub IsJsonMap : Metadata → Type 0
IsJsonMap none = Unit
IsJsonMap (some m) = All (λ (e : String × Json). IsJson e.1) m

abbrev pub HasJson : Schema → Type 0
HasJson s =
    IsJsonMap s.metadata
    × (All
          (λ (e : Entity).
            IsJsonMap e.metadata × All (λ (f : Field). IsJsonMap f.metadata) e.fields)
          s.entities
        × (All
              (λ (v : Service).
                IsJsonMap v.metadata
                × All
                    (λ (m : Method).
                      IsJsonMap m.metadata × All (λ (c : Source). IsJsonMap c.metadata) m.sources)
                    v.methods)
              s.services
            × (All (λ (e : Event). IsJsonMap e.metadata) s.events
                × All (λ (e : Endpoint). IsJsonMap e.metadata) s.endpoints)))

first_of_iff :
    {A B : Type 0} (a b : Option String)
    → ((a ≡ none) ↔ A)
    → ((b ≡ none) ↔ B)
    → (first_of a b ≡ none) ↔ (A × B)
unfolding first_of
first_of_iff none b f g = (λ e. (f.0 refl, g.0 e), λ p. g.1 p.1)
first_of_iff (some err) b f g = (λ e. cc e, λ p. cc (f.1 p.0))

first_error_iff :
    {A : Type 0} {P : A → Type 0} (check : ℕ → A → Option String)
    → ((i : ℕ) (x : A) → (check i x ≡ none) ↔ P x)
    → (i : ℕ) (xs : List A) → (first_error check i xs ≡ none) ↔ All P xs
unfolding first_error
first_error_iff check h i [] = (λ e. tt, λ t. refl)
first_error_iff check h i (x ∷ xs) =
    first_of_iff (check i x) _ (h i x) (first_error_iff check h (suc i) xs)

complaint_iff : (b : Bool) (m : String) → ((if b then some m else none) ≡ none) ↔ (b ≡ false)
complaint_iff true m = (λ e. cc e, λ e. cc e)
complaint_iff false m = (λ e. refl, λ e. refl)

mutual
  unfolding validate_json_value

  json_iff : (v : Json) (path : String) → (validate_json_value v path ≡ none) ↔ IsJson v
  json_iff Json.null path = (λ e. tt, λ t. refl)
  json_iff (Json.boolean b) path = (λ e. tt, λ t. refl)
  json_iff (Json.number n) path = (λ e. tt, λ t. refl)
  json_iff (Json.float32 x) path = complaint_iff (is_non_finite32 x) _
  json_iff (Json.float64 x) path = complaint_iff (is_non_finite64 x) _
  json_iff (Json.text s) path = (λ e. tt, λ t. refl)
  json_iff (Json.array items) path = items_iff items path 0
  json_iff (Json.object members) path = members_iff members path
  json_iff (Json.foreign type) path = (λ e. cc e, λ h. absurd h)

  items_iff :
      (items : JsonItems) (path : String) (i : ℕ)
      → (validate_items items path i ≡ none) ↔ AreItems items
  items_iff JsonItems.nil path i = (λ e. tt, λ t. refl)
  items_iff (JsonItems.item v items) path i =
      first_of_iff _ _ (json_iff v _) (items_iff items path (suc i))

  members_iff :
      (members : JsonMembers) (path : String)
      → (validate_members members path ≡ none) ↔ AreMembers members
  members_iff JsonMembers.end path = (λ e. tt, λ t. refl)
  members_iff (JsonMembers.member k v members) path =
      first_of_iff _ _ (json_iff v _) (members_iff members path)

members_of_iff :
    (m : List (String × Json))
    → AreMembers (members_of m) ↔ All (λ (e : String × Json). IsJson e.1) m
unfolding members_of
members_of_iff [] = (λ t. t, λ t. t)
members_of_iff ((k, v) ∷ m) =
    let rest = members_of_iff m in (λ h. (h.0, rest.0 h.1), λ h. (h.0, rest.1 h.1))

metadata_iff : (m : Metadata) (path : String) → (validate_metadata m path ≡ none) ↔ IsJsonMap m
unfolding validate_metadata
metadata_iff none path = (λ e. tt, λ t. refl)
metadata_iff (some m) path =
    let inner = json_iff (Json.object (members_of m)) path in
    let outer = members_of_iff m in (λ e. outer.0 (inner.0 e), λ h. inner.1 (outer.1 h))

pub parts_iff : (s : Schema) → (validate_parts s ≡ none) ↔ HasJson s
parts_iff s = first_of_iff _ _ (metadata_iff s.metadata _) (
    first_of_iff _ _
      (first_error_iff (validate_entity)
        (λ i e.
          first_of_iff _ _ (metadata_iff e.metadata _)
            (first_error_iff (validate_field i) (λ j f. metadata_iff f.metadata _) 0 e.fields))
        0 s.entities)
      (first_of_iff _ _
        (first_error_iff (validate_service)
          (λ i v. first_of_iff _ _ (metadata_iff v.metadata _) (
            first_error_iff (validate_method i)
              (λ j m. first_of_iff _ _ (metadata_iff m.metadata _) (
                first_error_iff (validate_source i j) (λ k c. metadata_iff c.metadata _) 0
                  m.sources))
              0 v.methods))
          0 s.services)
        (first_of_iff _ _
          (first_error_iff (validate_event) (λ i e. metadata_iff e.metadata _) 0 s.events)
          (first_error_iff (validate_endpoint_metadata) (λ i e. metadata_iff e.metadata _) 0
            s.endpoints))))

-- ValidateABIV2 finds no error in a schema exactly if the schema has the current version and all the
-- metadata of the schema, of its entities, their fields, its services, their methods and sources, its
-- events and its endpoints hold JSON values only, with finite numbers.
pub validate_abi_v2-HasJson :
    (s : Schema) → (validate_abi_v2 (some s) ≡ none) ↔ ((s.ir_version ≡ "2") × HasJson s)
unfolding validate_abi_v2
validate_abi_v2-HasJson s = elim (Bool-cases (s.ir_version == "2")) [
  | inl v ↦ rw v (λ e. ((eq_iff s.ir_version "2").0 v, (parts_iff s).0 e), λ h. (parts_iff s).1 h.1)
  | inr v ↦ rw v (λ e. cc e, λ h. cc (v, (eq_iff s.ir_version "2").1 h.0))
]
