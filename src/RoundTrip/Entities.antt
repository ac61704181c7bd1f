-- ===== src/RoundTrip/Entities.antt =====
-- Entities, events and errors there and back.
use ang.Common.{◌≡◌, ◌≢◌, refl, Option, none, some, List, [], ◌∷◌, map, All, All_trivial}
use ang.Normalizer.{Field, Fsm, IndexDef, CrudDef, EntityUiDef, Entity, EventDef, ErrorDef}
use ang.Convert.{
  convert_field, convert_crud, convert_crud_def, convert_fsm, convert_index, convert_entity,
  convert_event, convert_error,
}
use ang.Restore.{
  restore_field, restore_crud, restore_fsm, restore_index, restore_entity, restore_event,
  restore_error,
}
use ang.RoundTrip.Fields.{IsField, restore_field-convert_field}

-- If each of some values comes back, so does their list.
pub map-map_fixed {ℓ κ μ} :
    {A : Type ℓ} {B : Type κ} {P : A → Type μ} (f : A → B) (g : B → A)
    → ((x : A) → P x → g (f x) ≡ x)
    → (xs : List A) → All P xs
    → map g (map f xs) ≡ xs
map-map_fixed f g h [] a = refl
map-map_fixed f g h (x ∷ xs) a = rw (h x a.0, map-map_fixed f g h xs a.1) refl

-- The hints for the user interface of an entity, if there are any, say what is offered.
abbrev pub HasCrud : Option EntityUiDef → Type 0
HasCrud none = Unit
HasCrud (some ui) = ui.crud ≢ none

crud_def :
    (c : Option CrudDef) → c ≢ none → restore_crud (convert_crud_def c) ≡ some record { crud = c }
unfolding restore_crud convert_crud_def
crud_def none n = absurd (n refl)
crud_def (some c) n = refl

crud : (ui : Option EntityUiDef) → HasCrud ui → restore_crud (convert_crud ui) ≡ ui
unfolding restore_crud convert_crud
crud none h = refl
crud (some ui) h = crud_def ui.crud h

fsm : (f : Option Fsm) → restore_fsm (convert_fsm f) ≡ f
unfolding restore_fsm convert_fsm
fsm none = refl
fsm (some f) = refl

indexes : (is : List IndexDef) → map restore_index (map convert_index is) ≡ is
indexes is = map-map_fixed convert_index restore_index (λ i u. refl) is (All_trivial is)

pub fields_kept : (fs : List Field) → All IsField fs → map restore_field (map convert_field fs) ≡ fs
fields_kept fs h = map-map_fixed convert_field restore_field restore_field-convert_field fs h

-- An entity that the way back can give again as it was.
pub record IsEntity (e : Entity) : Type 0 where
  pub fields : All IsField e.fields
  pub crud : HasCrud e.ui

pub restore_entity-convert_entity :
    (e : Entity) → IsEntity e → restore_entity (convert_entity e) ≡ e
unfolding restore_entity convert_entity
restore_entity-convert_entity e h =
    rw (fields_kept e.fields h.fields, fsm e.fsm, indexes e.indexes, crud e.ui h.crud) refl

restore_event-convert_event :
    (e : EventDef) → All IsField e.fields → restore_event (convert_event e) ≡ e
unfolding restore_event convert_event
restore_event-convert_event e h = rw (fields_kept e.fields h) refl

restore_error-convert_error : (e : ErrorDef) → restore_error (convert_error e) ≡ e
unfolding restore_error convert_error
restore_error-convert_error e = refl
