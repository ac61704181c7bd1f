-- ===== src/Versioning/Invariants.antt =====
-- The invariant of a schema whose maps are all made, and what making them leaves as it is.
use ang.Common.{none, some, [], map, ◌≡◌, refl, All, All-map, map-absorb, map-fixed}
use ang.Ir.{Schema, Entity, Field, Service, Method, Source, Event, Endpoint}
use ang.Values.{Metadata}
use ang.Versioning.{
  ensure_map, ensure_field, ensure_entity, ensure_source, ensure_method, ensure_service,
  ensure_event, ensure_endpoint, normalize_v1_invariants,
}

-- The map is not nil.
abbrev pub IsMade : Metadata → Type 0
IsMade none = ⊥
IsMade (some m) = Unit

abbrev pub IsMadeField : Field → Type 0
IsMadeField f = IsMade f.metadata

abbrev pub IsMadeEntity : Entity → Type 0
IsMadeEntity e = IsMade e.metadata × All IsMadeField e.fields

abbrev pub IsMadeSource : Source → Type 0
IsMadeSource s = IsMade s.metadata

abbrev pub IsMadeMethod : Method → Type 0
IsMadeMethod m = IsMade m.metadata × All IsMadeSource m.sources

abbrev pub IsMadeService : Service → Type 0
IsMadeService s = IsMade s.metadata × All IsMadeMethod s.methods

-- None of the maps that the IR calls for is nil. Those of a method's input and output are not
-- among them.
pub record IsNormal (s : Schema) : Type 0 where
  pub schema : IsMade s.metadata
  pub entities : All IsMadeEntity s.entities
  pub services : All IsMadeService s.services
  pub events : All (λ (e : Event). IsMade e.metadata) s.events
  pub endpoints : All (λ (e : Endpoint). IsMade e.metadata) s.endpoints

ensure_map-IsMade : (m : Metadata) → IsMade (ensure_map m)
unfolding ensure_map
ensure_map-IsMade none = tt
ensure_map-IsMade (some m) = tt

ensure_map-made : (m : Metadata) → IsMade m → ensure_map m ≡ m
unfolding ensure_map
ensure_map-made none h = absurd h
ensure_map-made (some m) h = refl

pub normalize-IsNormal : (s : Schema) → IsNormal (normalize_v1_invariants s)
normalize-IsNormal s = record {
  schema = ensure_map-IsMade s.metadata;
  entities =
      All-map IsMadeEntity ensure_entity
        (λ e. (
          ensure_map-IsMade e.metadata,
          All-map IsMadeField ensure_field (λ f. ensure_map-IsMade f.metadata) e.fields,
        ))
        s.entities;
  services =
      All-map IsMadeService ensure_service
        (λ v. (
          ensure_map-IsMade v.metadata,
          All-map IsMadeMethod ensure_method
              (λ m. (
                ensure_map-IsMade m.metadata,
                All-map IsMadeSource ensure_source (λ c. ensure_map-IsMade c.metadata) m.sources,
              ))
              v.methods,
        ))
        s.services;
  events =
      All-map (λ (e : Event). IsMade e.metadata) ensure_event (λ e. ensure_map-IsMade e.metadata)
        s.events;
  endpoints =
      All-map (λ (e : Endpoint). IsMade e.metadata) ensure_endpoint
        (λ e. ensure_map-IsMade e.metadata) s.endpoints;
}

pub normalize-fixed : (s : Schema) → IsNormal s → normalize_v1_invariants s ≡ s
normalize-fixed s n =
    rw
      (
        ensure_map-made s.metadata n.schema,
        map-fixed ensure_entity
            (λ e h.
              rw
                (
                  ensure_map-made e.metadata h.0,
                  map-fixed ensure_field (λ f k. rw (ensure_map-made f.metadata k) refl) e.fields
                      h.1,
                )
                refl)
            s.entities n.entities,
        map-fixed ensure_service
            (λ v h.
              rw
                (
                  ensure_map-made v.metadata h.0,
                  map-fixed ensure_method
                      (λ m k.
                        rw
                          (
                            ensure_map-made m.metadata k.0,
                            map-fixed ensure_source (λ c i. rw (ensure_map-made c.metadata i) refl)
                                m.sources k.1,
                          )
                          refl)
                      v.methods h.1,
                )
                refl)
            s.services n.services,
        map-fixed ensure_event (λ e h. rw (ensure_map-made e.metadata h) refl) s.events n.events,
        map-fixed ensure_endpoint (λ e h. rw (ensure_map-made e.metadata h) refl) s.endpoints
            n.endpoints,
      )
      refl

-- A schema as a reader sees it that reads each of these maps through `g`.
module _ (g : Metadata → Metadata) where
  abbrev read_field : Field → Field
  read_field f = record f { metadata = g f.metadata }

  abbrev read_entity : Entity → Entity
  read_entity e = record e { metadata = g e.metadata; fields = map read_field e.fields }

  abbrev read_source : Source → Source
  read_source s = record s { metadata = g s.metadata }

  abbrev read_method : Method → Method
  read_method m = record m { sources = map read_source m.sources; metadata = g m.metadata }

  abbrev read_service : Service → Service
  read_service s = record s { methods = map read_method s.methods; metadata = g s.metadata }

  abbrev read_event : Event → Event
  read_event e = record e { metadata = g e.metadata }

  abbrev read_endpoint : Endpoint → Endpoint
  read_endpoint e = record e { metadata = g e.metadata }

  abbrev pub read : Schema → Schema
  read s = record s {
    entities = map read_entity s.entities;
    services = map read_service s.services;
    events = map read_event s.events;
    endpoints = map read_endpoint s.endpoints;
    metadata = g s.metadata;
  }

  module _ (same : g none ≡ g (some [])) where
    read-ensure_map : (m : Metadata) → g (ensure_map m) ≡ g m
    unfolding ensure_map
    read-ensure_map none = cc
    read-ensure_map (some m) = refl

    -- A reader that cannot tell a nil map from an empty one sees no change.
    pub read-normalize : (s : Schema) → read (normalize_v1_invariants s) ≡ read s
    read-normalize s =
        rw
          (
            read-ensure_map s.metadata,
            map-absorb read_entity ensure_entity
                (λ e.
                  rw
                    (
                      read-ensure_map e.metadata,
                      map-absorb read_field ensure_field (λ f. rw (read-ensure_map f.metadata) refl)
                          e.fields,
                    )
                    refl)
                s.entities,
            map-absorb read_service ensure_service
                (λ v.
                  rw
                    (
                      read-ensure_map v.metadata,
                      map-absorb read_method ensure_method
                          (λ m.
                            rw
                              (
                                read-ensure_map m.metadata,
                                map-absorb read_source ensure_source
                                    (λ c. rw (read-ensure_map c.metadata) refl) m.sources,
                              )
                              refl)
                          v.methods,
                    )
                    refl)
                s.services,
            map-absorb read_event ensure_event (λ e. rw (read-ensure_map e.metadata) refl) s.events,
            map-absorb read_endpoint ensure_endpoint (λ e. rw (read-ensure_map e.metadata) refl)
                s.endpoints,
          )
          refl
