-- ===== src/Transformers/Writes.antt =====
-- What a loop over attributes writes to metadata.
use ang.Common.{
  ◌≡◌, refl, ap, String, false, none, some, List, [], ◌∷◌, ◌==◌, inl, inr, Bool-cases,
  if◌then◌else◌,
}
use ang.Common.Writes.{put, put_all, put_all_idem}
use ang.Values.{Json, Metadata, entries, write}
use ang.Ir.{Attribute}
use ang.Versioning.Invariants.{IsMade}
use ang.Transformers.Loops.{for_attributes}
use ang.Transformers.Services.{has_attribute}

-- A loop without an attribute of its name changes nothing.
pub for_attributes_none :
    (name : String) (body : Attribute → Metadata → Metadata) (as' : List Attribute) (m : Metadata)
    → has_attribute name as' ≡ false
    → for_attributes name body as' m ≡ m
unfolding for_attributes has_attribute
for_attributes_none name body [] m h = refl
for_attributes_none name body (a ∷ rest) m h = elim (Bool-cases (a.name == name)) [
  | inl e ↦ cc (rw e at h)
  | inr n ↦ rw n (for_attributes_none name body rest m (rw n at h))
]

module _ (name key : String) (value : Attribute → Json) where
  abbrev pub body : Attribute → Metadata → Metadata
  body a m = write key (value a) m

  -- the writes of a loop that sets one key for each attribute of a name
  abbrev pub writes_for : List Attribute → List (String × Json)
  writes_for [] = []
  writes_for (a ∷ rest) =
      if a.name == name then (key, value a) ∷ writes_for rest else writes_for rest

  pub for_attributes-writes :
      (attributes : List Attribute) (m : List (String × Json))
      → for_attributes name body attributes (some m) ≡ some (put_all (writes_for attributes) m)
  unfolding for_attributes put_all entries
  for_attributes-writes [] m = refl
  for_attributes-writes (a ∷ rest) m = elim (Bool-cases (a.name == name)) [
    | inl e ↦ rw e (for_attributes-writes rest (put key (value a) m))
    | inr n ↦ rw n (for_attributes-writes rest m)
  ]

  pub for_attributes_idem :
      (attributes : List Attribute) (m : Metadata)
      → IsMade m
      → for_attributes name body attributes (for_attributes name body attributes m)
        ≡ for_attributes name body attributes m
  for_attributes_idem attributes none h = absurd h
  for_attributes_idem attributes (some m) h =
      let w = for_attributes-writes attributes in
      let ws = writes_for attributes in rw (w m, w (put_all ws m)) (ap some (put_all_idem ws m))

  pub for_attributes-IsMade :
      (attributes : List Attribute) (m : Metadata)
      → IsMade m
      → IsMade (for_attributes name body attributes m)
  for_attributes-IsMade attributes none h = absurd h
  for_attributes-IsMade attributes (some m) h = rw (for_attributes-writes attributes m) tt
