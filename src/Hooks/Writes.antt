-- ===== src/Hooks/Writes.antt =====
-- Changes of metadata that write JSON values, the same whenever they are made.
use ang.Common.{
  ◌≡◌, refl, ap, sym, ◌∙◌, String, Bool, true, false, none, some, List, [], ◌∷◌, ◌++◌, inl, inr,
  ◌==◌, Bool-cases, if◌then◌else◌, All, All-append,
}
use ang.Common.Writes.{put, put_all, put_all_idem, put_all-append}
use ang.Values.{Json, Metadata, entries, write}
use ang.Versioning.Invariants.{IsMade}
use ang.Abi.Contract.{IsJson, IsJsonMap}

abbrev pub AreJson : List (String × Json) → Type 0
AreJson ws = All (λ (e : String × Json). IsJson e.1) ws

-- What a change writes to metadata that are there, which does not depend on them.
pub record Writes (change : Metadata → Metadata) : Type 0 where
  pub writes : List (String × Json)
  pub json : AreJson writes
  pub result : (m : List (String × Json)) → change (some m) ≡ some (put_all writes m)

put-AreJson :
    (k : String) (v : Json) (m : List (String × Json)) → IsJson v → AreJson m → AreJson (put k v m)
unfolding put
put-AreJson k v [] j h = (j, tt)
put-AreJson k v ((i, w) ∷ m) j h = elim (Bool-cases (i == k)) [
  | inl e ↦ rw e (j, h.1)
  | inr n ↦ rw n (h.0, put-AreJson k v m j h.1)
]

put_all-AreJson : (ws m : List (String × Json)) → AreJson ws → AreJson m → AreJson (put_all ws m)
unfolding put_all
put_all-AreJson [] m j h = h
put_all-AreJson ((k, v) ∷ ws) m j h = put_all-AreJson ws (put k v m) j.1 (put-AreJson k v m j.0 h)

pub write-IsJsonMap :
    (k : String) (v : Json) (m : Metadata) → IsJson v → IsJsonMap m → IsJsonMap (write k v m)
unfolding entries
write-IsJsonMap k v none j h = put-AreJson k v [] j tt
write-IsJsonMap k v (some m) j h = put-AreJson k v m j h

pub same-Writes : Writes (λ m. m)
unfolding put_all
same-Writes = record { writes = []; json = tt; result = λ m. refl }

pub write-Writes : (k : String) (v : Json) → IsJson v → Writes (write k v)
unfolding put_all entries
write-Writes k v j = record { writes = (k, v) ∷ []; json = (j, tt); result = λ m. refl }

pub then-Writes : {f g : Metadata → Metadata} → Writes f → Writes g → Writes (λ m. g (f m))
then-Writes {f} {g} w u = record {
  writes = w.writes ++ u.writes;
  json = All-append (λ (e : String × Json). IsJson e.1) w.writes u.writes w.json u.json;
  result = λ m.
      ap g (w.result m)
      ∙ u.result (put_all w.writes m)
      ∙ ap some (sym (put_all-append w.writes u.writes m));
}

pub either-Writes :
    {f g : Metadata → Metadata} (b : Bool)
    → Writes f
    → Writes g
    → Writes (λ m. if b then f m else g m)
either-Writes true w u = w
either-Writes false w u = u

module _ {change : Metadata → Metadata} (w : Writes change) where
  -- A change that is made again changes nothing.
  pub change_idem : (m : Metadata) → IsMade m → change (change m) ≡ change m
  change_idem none h = absurd h
  change_idem (some m) h =
      rw (w.result m, w.result (put_all w.writes m)) (ap some (put_all_idem w.writes m))

  pub change-IsMade : (m : Metadata) → IsMade m → IsMade (change m)
  change-IsMade none h = absurd h
  change-IsMade (some m) h = rw (w.result m) tt

  pub change-IsJsonMap : (m : Metadata) → IsMade m → IsJsonMap m → IsJsonMap (change m)
  change-IsJsonMap none h j = absurd h
  change-IsJsonMap (some m) h j = rw (w.result m) (put_all-AreJson w.writes m w.json j)
