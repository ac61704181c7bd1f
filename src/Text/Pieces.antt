-- ===== src/Text/Pieces.antt =====
-- The pieces of a text that is split.
use Prim.Native.Char.{code}
use Prim.Native.String.{String}
use ang.Common.{ℕ, ◌≡◌, refl, List, [], ◌∷◌, Bool-cases, inl, inr, eqb}
use ang.Text.{split, add_to_head}

-- There is always a first piece.
pub split_some :
    (s : String) (sep : ℕ) → (part : String) × (parts : List String) × (split s sep ≡ part ∷ parts)
unfolding split add_to_head
split_some String.[] sep = ("", [], refl)
split_some (String.◌∷◌ c s) sep =
    let (part, parts, e) = split_some s sep in
    elim (Bool-cases (eqb (code c) sep)) [
      | inl cut ↦ ("", split s sep, rw cut refl)
      | inr n ↦ (String.◌∷◌ c part, parts, rw (n, e) refl)
    ]
