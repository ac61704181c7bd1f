-- ===== src/Text/Search.antt =====
-- Searches for a text in a text.
use Prim.Native.String.{String}
use text.Mathlib.Text.{starts_with}
use ang.Common.{◌≡◌, refl, Bool, true, false, ◌||◌, ◌==◌}

-- `strings.Contains`
unfoldable pub contains_text : String → String → Bool
contains_text String.[] t = t == ""
contains_text (String.◌∷◌ c s) t = starts_with (String.◌∷◌ c s) t || contains_text s t

finds : contains_text "min=1,omitempty" "omitempty" ≡ true
unfolding contains_text
finds = refl

misses : contains_text "required" "omitempty" ≡ false
unfolding contains_text
misses = refl
