-- ===== src/Text/Trimming.antt =====
-- What is left of a text without the spaces around it.
use Prim.Native.Char.{Char, code}
use Prim.Native.String.append
use Prim.Native.String.{String, ◌++◌}
use ang.Common.{refl, ◌≡◌, ◌≢◌, subst, sym, false}
use ang.Text.{is_space, trim_space, trim_right, trim_left, keep_unless_last}

cons-ne : (c : Char) (s : String) → String.◌∷◌ c s ≢ ""
cons-ne c s e = cc e

keep_unless_last-ne :
    (c : Char) (s : String) → is_space (code c) ≡ false → keep_unless_last c s ≢ ""
unfolding keep_unless_last
keep_unless_last-ne c String.[] n = rw n (cons-ne c "")
keep_unless_last-ne c (String.◌∷◌ d s) n = cons-ne c _

-- A text whose first character is no space is not blank.
pub trim_space-ne :
    (c : Char) (s : String) → is_space (code c) ≡ false → trim_space (String.◌∷◌ c s) ≢ ""
unfolding trim_space trim_left trim_right
trim_space-ne c s n = rw n (keep_unless_last-ne c (trim_right s) n)

pub trim_space-append_ne :
    (c : Char) (p s : String) → is_space (code c) ≡ false → trim_space (String.◌∷◌ c p ++ s) ≢ ""
trim_space-append_ne c p s n =
    subst (λ t. trim_space t ≢ "") (sym (append.cons c p s)) (trim_space-ne c (p ++ s) n)

pub bracket_not_space : is_space (code "[") ≡ false
unfolding is_space
bracket_not_space = refl

pub star_not_space : is_space (code "*") ≡ false
unfolding is_space
star_not_space = refl
