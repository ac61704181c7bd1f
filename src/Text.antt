-- ===== src/Text.antt =====
-- The functions of Go's package `strings` that the compiler calls. A Go string is a native
-- `String`. Letter case is mapped for the letters of ASCII, and other characters are kept.
pub mod Prefixes
pub mod Numbers
pub mod Search
pub mod Trimming
pub mod Pieces
use Prim.Native.Char.{Char, code, nul}
use Prim.Native.Nat.{◌/◌, ◌%◌}
use Prim.Native.String.{String, ◌++◌}
use text.Mathlib.Text.{starts_with}
use ang.Common.{
  zero, suc, ltb, ℕ, ◌≡◌, refl, Bool, ◌&&◌, ◌||◌, List, [], ◌∷◌, ◌==◌, leb, eqb, if◌then◌else◌,
}

-- `unicode.IsSpace`
pub is_space : ℕ → Bool
is_space c =
    leb 9 c && leb c 13
    || eqb c 32
    || eqb c 0x85
    || eqb c 0xa0
    || eqb c 0x1680
    || leb 0x2000 c && leb c 0x200a
    || eqb c 0x2028
    || eqb c 0x2029
    || eqb c 0x202f
    || eqb c 0x205f
    || eqb c 0x3000

trim_left : String → String
unfolding is_space
trim_left String.[] = ""
trim_left (String.◌∷◌ c s) = if is_space (code c) then trim_left s else String.◌∷◌ c s

-- one round of trimming from the right, given the rest trimmed
keep_unless_last : Char → String → String
unfolding is_space
keep_unless_last c String.[] = if is_space (code c) then "" else String.◌∷◌ c ""
keep_unless_last c (String.◌∷◌ d s) = String.◌∷◌ c (String.◌∷◌ d s)

trim_right : String → String
unfolding keep_unless_last
trim_right String.[] = ""
trim_right (String.◌∷◌ c s) = keep_unless_last c (trim_right s)

-- `strings.TrimSpace`
unfoldable pub trim_space : String → String
unfolding trim_left trim_right
trim_space s = trim_right (trim_left s)

-- `c`, or its image under the table that sends each letter of `from` to that of `to`
translate : Char → String → String → Char
translate c (String.◌∷◌ a from) (String.◌∷◌ b to) =
    if eqb (code c) (code a) then b else translate c from to
translate c from to = c

map_chars : String → String → String → String
unfolding translate
map_chars from to String.[] = ""
map_chars from to (String.◌∷◌ c s) = String.◌∷◌ (translate c from to) (map_chars from to s)

-- `strings.ToLower`
unfoldable pub to_lower : String → String
unfolding map_chars
to_lower = map_chars "ABCDEFGHIJKLMNOPQRSTUVWXYZ" "abcdefghijklmnopqrstuvwxyz"

-- `strings.ToUpper`
unfoldable pub to_upper : String → String
unfolding map_chars
to_upper = map_chars "abcdefghijklmnopqrstuvwxyz" "ABCDEFGHIJKLMNOPQRSTUVWXYZ"

-- `strings.EqualFold`
unfoldable pub equal_fold : String → String → Bool
unfolding to_lower
equal_fold s t = to_lower s == to_lower t

-- `strings.HasPrefix`
unfoldable pub has_prefix : String → String → Bool
has_prefix s prefix = starts_with s prefix

-- the characters of `s` behind as many as `prefix` has
drop_as_long : String → String → String
drop_as_long (String.◌∷◌ c prefix) (String.◌∷◌ d s) = drop_as_long prefix s
drop_as_long prefix s = s

-- `strings.TrimPrefix`
unfoldable pub trim_prefix : String → String → String
unfolding has_prefix drop_as_long
trim_prefix s prefix = if has_prefix s prefix then drop_as_long prefix s else s

add_to_head : Char → List String → List String
add_to_head c [] = String.◌∷◌ c "" ∷ []
add_to_head c (piece ∷ pieces) = String.◌∷◌ c piece ∷ pieces

-- `strings.Split` at a separator of one character, given by its code
unfoldable pub split : String → ℕ → List String
unfolding add_to_head
split String.[] sep = "" ∷ []
split (String.◌∷◌ c s) sep =
    let rest = split s sep in if eqb (code c) sep then "" ∷ rest else add_to_head c rest

-- `strings.ReplaceAll(s, x, "")` for an `x` of one character, given by its code
unfoldable pub remove_all : String → ℕ → String
remove_all String.[] x = ""
remove_all (String.◌∷◌ c s) x =
    let rest = remove_all s x in if eqb (code c) x then rest else String.◌∷◌ c rest

-- the pieces of a text that Go builds by `+` or by `fmt.Sprintf`
unfoldable pub concat : List String → String
concat [] = ""
concat (s ∷ pieces) = s ++ concat pieces

-- `strings.Join`
unfoldable pub join : List String → String → String
join [] sep = ""
join (s ∷ []) sep = s
join (s ∷ t ∷ pieces) sep = s ++ (sep ++ join (t ∷ pieces) sep)

hex_digit : ℕ → String → Char
hex_digit n String.[] = nul
hex_digit zero (String.◌∷◌ c digits) = c
hex_digit (suc n) (String.◌∷◌ c digits) = hex_digit n digits

hex : ℕ → Char
unfolding hex_digit
hex n = hex_digit n "0123456789abcdef"

-- the escape of one character in a quoted text
quote_char : Char → String
unfolding hex
quote_char c =
    let n = code c in
    if eqb n 34
    then "\\\""
    else if eqb n 92
    then "\\\\"
    else if eqb n 7
    then "\\a"
    else if eqb n 8
    then "\\b"
    else if eqb n 12
    then "\\f"
    else if eqb n 10
    then "\\n"
    else if eqb n 13
    then "\\r"
    else if eqb n 9
    then "\\t"
    else if eqb n 11
    then "\\v"
    else if ltb n 32 || eqb n 127
    then "\\x" ++ String.◌∷◌ (hex (n / 16)) (String.◌∷◌ (hex (n % 16)) "")
    else String.◌∷◌ c ""

quote_chars : String → String
unfolding quote_char
quote_chars String.[] = ""
quote_chars (String.◌∷◌ c s) = quote_char c ++ quote_chars s

-- `%q`, where the characters beyond ASCII are printable
unfoldable pub quote : String → String
unfolding quote_chars
quote s = "\"" ++ (quote_chars s ++ "\"")

quotes : quote "a\"\n" ≡ "\"a\\\"\\n\""
unfolding quote
quotes = refl

trims_and_lowers : to_lower (trim_space "  Ab C ") ≡ "ab c"
unfolding to_lower trim_space
trims_and_lowers = refl

splits_pairs : split "a=b,,c" b',' ≡ "a=b" ∷ "" ∷ "c" ∷ []
unfolding split
splits_pairs = refl

trims_prefix : trim_prefix "_then" "_" ≡ "then"
unfolding trim_prefix
trims_prefix = refl
