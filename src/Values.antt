-- ===== src/Values.antt =====
-- Values of Go's types that hold data of several packages: JSON values, metadata, numbers.
use ang.Common.{ℕ, String, Bool, true, false, Option, none, some, List, []}
use ang.Common.Writes.{put}
use ang.Common.Int.{ℤ}

-- A float64 is the number whose 64 bits it has, a float32 that of its 32 bits.
abbrev pub Float64 : Type 0
Float64 = ℕ

-- A value of type `any`. A value that is none of JSON's is known by the name of its type.
mutual
  pub data Json : Type 0 where
    null : Json
    boolean : Bool → Json
    number : ℤ → Json
    float32 : ℕ → Json
    float64 : Float64 → Json
    text : String → Json
    array : JsonItems → Json
    object : JsonMembers → Json
    foreign : (type_name : String) → Json

  pub data JsonItems : Type 0 where
    nil : JsonItems
    item : Json → JsonItems → JsonItems

  pub data JsonMembers : Type 0 where
    end : JsonMembers
    member : String → Json → JsonMembers → JsonMembers

-- `map[string]any`, which is nil or a map
abbrev pub Metadata : Type 0
Metadata = Option (List (String × Json))

-- the entries of a map, of which a nil map has none
unfoldable pub entries : Metadata → List (String × Json)
entries none = []
entries (some m) = m

-- `m[key] = value`, after a map has been made of a nil one
abbrev pub write : String → Json → Metadata → Metadata
write key value m = some (put key value (entries m))

-- `v, _ := value.(string)`
unfoldable pub string_of : Option Json → String
string_of (some (Json.text s)) = s
string_of v = ""

-- `_, ok := m[key]`, given what is there
abbrev pub is_there {ℓ} : {A : Type ℓ} → Option A → Bool
is_there none = false
is_there (some v) = true
