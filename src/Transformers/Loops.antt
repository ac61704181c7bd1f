-- ===== src/Transformers/Loops.antt =====
-- What the transformers and the hooks share: the loop over attributes, and the test for a key.
use ang.Common.{Bool, String, List, [], ◌∷◌, lookup, ◌==◌, if◌then◌else◌}
use ang.Values.{Metadata, entries, is_there}
use ang.Ir.{Attribute}

-- `for _, attr := range attrs { if attr.Name == name { ... } }`, where the body changes metadata
unfoldable pub for_attributes :
    String → (Attribute → Metadata → Metadata) → List Attribute → Metadata → Metadata
for_attributes name body [] m = m
for_attributes name body (a ∷ rest) m =
    for_attributes name body rest (if a.name == name then body a m else m)

-- `_, ok := m[key]` of metadata that may be nil
abbrev pub has_key : String → Metadata → Bool
has_key key m = is_there (lookup key (entries m))
