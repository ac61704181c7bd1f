-- ===== src/RoundTrip/Types.antt =====
-- The Go types of fields there and back.
use Prim.Native.String.{String, ◌++◌}
use ang.Common.{
  ◌≡◌, ◌≢◌, inl, inr, refl, ap, Bool, true, false, List, [], ◌∷◌, ◌==◌, Memᴰ, All, All-mem, eq_iff,
  Bool-cases, if◌then◌else◌,
}
use ang.Text.Prefixes.{
  trim_prefix-append, has_prefix-append, other_prefix, longer_than_prefix, without_prefix,
}
use ang.Text.{trim_space, has_prefix}
use ang.Convert.{
  infer_type, infer_kind, clean_type_name, has_proper_prefix, item_type_of, single, plain_type,
}
use ang.Restore.{go_type, plain_go_type, is_list_type, restore_item_type_name}

-- the types that Go and the representation both have
abbrev scalars : List String
scalars =
    "string" ∷ "int" ∷ "int64" ∷ "float64" ∷ "bool" ∷ "time.Time" ∷ "json.RawMessage" ∷ "any" ∷ []

-- A type of the list above, or an entity by its name.
pub data IsGoType : String → Type 0 where
  scalar : {t : String} → Memᴰ t scalars → IsGoType t
  entity : (x : String) → x ≢ "" → IsGoType ("domain." ++ x)

-- The type is written without spaces around it: a Go type, or a list of one with its item's name.
pub data IsTyped : String → Bool → String → Type 0 where
  one : {t : String} → IsGoType t → trim_space t ≡ t → IsTyped t false ""
  many :
      {t : String}
      → IsGoType t
      → trim_space ("[]" ++ t) ≡ "[]" ++ t
      → IsTyped ("[]" ++ t) true (clean_type_name t)

infer_kind_of_entity : (x : String) → x ≢ "" → infer_kind ("domain." ++ x) ≡ "entity"
unfolding infer_kind has_proper_prefix has_prefix
infer_kind_of_entity x n =
    rw
      (
        without_prefix "domain." x "string" refl,
        without_prefix "domain." x "int" refl,
        without_prefix "domain." x "int64" refl,
        without_prefix "domain." x "float64" refl,
        without_prefix "domain." x "bool" refl,
        without_prefix "domain." x "time.Time" refl,
        without_prefix "domain." x "json.RawMessage" refl,
        without_prefix "domain." x "any" refl,
        without_prefix "domain." x "interface{}" refl,
        has_prefix-append "domain." x,
        longer_than_prefix "domain." x n,
      )
      refl

clean_type_name_of_entity : (x : String) → x ≢ "" → clean_type_name ("domain." ++ x) ≡ x
unfolding clean_type_name has_proper_prefix
clean_type_name_of_entity x n =
    rw (has_prefix-append "domain." x, longer_than_prefix "domain." x n)
      (trim_prefix-append "domain." x)

-- what a type that is no list is read as, and written as
abbrev Kept : String → Type 0
Kept t = (own : String) → go_type (plain_type (infer_kind t) own) ≡ t

scalars-Kept : All Kept scalars
unfolding go_type plain_go_type infer_kind
scalars-Kept = (
  λ o. refl,
  (λ o. refl, (λ o. refl, (λ o. refl, (λ o. refl, (λ o. refl, (λ o. refl, (λ o. refl, tt))))))),
)

entity_kept : (x : String) → x ≢ "" → go_type (plain_type "entity" x) ≡ "domain." ++ x
unfolding go_type plain_go_type
entity_kept x n = elim (Bool-cases (x == "")) [
  | inl e ↦ absurd (n ((eq_iff x "").0 e))
  | inr e ↦ rw e refl
]

item_kept : {t : String} → IsGoType t → go_type (plain_type (infer_kind t) (clean_type_name t)) ≡ t
item_kept (scalar m) = All-mem Kept scalars scalars-Kept m _
item_kept (entity x n) =
    rw (infer_kind_of_entity x n, clean_type_name_of_entity x n) (entity_kept x n)

single_kept : {t : String} → IsGoType t → go_type (single t) ≡ t
single_kept (scalar m) = All-mem Kept scalars scalars-Kept m _
single_kept (entity x n) =
    rw (infer_kind_of_entity x n, clean_type_name_of_entity x n) (entity_kept x n)

-- What tells a Go type that is no list from one that is.
record IsSingle (t : String) : Type 0 where
  filled : t ≢ ""
  unlisted : has_prefix t "[]" ≡ false
  not_list : (infer_kind t == "list") ≡ false

check :
    {t : String}
    → (t == "") ≡ false
    → has_prefix t "[]" ≡ false
    → (infer_kind t == "list") ≡ false
    → IsSingle t
check e p k = record { filled = λ q. cc (e, (eq_iff _ "").1 q); unlisted = p; not_list = k }

scalars_single : All IsSingle scalars
unfolding infer_kind has_prefix has_proper_prefix
scalars_single = (
  check refl refl refl,
  (
    check refl refl refl,
    (
      check refl refl refl,
      (
        check refl refl refl,
        (
          check refl refl refl,
          (check refl refl refl, (check refl refl refl, (check refl refl refl, tt))),
        ),
      ),
    ),
  ),
)

entity_unlisted : (x : String) → has_prefix ("domain." ++ x) "[]" ≡ false
entity_unlisted x = other_prefix _ _ "omain." "]" x refl

IsGoType-IsSingle : {t : String} → IsGoType t → IsSingle t
unfolding has_prefix
IsGoType-IsSingle (scalar m) = All-mem IsSingle scalars scalars_single m
IsGoType-IsSingle (entity x n) =
    check (without_prefix "domain." x "" refl) (entity_unlisted x)
      (rw (infer_kind_of_entity x n) refl)

item_type_of_list : (t : String) → t ≢ "" → item_type_of ("[]" ++ t) ≡ t
unfolding item_type_of has_proper_prefix
item_type_of_list t n =
    rw (has_prefix-append "[]" t, longer_than_prefix "[]" t n) (trim_prefix-append "[]" t)

own_name : (s : String) → (if s == "" then s else s) ≡ s
own_name s = elim (Bool-cases (s == "")) [ inl e ↦ rw e refl | inr e ↦ rw e refl ]

-- What a field's type says is the same after the conversion and the way back.
pub record KeepsType (type : String) (is_list : Bool) (item_type_name : String) : Type 0 where
  pub written : go_type (infer_type type is_list item_type_name) ≡ type
  pub listed : is_list_type (infer_type type is_list item_type_name) ≡ is_list
  pub named : restore_item_type_name (infer_type type is_list item_type_name) ≡ item_type_name

-- A type keeps its text, whether it is a list, and the name of its items.
pub go_type-infer_type :
    {type : String} {is_list : Bool} {item_type_name : String}
    → IsTyped type is_list item_type_name
    → KeepsType type is_list item_type_name
unfolding infer_type restore_item_type_name go_type is_list_type
go_type-infer_type (one g t) = record {
  written = rw (t, (IsGoType-IsSingle g).unlisted) (single_kept g);
  listed = rw (t, (IsGoType-IsSingle g).unlisted) (IsGoType-IsSingle g).not_list;
  named = rw (t, (IsGoType-IsSingle g).unlisted) refl;
}
go_type-infer_type (many {t} g s) = record {
  written =
      rw (s, item_type_of_list t (IsGoType-IsSingle g).filled, own_name (clean_type_name t))
        (ap (λ u. "[]" ++ u) (item_kept g));
  listed = refl;
  named = rw (s, item_type_of_list t (IsGoType-IsSingle g).filled) (own_name (clean_type_name t));
}
