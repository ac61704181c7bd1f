-- ===== src/Projections/Selection.antt =====
-- What projectionFieldsForSelect gives for the columns of a select.
use mathlib.Core.List.{append-nil}
use text.Mathlib.TextPositions.{eq_refl}
use ang.Common.{
  ◌≡◌, ◌⊎◌, refl, ap, sym, subst, ◌∙◌, String, Bool, true, false, not, ◌&&◌, ◌||◌, none, some, List,
  [], ◌∷◌, ◌++◌, map, inl, inr, Bool-cases, contains, is_empty, All, Perm, eq_iff, ◌==◌, arith,
}
use Prim.Native.String.{compare}
use text.Mathlib.Text.{is_le}
use ang.Common.Sorting.{sort}
use ang.Text.{concat, join}
use ang.Normalizer.{Entity, Field}
use ang.Projections.Tokens.{canonical_field_token}
use ang.Projections.Fields.{
  add_keys, token_of, take_fields, Selection, selection_of, projection_fields_for_select,
}
use ang.Projections.Keys.{is_selected, add_keys-AreDistinct, contains-add_keys}
use ang.Projections.Counting.{has_token, AreDistinct, take_fields-Perm, left_iff}

-- some column has a token
abbrev pub any_token : List String → Bool
any_token [] = false
any_token (col ∷ cols) = not (canonical_field_token col == "") || any_token cols

-- The column has no token, or that of a field of the domain.
abbrev pub is_column : List Field → String → Bool
is_column fs col = canonical_field_token col == "" || has_token (canonical_field_token col) fs

-- Some column has a token, and each such token is that of a field of the domain.
abbrev pub Selects : List Field → List String → Type 0
Selects fs cols = (any_token cols ≡ true) × All (λ col. is_column fs col ≡ true) cols

-- What is returned: fields whose tokens are those of the columns, each once, and their names.
pub record IsSelection (src : Entity) (cols : List String) (s : Selection) : Type 0 where
  pub tokens : Perm (map token_of s.fields) (add_keys [] cols)
  pub distinct : AreDistinct (add_keys [] cols)
  pub selected : (k : String) → contains (add_keys [] cols) k ≡ is_selected k cols
  pub names : s.ordered_cols ≡ map (λ (f : Field). f.name) s.fields

selected_has_token :
    (fs : List Field) (cols : List String) (k : String)
    → All (λ col. is_column fs col ≡ true) cols
    → is_selected k cols ≡ true
    → has_token k fs ≡ true
selected_has_token fs [] k h e = cc
selected_has_token fs (col ∷ cols) k h e = elim (Bool-cases (is_selected k cols)) [
  | inl later ↦ selected_has_token fs cols k h.1 later
  | inr n ↦
      let token = canonical_field_token col in
      let same : token ≡ k = (eq_iff token k).0 (ground arith) in
      let named : (k == "") ≡ false = ground arith in
      subst (λ x. has_token x fs ≡ true) same
        (let other : (token == "") ≡ false = rw same named in ground arith)
]

any_selected :
    (cols : List String) → any_token cols ≡ true → (k : String) × (is_selected k cols ≡ true)
any_selected [] e = cc
any_selected (col ∷ cols) e = elim (Bool-cases (canonical_field_token col == "")) [
  | inl blank ↦ let (k, h) = any_selected cols (rw blank at e) in (k, ground arith)
  | inr named ↦ (canonical_field_token col, ground (arith, eq_refl (canonical_field_token col)))
]

selected_any : (cols : List String) (k : String) → is_selected k cols ≡ true → any_token cols ≡ true
selected_any [] k e = cc
selected_any (col ∷ cols) k e = elim (Bool-cases (is_selected k cols)) [
  | inl later ↦ let h = selected_any cols k later in ground arith
  | inr n ↦
      let same : canonical_field_token col ≡ k =
        (eq_iff (canonical_field_token col) k).0 (ground arith) in
      let named : (k == "") ≡ false = ground arith in rw (same, named) refl
]

member : (ks : List String) → is_empty ks ≡ false → (k : String) × (contains ks k ≡ true)
unfolding contains
member [] e = cc
member (k ∷ ks) e = (k, rw (eq_refl k) refl)

no_member : (ks : List String) (k : String) → is_empty ks ≡ true → contains ks k ≡ false
unfolding contains
no_member [] k e = refl
no_member (j ∷ ks) k e = cc

empty_nil : (ks : List String) → is_empty ks ≡ true → ks ≡ []
empty_nil [] e = refl
empty_nil (k ∷ ks) e = cc

-- Each column of the select is one of the entity if each token of the select is.
columns :
    (fs : List Field) (cols : List String)
    → ((k : String) → is_selected k cols ≡ true → has_token k fs ≡ true)
    → All (λ col. is_column fs col ≡ true) cols
columns fs [] h = tt
columns fs (col ∷ cols) h =
    let k = canonical_field_token col in
    (
      elim (Bool-cases (k == "")) [
        | inl blank ↦ rw blank refl
        | inr named ↦ rw (named, h k (ground (arith, eq_refl k))) refl
      ],
      columns fs cols (λ j e. h j (ground arith)),
    )

module _ (entity : String) (cols : List String) (src : Entity) where
  abbrev keys : List String
  keys = add_keys [] cols

  abbrev left : List String
  left = (take_fields keys src.fields).1

  keys-selected : (k : String) → contains keys k ≡ is_selected k cols
  keys-selected k = contains-add_keys [] cols k ∙ (unfold contains in refl)

  left-selected :
      (k : String) → contains left k ≡ (is_selected k cols && not (has_token k src.fields))
  left-selected k =
      left_iff keys src.fields k (add_keys-AreDistinct [] cols tt)
      ∙ ap (λ b. b && not (has_token k src.fields)) (keys-selected k)

  selected_all :
      is_empty left ≡ true
      → (k : String) → is_selected k cols ≡ true
      → has_token k src.fields ≡ true
  selected_all e k s = let none_left = sym (left-selected k) ∙ no_member left k e in ground arith

  abbrev selection : Selection
  selection = record {
    fields = (take_fields keys src.fields).0;
    ordered_cols = map (λ (f : Field). f.name) (take_fields keys src.fields).0;
    key = concat (entity ∷ "|" ∷ join (sort (λ s t. is_le (compare s t)) keys) "," ∷ []);
  }

  tokens-Perm : is_empty left ≡ true → Perm (map token_of selection.fields) keys
  tokens-Perm e =
      subst (λ ks. Perm ks keys)
        (ap (λ ks. map token_of selection.fields ++ ks) (empty_nil left e) ∙ append-nil _)
        (take_fields-Perm keys src.fields)

  done :
      is_empty keys ≡ false
      → is_empty left ≡ true
      → Selects src.fields cols
        × ((s : Selection) × (projection_fields_for_select entity cols src ≡ some s)
            × IsSelection src cols s)
  unfolding projection_fields_for_select selection_of
  done some_key none_left =
      let (k, there) = member keys some_key in
      (
        (
          selected_any cols k (sym (keys-selected k) ∙ there),
          columns src.fields cols (selected_all none_left),
        ),
        (
          selection,
          rw (some_key, none_left) refl,
          record {
            tokens = tokens-Perm none_left;
            distinct = add_keys-AreDistinct [] cols tt;
            selected = keys-selected;
            names = refl;
          },
        ),
      )

  -- projectionFieldsForSelect succeeds exactly if some column of the select has a token and each such
  -- token is that of a field of the entity's domain. It then returns fields whose tokens are those of
  -- the columns, each once, and their names.
  pub projection_fields_for_select-decides :
      (Selects src.fields cols
        × ((s : Selection) × (projection_fields_for_select entity cols src ≡ some s)
            × IsSelection src cols s))
      ⊎ ((Selects src.fields cols → ⊥) × (projection_fields_for_select entity cols src ≡ none))
  unfolding projection_fields_for_select selection_of
  projection_fields_for_select-decides = elim (Bool-cases (is_empty keys)) [
    | inl empty ↦ inr (
      λ h.
          let (k, s) = any_selected cols h.0 in
          cc (sym (no_member keys k empty) ∙ keys-selected k ∙ s),
      rw empty refl,
    )
    | inr some_key ↦ elim (Bool-cases (is_empty left)) [
      | inl none_left ↦ inl (done some_key none_left)
      | inr some_left ↦ inr (
        λ h.
            let (k, there) = member left some_left in
            let e = sym (left-selected k) ∙ there in
            let s : is_selected k cols ≡ true = ground arith in
            let t = selected_has_token src.fields cols k h.1 s in
            let clash : true ≡ false = ground arith in cc clash,
        rw (some_key, some_left) refl,
      )
    ]
  ]
