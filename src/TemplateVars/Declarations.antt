-- ===== src/TemplateVars/Declarations.antt =====
-- The declarations of variables that validateTemplateVarLists accepts.
use ang.Common.{
  String, Bool, true, false, ◌||◌, List, [], ◌∷◌, ◌≡◌, ◌↔◌, refl, arith, eq_iff, contains, All, sym,
  ◌∙◌,
}
use ang.Semantics.Checks.{append-nil_iff}
use ang.TemplateVars.{check_required, check_optional, validate_template_var_lists}

-- no variable stands twice
abbrev pub IsDistinct : List String → Type 0
IsDistinct [] = Unit
IsDistinct (v ∷ vars) = (contains vars v ≡ false) × IsDistinct vars

-- none of the variables is in the list
abbrev pub AreOutside : List String → List String → Type 0
AreOutside seen vars = All (λ v. contains seen v ≡ false) vars

AreOutside-cons :
    (v : String) (seen vars : List String)
    → AreOutside (v ∷ seen) vars ↔ ((contains vars v ≡ false) × AreOutside seen vars)
unfolding contains
AreOutside-cons v seen [] = (λ _. (refl, tt), λ _. tt)
AreOutside-cons v seen (w ∷ vars) =
    ground (arith, AreOutside-cons v seen vars, eq_iff v w, eq_iff w v)

module _ (is_path : String → Bool) (id : String) where
  abbrev pub ArePaths : List String → Type 0
  ArePaths vars = All (λ v. is_path v ≡ true) vars

  required-nil_iff :
      (seen vars : List String)
      → ((check_required is_path id seen vars).errors ≡ [])
        ↔ (ArePaths vars × IsDistinct vars × AreOutside seen vars)
  unfolding check_required
  required-nil_iff seen [] = (λ _. (tt, tt, tt), λ _. refl)
  required-nil_iff seen (v ∷ vars) =
      ground (arith, required-nil_iff (v ∷ seen) vars, AreOutside-cons v seen vars)

  optional-nil_iff :
      (required seen vars : List String)
      → (check_optional is_path id required seen vars ≡ [])
        ↔ (ArePaths vars × IsDistinct vars × AreOutside seen vars × AreOutside required vars)
  unfolding check_optional
  optional-nil_iff required seen [] = (λ _. (tt, tt, tt, tt), λ _. refl)
  optional-nil_iff required seen (v ∷ vars) =
      ground (arith, optional-nil_iff required (v ∷ seen) vars, AreOutside-cons v seen vars)

  required-seen :
      (seen vars : List String) (x : String)
      → ArePaths vars
      → contains (check_required is_path id seen vars).seen x ≡ (contains vars x || contains seen x)
  unfolding check_required contains
  required-seen seen [] x p = refl
  required-seen seen (v ∷ vars) x p = ground (arith, required-seen (v ∷ seen) vars x)

  AreOutside-nil : (vars : List String) → AreOutside [] vars
  unfolding contains
  AreOutside-nil [] = tt
  AreOutside-nil (v ∷ vars) = (refl, AreOutside-nil vars)

  AreOutside-same :
      (xs ys vars : List String)
      → ((x : String) → contains xs x ≡ contains ys x)
      → AreOutside xs vars
      → AreOutside ys vars
  AreOutside-same xs ys [] h a = tt
  AreOutside-same xs ys (v ∷ vars) h a = (sym (h v) ∙ a.0, AreOutside-same xs ys vars h a.1)

  abbrev pub AreDeclared : (required optional : List String) → Type 0
  AreDeclared required optional =
      ArePaths required
      × IsDistinct required
      × ArePaths optional
      × IsDistinct optional
      × AreOutside required optional

  required-seen_all :
      (required : List String) (x : String)
      → ArePaths required
      → contains (check_required is_path id [] required).seen x ≡ contains required x
  unfolding contains
  required-seen_all required x p = ground (arith, required-seen [] required x p)

  -- The declared variables of a template are accepted exactly if each is written as a path, none is
  -- declared twice, and none is both required and optional.
  pub validate_template_var_lists-nil_iff :
      (required optional : List String)
      → (validate_template_var_lists is_path id required optional ≡ [])
        ↔ AreDeclared required optional
  unfolding validate_template_var_lists
  validate_template_var_lists-nil_iff required optional =
      let c = check_required is_path id [] required in
      let split = append-nil_iff c.errors (check_optional is_path id c.seen [] optional) in
      (
        λ e.
            let (r, o) = split.0 e in
            let (paths, distinct, _) = (required-nil_iff [] required).0 r in
            let (paths', distinct', _, apart) = (optional-nil_iff c.seen [] optional).0 o in
            (
              paths,
              distinct,
              paths',
              distinct',
              AreOutside-same c.seen required optional (λ x. required-seen_all required x paths)
                  apart,
            ),
        λ d.
            let (paths, distinct, paths', distinct', apart) = d in
            split.1 (
              (required-nil_iff [] required).1 (paths, distinct, AreOutside-nil required),
              (optional-nil_iff c.seen [] optional).1 (
                paths',
                distinct',
                AreOutside-nil optional,
                AreOutside-same required c.seen optional
                    (λ x. sym (required-seen_all required x paths)) apart,
              ),
            ),
      )
