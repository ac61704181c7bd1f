-- ===== src/Projections/Reruns.antt =====
-- What a second run of synthesizeImplicitProjections does with the finders of the first one.
use ang.Common.{
  ◌≡◌, ◌≢◌, refl, String, true, false, not, ◌||◌, Option, none, some, List, [], ◌∷◌, ◌==◌, inl, inr,
  Bool-cases, is_empty, lookup, length, eqb, eq_iff, All,
}
use ang.Text.{trim_space, concat}
use ang.Text.Trimming.{trim_space-append_ne, bracket_not_space, star_not_space}
use ang.Normalizer.{Entity, RepositoryFinder}
use ang.Projections.Fields.{Selection, projection_fields_for_select}
use ang.Projections.Finders.{
  finder_returns_entity, finder_returns_many, domain_tokens, Synthesis, with_projection,
  name_projection, project_selection, project_finder, project_finders,
  synthesize_implicit_projections,
}

unequal : (s t : String) → s ≢ t → (s == t) ≡ false
unequal s t n = elim (Bool-cases (s == t)) [ inl e ↦ absurd (n ((eq_iff s t).0 e)) | inr e ↦ e ]

module _ (entity : String) (src : Entity) where
  -- The loop leaves the finder as it is, and makes no projection for it.
  abbrev IsSettled : RepositoryFinder → Type 0
  IsSettled f = (y : Synthesis) → project_finder entity src f y ≡ (f, y)

  written-IsSettled :
      (f : RepositoryFinder) → (trim_space f.return_type == "") ≡ false → IsSettled f
  written-IsSettled f w y =
      elim (Bool-cases (is_empty f.select || not (finder_returns_entity f entity))) [
        | inl e ↦ rw e refl
        | inr e ↦ rw (e, w) refl
      ]

  with_projection_written :
      (f : RepositoryFinder) (s : Selection) (name : String)
      → (trim_space (with_projection entity f s name).return_type == "") ≡ false
  unfolding concat
  with_projection_written f s name = elim (Bool-cases (finder_returns_many f entity)) [
    | inl e ↦
        rw e (
          unequal _ "" (trim_space-append_ne "[" "]domain." (concat (name ∷ [])) bracket_not_space))
    | inr e ↦
        rw e (unequal _ "" (trim_space-append_ne "*" "domain." (concat (name ∷ [])) star_not_space))
  ]

  name_projection-IsSettled :
      (f : RepositoryFinder) (s : Selection) (found : Option String) (y : Synthesis)
      → IsSettled (name_projection entity src f s found y).0
  unfolding name_projection
  name_projection-IsSettled f s none y = written-IsSettled _ (with_projection_written f s _)
  name_projection-IsSettled f s (some name) y =
      written-IsSettled _ (with_projection_written f s name)

  project_selection-IsSettled :
      (f : RepositoryFinder) (p : Option Selection) (y : Synthesis)
      → (is_empty f.select || not (finder_returns_entity f entity)) ≡ false
      → (trim_space f.return_type == "") ≡ true
      → projection_fields_for_select entity f.select src ≡ p
      → IsSettled (project_selection entity src f p y).0
  unfolding project_selection
  project_selection-IsSettled f none y c b e = λ z. rw (c, b, e) refl
  project_selection-IsSettled f (some s) y c b e =
      elim (Bool-cases (eqb (length s.fields) (length (domain_tokens src.fields)))) [
        | inl full ↦ rw full (λ z. rw (c, b, e) (rw full refl))
        | inr part ↦ rw part (name_projection-IsSettled f s (lookup s.key y.names) y)
      ]

  project_finder-IsSettled :
      (f : RepositoryFinder) (y : Synthesis) → IsSettled (project_finder entity src f y).0
  project_finder-IsSettled f y =
      elim (Bool-cases (is_empty f.select || not (finder_returns_entity f entity))) [
        | inl c ↦ rw c (λ z. rw c refl)
        | inr c ↦ elim (Bool-cases (trim_space f.return_type == "")) [
          | inr written ↦ rw (c, written) (written-IsSettled f written)
          | inl b ↦
              rw (c, b)
                (project_selection-IsSettled f (projection_fields_for_select entity f.select src) y
                  c b refl)
        ]
      ]

  settled :
      (fs : List RepositoryFinder) (y : Synthesis)
      → All IsSettled (project_finders entity src fs y).0
  unfolding project_finders
  settled [] y = tt
  settled (f ∷ fs) y = (project_finder-IsSettled f y, settled fs (project_finder entity src f y).1)

  kept :
      (fs : List RepositoryFinder) (y : Synthesis)
      → All IsSettled fs
      → project_finders entity src fs y ≡ (fs, y)
  unfolding project_finders
  kept [] y h = refl
  kept (f ∷ fs) y h = rw (h.0 y, kept fs y h.1) refl

-- A second synthesizeImplicitProjections, with any names given before, changes none of the finders of
-- the first one and makes no projection.
pub synthesize_idempotent :
    (entity : String) (finders : List RepositoryFinder) (src : Option Entity)
    (names names' : List (String × String))
    → let done = (synthesize_implicit_projections entity finders src names).0 in
      synthesize_implicit_projections entity done src names'
      ≡ (done, record { names = names'; projections = [] })
unfolding synthesize_implicit_projections
synthesize_idempotent entity finders none names names' = refl
synthesize_idempotent entity finders (some src) names names' =
    kept entity src _ _ (settled entity src finders _)
