-- ===== src/Semantics/Checks.antt =====
-- When lists of errors are empty.
use ang.Common.{
  String, Bool, true, false, not, ◌&&◌, List, [], ◌∷◌, ◌++◌, ◌≡◌, ◌↔◌, refl, ◌==◌, All,
}
use ang.Semantics.{each, report, setting_text, is_supported, setting_error}

pub report-nil_iff :
    (bad : Bool) (message : List String) → (report bad message ≡ []) ↔ (bad ≡ false)
unfolding report
report-nil_iff true message = (λ e. cc e, λ e. cc e)
report-nil_iff false message = (λ _. refl, λ _. refl)

pub append-nil_iff {ℓ} : {A : Type ℓ} (xs ys : List A) → (xs ++ ys ≡ []) ↔ ((xs ≡ []) × (ys ≡ []))
append-nil_iff [] ys = (λ e. (refl, e), λ e. e.1)
append-nil_iff (x ∷ xs) ys = (λ e. cc e, λ e. cc (e.0))

pub each-nil_iff {ℓ κ} :
    {A : Type ℓ} (P : A → Type κ) (errors : A → List String)
    → ((x : A) → (errors x ≡ []) ↔ P x)
    → (xs : List A) → (each errors xs ≡ []) ↔ All P xs
unfolding each
each-nil_iff P errors h [] = (λ _. tt, λ _. refl)
each-nil_iff P errors h (x ∷ xs) =
    let rest = each-nil_iff P errors h xs in
    let both = append-nil_iff (errors x) (each errors xs) in
    (λ e. let (a, b) = both.0 e in ((h x).0 a, rest.0 b), λ p. both.1 ((h x).1 p.0, rest.1 p.1))

-- A setting that is not written, or one of the values.
abbrev pub IsSetting : List String → String → Type 0
IsSetting values v =
    (not (setting_text v == "") && not (is_supported values (setting_text v))) ≡ false

pub setting_error-nil_iff :
    (values : List String) (code place what v : String)
    → (setting_error values code place what v ≡ []) ↔ IsSetting values v
unfolding setting_error
setting_error-nil_iff values code place what v =
    report-nil_iff (not (setting_text v == "") && not (is_supported values (setting_text v))) _

pub append-nil_of {ℓ κ μ} :
    {A : Type ℓ} {xs ys : List A} {P : Type κ} {Q : Type μ}
    → (xs ≡ []) ↔ P
    → (ys ≡ []) ↔ Q
    → (xs ++ ys ≡ []) ↔ (P × Q)
append-nil_of {xs} {ys} p q = (
  λ e. let (a, b) = (append-nil_iff xs ys).0 e in (p.0 a, q.0 b),
  λ h. (append-nil_iff xs ys).1 (p.1 h.0, q.1 h.1),
)
