-- ===== src/Diagnostics/Names.antt =====
-- The names of states, without spaces around them.
use ang.Common.{
  false, ap, ◌∙◌, sym, ◌||◌, arith, ◌≡◌, ◌↔◌, ◌⊎◌, refl, String, true, List, [], ◌∷◌, inl, inr,
  Bool-cases, contains, is_empty, All, Memᴰ, eq_iff, ◌==◌,
}
use mathlib.Core.List.Memᴰ
use mathlib.Core.Logic.{⊎_elim}
use ang.Text.{trim_space}
use ang.Diagnostics.{state_set, is_undefined}

-- Some state is this name, without spaces around it.
abbrev pub HasState : List String → String → Type 0
HasState states name = (s : String) × Memᴰ s states × (trim_space s ≡ name)

-- The name, without spaces around it, is blank or one of the states.
abbrev pub IsState : List String → String → Type 0
IsState states name = (trim_space name ≡ "") ⊎ HasState states (trim_space name)

contains-state_set :
    (s : String) (states : List String) (name : String)
    → (name == "") ≡ false
    → contains (state_set (s ∷ states)) name
      ≡ (trim_space s == name || contains (state_set states) name)
unfolding contains state_set
contains-state_set s states name n =
    ground (arith, eq_iff (trim_space s) "", eq_iff (trim_space s) name)

pub state_set_iff :
    (states : List String) (name : String)
    → (name == "") ≡ false
    → (contains (state_set states) name ≡ true) ↔ HasState states name
unfolding contains state_set
state_set_iff [] name n = (λ e. cc e, λ h. absurd (Memᴰ.not-nil h.1))
state_set_iff (s ∷ states) name n =
    let rest = state_set_iff states name n in
    let here = contains-state_set s states name n in
    let forth : contains (state_set (s ∷ states)) name ≡ true → HasState (s ∷ states) name = λ e.
      elim (Bool-cases (trim_space s == name)) [
        | inl same ↦ (s, Memᴰ.head refl, (eq_iff (trim_space s) name).0 same)
        | inr other ↦
            let later : contains (state_set states) name ≡ true = ground arith in
            let (t, m, q) = rest.0 later in (t, Memᴰ.tail m, q)
      ] in
    let back : HasState (s ∷ states) name → contains (state_set (s ∷ states)) name ≡ true = λ h.
      ⊎_elim
        (λ e.
          let same : (trim_space s == name) ≡ true =
            (eq_iff (trim_space s) name).1 (ap trim_space (sym e) ∙ h.2) in
          ground arith)
        (λ m. let later = rest.1 (h.0, m, h.2) in ground arith) (Memᴰ.cases_cons h.1) in
    (forth, back)

pub no_state_iff :
    (states : List String)
    → (is_empty (state_set states) ≡ true) ↔ All (λ s. trim_space s ≡ "") states
unfolding state_set
no_state_iff [] = (λ e. tt, λ h. refl)
no_state_iff (s ∷ states) = elim (Bool-cases (trim_space s == "")) [
  | inl blank ↦
      let rest = no_state_iff states in
      rw blank (λ e. ((eq_iff (trim_space s) "").0 blank, rest.0 e), λ h. rest.1 h.1)
  | inr named ↦ rw named (λ e. cc e, λ h. cc (named, (eq_iff (trim_space s) "").1 h.0))
]

pub undefined_iff :
    (states : List String) (name : String)
    → (is_undefined (state_set states) (trim_space name) ≡ true) ↔ (IsState states name → ⊥)
undefined_iff states name = elim (Bool-cases (trim_space name == "")) [
  | inl blank ↦ rw blank (λ e. cc e, λ h. absurd (h (inl ((eq_iff (trim_space name) "").0 blank))))
  | inr n ↦
      let iff = state_set_iff states (trim_space name) n in
      elim (Bool-cases (contains (state_set states) (trim_space name))) [
        | inl there ↦ rw (n, there) (λ e. cc e, λ h. absurd (h (inr (iff.0 there))))
        | inr missing ↦
            rw (n, missing)
              (
                λ e h. elim h [
                  | inl b ↦ cc (n, (eq_iff (trim_space name) "").1 b)
                  | inr c ↦ cc (missing, iff.1 c)
                ],
                λ h. refl,
              )
      ]
]
