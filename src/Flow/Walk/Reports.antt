-- ===== src/Flow/Walk/Reports.antt =====
-- The issues of a flow and those of its steps.
use mathlib.Core.List.Memᴰ
use ang.Common.{
  ℕ, zero, suc, ◌+◌, String, Bool, false, some, List, [], ◌∷◌, ◌≡◌, refl, sym, ap, ◌∙◌, ◌↔◌, inl,
  inr, Memᴰ, arith, subst,
}
use mathlib.Core.Logic.{⊎_elim}
use native.Mathlib.Nat.{add-zero, zero-add}
use ang.Flow.{Step, Steps, Children, Issue, step, nil, cons, end, entry, action, children}
use ang.Flow.Walk.{step_issues, next_tx, walk, walk_step, walk_children, validate}
use ang.Flow.Walk.Visits.{step_at, IsChild, Within, whole, below, has_tx}

-- `issue` is one that the contract of a step of `top` calls for.
pub record Origin (top : Steps) (issue : Issue) : Type 0 where
  pub items : Steps
  pub above : List String
  pub within : Within top items above
  pub index : ℕ
  pub at_step : Step
  pub stands : step_at items index ≡ some at_step
  pub reported : Memᴰ issue (step_issues at_step (suc index) (has_tx above))

some-eq : {s t : Step} → some s ≡ some t → s ≡ t
some-eq e = cc

module _ (x : Issue) where
  mem-walk_children :
      (ch : Children) (steps : Steps) (in_tx : Bool)
      → IsChild steps ch
      → Memᴰ x (walk steps 0 in_tx)
      → Memᴰ x (walk_children ch in_tx)
  unfolding walk
  mem-walk_children end steps in_tx c m = elim c [ ]
  mem-walk_children (entry key first rest) steps in_tx (inl e) m =
      Memᴰ.append_left _ (subst (λ y. Memᴰ x (walk y 0 in_tx)) e m)
  mem-walk_children (entry key first rest) steps in_tx (inr c) m =
      Memᴰ.append_right _ (mem-walk_children rest steps in_tx c m)

  mem-walk :
      (items : Steps) (n i : ℕ) (s : Step) (in_tx : Bool)
      → step_at items n ≡ some s
      → Memᴰ x (walk_step s (i + n) in_tx)
      → Memᴰ x (walk items i in_tx)
  unfolding walk
  mem-walk nil n i s in_tx e m = cc
  mem-walk (cons t rest) zero i s in_tx e m = Memᴰ.append_left (walk rest (suc i) in_tx) (
      subst (λ y. Memᴰ x (walk_step y i in_tx)) (some-eq (sym e))
        (subst (λ k. Memᴰ x (walk_step s k in_tx)) (add-zero i) m))
  mem-walk (cons t rest) (suc n) i s in_tx e m = Memᴰ.append_right (walk_step t i in_tx) (
      mem-walk rest n (suc i) s in_tx e (subst (λ k. Memᴰ x (walk_step s k in_tx)) (omega arith) m))

  mem-walk_step_children :
      (s : Step) (i : ℕ) (in_tx : Bool)
      → Memᴰ x (walk_children (children s) (next_tx in_tx (action s)))
      → Memᴰ x (walk_step s i in_tx)
  unfolding walk
  mem-walk_step_children (step a vs ch loc) i in_tx m = Memᴰ.append_right _ m

  mem-walk_step_own :
      (s : Step) (i : ℕ) (in_tx : Bool)
      → Memᴰ x (step_issues s (suc i) in_tx)
      → Memᴰ x (walk_step s i in_tx)
  unfolding walk
  mem-walk_step_own (step a vs ch loc) i in_tx m = Memᴰ.append_left _ m

  -- What the walk appends for a list of steps within the flow, it appends for the flow.
  mem-walk_within :
      {top items : Steps} {above : List String}
      → Within top items above
      → Memᴰ x (walk items 0 (has_tx above))
      → Memᴰ x (walk top 0 false)
  unfolding next_tx
  mem-walk_within whole m = m
  mem-walk_within (below {items = items} {above = above} s n steps w e c) m = mem-walk_within w (
      mem-walk items n 0 s (has_tx above) e (
        mem-walk_step_children s (0 + n) (has_tx above)
          (mem-walk_children (children s) steps _ c m)))

  Origin-mem : {top : Steps} → Origin top x → Memᴰ x (validate top)
  unfolding validate
  Origin-mem o = mem-walk_within o.within (
      mem-walk o.items o.index 0 o.at_step (has_tx o.above) o.stands
        (mem-walk_step_own o.at_step (0 + o.index) (has_tx o.above) (rw zero-add o.reported)))

  module _ (top : Steps) where
    mutual
      unfolding walk next_tx

      Origin-walk :
          (rest items : Steps) (above : List String) (i : ℕ)
          → Within top items above
          → ((n : ℕ) → step_at items (i + n) ≡ step_at rest n)
          → Memᴰ x (walk rest i (has_tx above))
          → Origin top x
      Origin-walk nil items above i w at m = absurd (Memᴰ.not-nil m)
      Origin-walk (cons s rest) items above i w at m =
          ⊎_elim (Origin-walk_step s items above i w (ap (step_at items) (sym (add-zero i)) ∙ at 0))
            (Origin-walk rest items above (suc i) w
              (λ n. ap (step_at items) (omega arith) ∙ at (suc n)))
            (Memᴰ.append_cases (walk_step s i (has_tx above)) m)

      Origin-walk_step :
          (s : Step) (items : Steps) (above : List String) (i : ℕ)
          → Within top items above
          → step_at items i ≡ some s
          → Memᴰ x (walk_step s i (has_tx above))
          → Origin top x
      Origin-walk_step (step a vs ch loc) items above i w at m =
          ⊎_elim
            (λ own. record {
              items = items;
              above = above;
              within = w;
              index = i;
              at_step = step a vs ch loc;
              stands = at;
              reported = own;
            })
            (Origin-walk_children ch (a ∷ above)
              (λ steps c. below (step a vs ch loc) i steps w at c))
            (Memᴰ.append_cases (step_issues (step a vs ch loc) (suc i) (has_tx above)) m)

      Origin-walk_children :
          (ch : Children) (above : List String)
          → ((steps : Steps) → IsChild steps ch → Within top steps above)
          → Memᴰ x (walk_children ch (has_tx above))
          → Origin top x
      Origin-walk_children end above w m = absurd (Memᴰ.not-nil m)
      Origin-walk_children (entry key first rest) above w m =
          ⊎_elim
            (Origin-walk first first above 0 (w first (inl refl))
              (λ n. ap (step_at first) (zero-add n)))
            (Origin-walk_children rest above (λ steps c. w steps (inr c)))
            (Memᴰ.append_cases (walk first 0 (has_tx above)) m)

-- An issue is reported exactly if the contract of some step calls for it: a step that stands at
-- some index of the flow's list or of a list of children, however deep, judged inside a
-- transaction exactly if one of the actions above it is `tx.Block`.
pub mem-validate_iff : (top : Steps) (x : Issue) → Memᴰ x (validate top) ↔ Origin top x
unfolding validate
mem-validate_iff top x =
    (Origin-walk x top top top [] 0 whole (λ n. ap (step_at top) (zero-add n)), Origin-mem x)
