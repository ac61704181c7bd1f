-- ===== src/Cycles/Search.antt =====
-- One call of the search, on enough fuel.
use ang.Common.{
  ℕ, zero, suc, ◌<◌, String, true, false, List, [], ◌∷◌, ◌++◌, ◌≡◌, refl, arith, eq_iff, contains,
  lookup, Bool-cases, inl, inr, subst, sym, ◌∙◌,
}
use text.Mathlib.TextPositions.{eq_refl}
use ang.Ir.{Service}
use ang.Cycles.{Dfs, Outcome, dfs, visit_deps, enter, exists, uses_of}
use ang.Cycles.Graph.{Edge, IsChain}
use ang.Cycles.Sets.{unvisited, unvisited_mono, unvisited-enter}
use ang.Cycles.Calls.{
  IsChain-snoc, Inv, After, Post, seen_grows, closed_chain, enter-Inv, AllDone, Post-map,
  Post-leave, Post-cons, then_rest,
}

module _ (by_name : List (String × Service)) where
  module _ (names : List String)
      (known : (x : String) → exists by_name x ≡ true → contains names x ≡ true) where
    -- What a call with this much fuel does.
    abbrev pub Works : ℕ → (String → Dfs → Outcome) → Type 0
    Works fuel visit =
        (name : String) (st : Dfs) (done : List String)
        → Inv by_name st done
        → exists by_name name ≡ true
        → IsChain by_name (st.path ++ name ∷ [])
        → unvisited st.visited names < fuel
        → Post by_name st done (λ d. contains d name ≡ true) (visit name st)

    pub less :
        {st st' : Dfs} {done : List String} {P : List String → Type 0} {fuel : ℕ}
        → Inv by_name st done
        → After by_name st done P st'
        → unvisited st.visited names < fuel
        → unvisited st'.visited names < fuel
    less {st} {st'} i a enough =
        omega (arith, unvisited_mono st.visited st'.visited names (seen_grows by_name i a))

    fewer :
        {fuel : ℕ} (name : String) (st : Dfs)
        → contains st.visited name ≡ false
        → exists by_name name ≡ true
        → unvisited st.visited names < suc fuel
        → unvisited (enter name st).visited names < fuel
    unfolding enter
    fewer name st new e enough =
        omega (arith, unvisited-enter name st.visited names (known name e) new)

    visit_deps-Works :
        (fuel : ℕ) (visit : String → Dfs → Outcome)
        → Works fuel visit
        → (deps : List String) (st : Dfs) (done : List String) (path : List String) (name : String)
        → ((y : String)
            → contains deps y ≡ true
            → contains (uses_of (lookup name by_name)) y ≡ true)
        → Inv by_name st done
        → st.path ≡ path ++ name ∷ []
        → IsChain by_name (path ++ name ∷ [])
        → unvisited st.visited names < fuel
        → Post by_name st done (AllDone by_name deps) (visit_deps by_name visit deps st)
    unfolding visit_deps contains
    visit_deps-Works fuel visit works [] st done path name used i at c enough = record {
      done' = done;
      inv = i;
      same_path = refl;
      grows = λ x h. h;
      reached = λ y h _. cc;
    }
    visit_deps-Works fuel visit works (dep ∷ deps) st done path name used i at c enough =
        elim (Bool-cases (exists by_name dep)) [
          | inr unknown ↦ rw unknown (
              Post-map by_name st done (AllDone by_name deps) (AllDone by_name (dep ∷ deps))
                (visit_deps by_name visit deps st)
                (λ d h y m e. ground (arith, h y, eq_iff dep y, unknown, e))
                (visit_deps-Works fuel visit works deps st done path name
                  (λ y h. used y (ground arith)) i at c enough))
          | inl there ↦
              let edge : Edge by_name name dep = (used dep (ground (arith, eq_refl dep)), there) in
              let c' : IsChain by_name (st.path ++ dep ∷ []) =
                subst (λ p. IsChain by_name (p ++ dep ∷ [])) (sym at)
                  (IsChain-snoc by_name path name dep c edge) in
              rw there (
                then_rest by_name st done (λ d. contains d dep ≡ true)
                  (AllDone by_name (dep ∷ deps)) (visit dep st) (visit_deps by_name visit deps)
                  (works dep st done i there c' enough)
                  (λ st' a.
                    Post-cons by_name dep deps st st' done (visit_deps by_name visit deps st') a (
                      visit_deps-Works fuel visit works deps st' a.done' path name
                        (λ y h. used y (ground arith)) a.inv (a.same_path ∙ at) c
                        (less i a enough))))
        ]

    pub dfs-Works : (fuel : ℕ) → Works fuel (dfs by_name fuel)
    unfolding dfs
    dfs-Works zero name st done i e c enough = absurd (omega arith)
    dfs-Works (suc fuel) name st done i e c enough = elim (Bool-cases (contains st.visiting name)) [
      | inl on ↦ rw on (closed_chain by_name st.path name (sym (i.on_path name) ∙ on) c)
      | inr off ↦
          let off_path : contains st.path name ≡ false = sym (i.on_path name) ∙ off in
          elim (Bool-cases (contains st.visited name)) [
            | inl seen ↦
                rw (off, seen)
                  (record {
                    done' = done;
                    inv = i;
                    same_path = refl;
                    grows = λ x h. h;
                    reached = ground (arith, i.seen name);
                  })
            | inr new ↦
                rw (off, new)
                  (Post-leave by_name name st done _ off_path i (
                    visit_deps-Works fuel (dfs by_name fuel) (dfs-Works fuel)
                      (uses_of (lookup name by_name)) (enter name st) done st.path name (λ y h. h)
                      (enter-Inv by_name name st done i new) (unfold enter in refl) c
                      (fewer name st new e enough)))
          ]
    ]
