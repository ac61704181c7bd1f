-- ===== src/Cycles/Order.antt =====
-- Lists in which each service stands before those that it uses, and cycles.
use ang.Common.{
  String, true, false, ◌==◌, List, [], ◌∷◌, ◌++◌, ◌≡◌, arith, eq_iff, contains, Bool-cases, inl,
  inr, subst, sym,
}
use ang.Ir.{Service}
use ang.Cycles.Graph.{Edge, IsChain}

module _ (by_name : List (String × Service)) where
  -- Finished services, the last one first: each uses only services that were finished before it.
  abbrev pub IsFinished : List String → Type 0
  IsFinished [] = Unit
  IsFinished (x ∷ done) =
      ((y : String) → Edge by_name x y → contains done y ≡ true)
      × (contains done x ≡ false)
      × IsFinished done

  -- the uses of a finished service are finished
  Edge-done :
      (done : List String) (x y : String)
      → IsFinished done
      → contains done x ≡ true
      → Edge by_name x y
      → contains done y ≡ true
  unfolding contains
  Edge-done [] x y f h e = cc
  Edge-done (z ∷ done) x y f h e = elim (Bool-cases (z == x)) [
    | inl same ↦
        let below : contains done y ≡ true =
          f.0 y (subst (λ v. Edge by_name v y) (sym ((eq_iff z x).0 same)) e) in
        ground arith
    | inr other ↦ ground (arith, Edge-done done x y f.2 (ground arith) e)
  ]

  -- a chain from a finished service ends in one
  chain-done :
      (done : List String) (x : String) (path : List String) (last : String)
      → IsFinished done
      → contains done x ≡ true
      → IsChain by_name (x ∷ (path ++ last ∷ []))
      → contains done last ≡ true
  chain-done done x [] last f h c = Edge-done done x last f h c.0
  chain-done done x (y ∷ path) last f h c =
      chain-done done y path last f (Edge-done done x y f h c.0) c.1

  -- what follows the head of a list of finished services on a chain stands behind the head
  chain-behind :
      (x : String) (done path : List String) (last : String)
      → IsFinished (x ∷ done)
      → IsChain by_name (x ∷ (path ++ last ∷ []))
      → contains done last ≡ true
  chain-behind x done [] last f c = f.0 last c.0
  chain-behind x done (y ∷ path) last f c = chain-done done y path last f.2 (f.0 y c.0) c.1

  -- No chain leads from a finished service back to itself.
  pub finished_no_cycle :
      (done : List String) (x : String) (path : List String)
      → IsFinished done
      → contains done x ≡ true
      → IsChain by_name (x ∷ (path ++ x ∷ []))
      → ⊥
  unfolding contains
  finished_no_cycle [] x path f h c = cc
  finished_no_cycle (z ∷ done) x path f h c = elim (Bool-cases (z == x)) [
    | inl same ↦
        let e = sym ((eq_iff z x).0 same) in
        let c' : IsChain by_name (z ∷ (path ++ z ∷ [])) =
          subst (λ v. IsChain by_name (v ∷ (path ++ v ∷ []))) e c in
        cc (f.1, chain-behind z done path z f c')
    | inr other ↦ finished_no_cycle done x path f.2 (ground arith) c
  ]
