-- ===== src/Cycles/Calls.antt =====
-- What holds between two calls of the search, and what one call leaves behind.
use ang.Common.{
  String, true, false, ◌||◌, List, [], ◌∷◌, ◌++◌, ◌≡◌, arith, eq_iff, contains, lookup, subst, sym,
  ap, ◌∙◌,
}
use mathlib.Core.List.{append_assoc}
use text.Mathlib.TextPositions.{eq_refl}
use ang.Ir.{Service}
use ang.Cycles.{
  Dfs, Outcome, ok, found, out_of_fuel, on_ok, leave, enter, exists, uses_of, from_first, without,
  drop_last,
}
use ang.Cycles.Graph.{Edge, IsChain}
use ang.Cycles.Order.{IsFinished}
use ang.Cycles.Sets.{contains-append, contains-without, drop_last-append, from_first_or-split}

module _ (by_name : List (String × Service)) where
  pub IsChain-snoc :
      (path : List String) (x y : String)
      → IsChain by_name (path ++ x ∷ [])
      → Edge by_name x y
      → IsChain by_name ((path ++ x ∷ []) ++ y ∷ [])
  IsChain-snoc [] x y c e = (e, tt)
  IsChain-snoc (p ∷ []) x y c e = (c.0, (e, tt))
  IsChain-snoc (p ∷ q ∷ path) x y c e = (c.0, IsChain-snoc (q ∷ path) x y c.1 e)

  IsChain-suffix :
      (before path : List String) → IsChain by_name (before ++ path) → IsChain by_name path
  IsChain-suffix [] path c = c
  IsChain-suffix (p ∷ []) [] c = tt
  IsChain-suffix (p ∷ []) (q ∷ path) c = c.1
  IsChain-suffix (p ∷ q ∷ before) path c = IsChain-suffix (q ∷ before) path c.1

  -- What holds between two calls, `done` being the services that are finished.
  pub record Inv (st : Dfs) (done : List String) : Type 0 where
    pub on_path : (x : String) → contains st.visiting x ≡ contains st.path x
    pub seen : (x : String) → contains st.visited x ≡ (contains done x || contains st.path x)
    pub apart : (x : String) → contains st.path x ≡ true → contains done x ≡ false
    pub finished : IsFinished by_name done

  -- The search has come from `st` to `st'` and finished more services, of which `P` holds.
  pub record After (st : Dfs) (done : List String) (P : List String → Type 0) (st' : Dfs)
      : Type 0 where
    pub done' : List String
    pub inv : Inv st' done'
    pub same_path : st'.path ≡ st.path
    pub grows : (x : String) → contains done x ≡ true → contains done' x ≡ true
    pub reached : P done'

  pub record ClosedChain (cycle : List String) : Type 0 where
    pub start : String
    pub between : List String
    pub closed : cycle ≡ start ∷ (between ++ start ∷ [])
    pub chain : IsChain by_name cycle

  abbrev pub Post : Dfs → List String → (List String → Type 0) → Outcome → Type 0
  Post st done P (ok st') = After st done P st'
  Post st done P (found cycle) = ClosedChain cycle
  Post st done P out_of_fuel = ⊥

  pub seen_grows :
      {st st' : Dfs} {done : List String} {P : List String → Type 0}
      → Inv st done
      → After st done P st'
      → (x : String) → contains st.visited x ≡ true
      → contains st'.visited x ≡ true
  seen_grows i a x h =
      ground (arith, i.seen x, a.inv.seen x, a.grows x, ap (λ p. contains p x) a.same_path)

  -- the search meets a service that is on its path
  pub closed_chain :
      (path : List String) (name : String)
      → contains path name ≡ true
      → IsChain by_name (path ++ name ∷ [])
      → ClosedChain (from_first name path ++ name ∷ [])
  unfolding from_first
  closed_chain path name h c =
      let (before, after, e, e') = from_first_or-split path path name h in
      record {
        start = name;
        between = after;
        closed = ap (λ l. l ++ name ∷ []) e;
        chain =
            subst (λ l. IsChain by_name (l ++ name ∷ [])) (sym e)
              (IsChain-suffix before (name ∷ (after ++ name ∷ [])) (
                subst (IsChain by_name)
                  (ap (λ l. l ++ name ∷ []) e' ∙ append_assoc before (name ∷ after) (name ∷ []))
                  c));
      }

  pub enter-Inv :
      (name : String) (st : Dfs) (done : List String)
      → Inv st done
      → contains st.visited name ≡ false
      → Inv (enter name st) done
  unfolding enter contains
  enter-Inv name st done i new = record {
    on_path = λ x. ground (arith, i.on_path x, contains-append st.path (name ∷ []) x);
    seen = λ x. ground (arith, i.seen x, contains-append st.path (name ∷ []) x);
    apart = λ x h.
        ground
          (arith, i.apart x, contains-append st.path (name ∷ []) x, i.seen name, eq_iff name x);
    finished = i.finished;
  }

  -- all the services among `deps` are finished
  abbrev pub AllDone : List String → List String → Type 0
  AllDone deps done =
      (y : String) → contains deps y ≡ true → exists by_name y ≡ true → contains done y ≡ true

  leave-After :
      (name : String) (st st' : Dfs) (done : List String)
      → contains st.path name ≡ false
      → Inv st done
      → After (enter name st) done (AllDone (uses_of (lookup name by_name))) st'
      → After st done
          (λ d. contains d name ≡ true)
          (record st' { path = drop_last st'.path; visiting = without name st'.visiting })
  unfolding enter contains
  leave-After name st st' done off i a =
      let path_of = λ (x : String).
        ap (λ p. contains p x) a.same_path ∙ contains-append st.path (name ∷ []) x in
      let restored : drop_last st'.path ≡ st.path =
        ap drop_last a.same_path ∙ drop_last-append st.path name in
      let back = λ (x : String). ap (λ p. contains p x) restored in
      record {
        done' = name ∷ a.done';
        inv = record {
          on_path = λ x. ground (
            arith,
            back x,
            path_of x,
            a.inv.on_path x,
            contains-without name st'.visiting x,
            off,
            eq_iff name x,
          );
          seen = λ x. ground (arith, back x, path_of x, a.inv.seen x);
          apart = λ x h. ground (arith, back x, path_of x, a.inv.apart x, off, eq_iff name x);
          finished = (
            λ y e. a.reached y e.0 e.1,
            a.inv.apart name (path_of name ∙ ground (arith, eq_refl name)),
            a.inv.finished,
          );
        };
        same_path = restored;
        grows = λ x h. ground (arith, a.grows x);
        reached = ground (arith, eq_refl name);
      }

  pub Post-map :
      (st : Dfs) (done : List String) (P Q : List String → Type 0) (o : Outcome)
      → ((d : List String) → P d → Q d)
      → Post st done P o
      → Post st done Q o
  Post-map st done P Q (ok st') f a = record {
    done' = a.done';
    inv = a.inv;
    same_path = a.same_path;
    grows = a.grows;
    reached = f a.done' a.reached;
  }
  Post-map st done P Q (found cycle) f c = c
  Post-map st done P Q out_of_fuel f h = h

  pub Post-leave :
      (name : String) (st : Dfs) (done : List String) (o : Outcome)
      → contains st.path name ≡ false
      → Inv st done
      → Post (enter name st) done (AllDone (uses_of (lookup name by_name))) o
      → Post st done (λ d. contains d name ≡ true) (leave name o)
  unfolding leave
  Post-leave name st done (ok st') off i a = leave-After name st st' done off i a
  Post-leave name st done (found cycle) off i c = c
  Post-leave name st done out_of_fuel off i h = h

  -- the first service of the loop, and then the others
  pub Post-cons :
      (dep : String) (deps : List String) (st st' : Dfs) (done : List String) (o : Outcome)
      → (a : After st done (λ d. contains d dep ≡ true) st') → Post st' a.done' (AllDone deps) o
      → Post st done (AllDone (dep ∷ deps)) o
  unfolding contains
  Post-cons dep deps st st' done (ok st'') a b = record {
    done' = b.done';
    inv = b.inv;
    same_path = b.same_path ∙ a.same_path;
    grows = λ x h. b.grows x (a.grows x h);
    reached = λ y h e. ground (arith, eq_iff dep y, b.grows dep a.reached, b.reached y, e);
  }
  Post-cons dep deps st st' done (found cycle) a c = c
  Post-cons dep deps st st' done out_of_fuel a h = h

  -- the rest of a loop behind one call
  pub then_rest :
      (st : Dfs) (done : List String) (P Q : List String → Type 0) (o : Outcome)
      (rest : Dfs → Outcome)
      → Post st done P o
      → ((st' : Dfs) → After st done P st' → Post st done Q (rest st'))
      → Post st done Q (on_ok o rest)
  unfolding on_ok
  then_rest st done P Q (ok st') rest a k = k st' a
  then_rest st done P Q (found cycle) rest c k = c
  then_rest st done P Q out_of_fuel rest h k = h
