-- ===== src/Common/Writes.antt =====
-- Writes to a dictionary, `m[k] = v`: the entry of a key that is there is replaced where it stands.
use Prim.Native.String.{String}
use mathlib.Core.Path.{◌≡◌, refl, ◌∙◌}
use mathlib.Core.Bool.{Bool, true, false, ◌||◌}
use mathlib.Core.Option.{none, some}
use mathlib.Core.Logic.{◌≢◌, inl, inr}
use mathlib.Core.List.{List, [], ◌∷◌, ◌++◌}
use native.Mathlib.Omega.{arith}
use text.Mathlib.Text.{◌==◌}
use text.Mathlib.TextEquality.{eq_iff}
use ang.Common.Tests.{Bool-cases, if◌then◌else◌}
use ang.Common.Lists.{lookup}

module _ {ℓ} {V : Type ℓ} where
  unfoldable pub put : String → V → List (String × V) → List (String × V)
  put k v [] = (k, v) ∷ []
  put k v ((j, w) ∷ m) = if j == k then (j, v) ∷ m else (j, w) ∷ put k v m

  -- the writes of a run, one after the other
  unfoldable pub put_all : List (String × V) → List (String × V) → List (String × V)
  put_all [] m = m
  put_all ((k, v) ∷ ws) m = put_all ws (put k v m)

  abbrev pub is_written : String → List (String × V) → Bool
  is_written k [] = false
  is_written k ((j, v) ∷ ws) = j == k || is_written k ws

  pub lookup-put :
      (k j : String) (v : V) (m : List (String × V))
      → lookup j (put k v m) ≡ (if k == j then some v else lookup j m)
  unfolding lookup put
  lookup-put k j v [] = refl
  lookup-put k j v ((i, w) ∷ m) =
      ground (arith, eq_iff k j, eq_iff i k, eq_iff i j, lookup-put k j v m)

  pub put_same : (k : String) (v : V) (m : List (String × V)) → lookup k m ≡ some v → put k v m ≡ m
  unfolding lookup put
  put_same k v [] h = cc
  put_same k v ((i, w) ∷ m) h = ground (arith, eq_iff i k, put_same k v m)

  pub put-put : (k : String) (v w : V) (m : List (String × V)) → put k v (put k w m) ≡ put k v m
  unfolding put
  put-put k v w [] = ground (arith, eq_iff k k)
  put-put k v w ((i, u) ∷ m) = ground (arith, eq_iff i k, put-put k v w m)

  -- Writes of two keys may be swapped where one of them is there.
  put_comm :
      (j k : String) (u v : V) (m : List (String × V))
      → (j == k) ≡ false
      → lookup k m ≢ none
      → put j u (put k v m) ≡ put k v (put j u m)
  unfolding lookup put
  put_comm j k u v [] n h = absurd (h refl)
  put_comm j k u v ((i, w) ∷ m) n h =
      ground (arith, eq_iff i k, eq_iff i j, eq_iff j k, put_comm j k u v m n)

  lookup-put_all :
      (k : String) (ws m : List (String × V))
      → is_written k ws ≡ false
      → lookup k (put_all ws m) ≡ lookup k m
  unfolding put_all
  lookup-put_all k [] m n = refl
  lookup-put_all k ((j, v) ∷ ws) m n =
      let rest : is_written k ws ≡ false = ground arith in
      let other : (j == k) ≡ false = ground arith in
      lookup-put_all k ws (put j v m) rest ∙ lookup-put j k v m ∙ rw other

  lookup-put_self : (k : String) (v : V) (m : List (String × V)) → lookup k (put k v m) ≡ some v
  lookup-put_self k v m = lookup-put k k v m ∙ rw ((eq_iff k k).1 refl) refl

  put_all-kept :
      (k : String) (ws m : List (String × V)) → lookup k m ≢ none → lookup k (put_all ws m) ≢ none
  unfolding put_all
  put_all-kept k [] m h = h
  put_all-kept k ((j, v) ∷ ws) m h =
      put_all-kept k ws (put j v m) (rw (lookup-put j k v m) (ground arith))

  -- What is written to a key before other writes to it makes no difference.
  put_all-put :
      (k : String) (v : V) (ws m : List (String × V))
      → is_written k ws ≡ true
      → lookup k m ≢ none
      → put_all ws (put k v m) ≡ put_all ws m
  unfolding put_all
  put_all-put k v [] m w h = cc
  put_all-put k v ((j, u) ∷ ws) m w h = elim (Bool-cases (j == k)) [
    | inl e ↦ rw ((eq_iff j k).0 e, put-put k u v m) refl
    | inr n ↦
        rw (put_comm j k u v m n h)
          (put_all-put k v ws (put j u m) (ground arith) (rw (lookup-put j k u m, n) h))
  ]

  -- Writes that are made again change nothing.
  pub put_all_idem : (ws m : List (String × V)) → put_all ws (put_all ws m) ≡ put_all ws m
  unfolding put_all
  put_all_idem [] m = refl
  put_all_idem ((k, v) ∷ ws) m =
      let old = put_all ws (put k v m) in
      elim (Bool-cases (is_written k ws)) [
        | inl w ↦
            put_all-put k v ws old w (put_all-kept k ws _ (rw (lookup-put_self k v m) (λ e. cc e)))
            ∙ put_all_idem ws (put k v m)
        | inr n ↦
            let e = put_same k v old (lookup-put_all k ws (put k v m) n ∙ lookup-put_self k v m) in
            rw e (put_all_idem ws (put k v m))
      ]

  pub put_all-append :
      (ws us m : List (String × V)) → put_all (ws ++ us) m ≡ put_all us (put_all ws m)
  unfolding put_all
  put_all-append [] us m = refl
  put_all-append ((k, v) ∷ ws) us m = put_all-append ws us (put k v m)
