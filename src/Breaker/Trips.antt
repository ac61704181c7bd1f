-- ===== src/Breaker/Trips.antt =====
-- When a breaker opens.
use ang.Common.{
  ℕ, suc, ◌<◌, ◌≤◌, true, false, List, [], ◌∷◌, ◌≡◌, refl, arith, ap, Bool-cases, inl, inr,
  if◌then◌else◌, leb,
}
use ang.Common.Int.{ℤ, pos, leb_ℤ}
use ang.Breaker.{
  closed, opened, Breaker, Call, ask, succeed, fail, new_breaker, increment, allow_in, success_in,
  failure_in, record_failure, record_success, perform, run, is_admitted, admitted,
}

-- the failures in a row at the end of the calls, `n` being those before them
abbrev pub streak : ℕ → List Call → ℕ
streak n [] = n
streak n (ask now ∷ calls) = streak n calls
streak n (succeed ∷ calls) = streak 0 calls
streak n (fail now ∷ calls) = streak (suc n) calls

-- The failures in a row stay below `k` throughout the calls.
abbrev pub StaysBelow : ℕ → ℕ → List Call → Type 0
StaysBelow k n [] = n < k
StaysBelow k n (ask now ∷ calls) = StaysBelow k n calls
StaysBelow k n (succeed ∷ calls) = (n < k) × StaysBelow k 0 calls
StaysBelow k n (fail now ∷ calls) = (n < k) × StaysBelow k (suc n) calls

abbrev pub requests : List Call → ℕ
requests [] = 0
requests (ask now ∷ calls) = suc (requests calls)
requests (succeed ∷ calls) = requests calls
requests (fail now ∷ calls) = requests calls

StaysBelow-lt : (k n : ℕ) (calls : List Call) → StaysBelow k n calls → n < k
StaysBelow-lt k n [] h = h
StaysBelow-lt k n (ask now ∷ calls) h = StaysBelow-lt k n calls h
StaysBelow-lt k n (succeed ∷ calls) h = h.0
StaysBelow-lt k n (fail now ∷ calls) h = h.0

StaysBelow-streak : (k n : ℕ) (calls : List Call) → StaysBelow k n calls → streak n calls < k
StaysBelow-streak k n [] h = h
StaysBelow-streak k n (ask now ∷ calls) h = StaysBelow-streak k n calls h
StaysBelow-streak k n (succeed ∷ calls) h = StaysBelow-streak k 0 calls h.1
StaysBelow-streak k n (fail now ∷ calls) h = StaysBelow-streak k (suc n) calls h.1

-- A closed breaker with `n` failures in a row, below its threshold `k`.
pub record IsClosed (k n : ℕ) (b : Breaker) : Type 0 where
  pub at : b.state ≡ closed
  pub count : b.failures ≡ pos n
  pub limit : b.threshold ≡ pos k

pub increment-pos : (n : ℕ) → n < 9223372036854775807 → increment (pos n) ≡ pos (suc n)
unfolding increment
increment-pos n h = ground arith

ask-closed : (now : ℕ) (b : Breaker) → b.state ≡ closed → perform (ask now) b ≡ b
unfolding perform allow_in
ask-closed now b c = rw c refl

ask-admitted : (now : ℕ) (b : Breaker) → b.state ≡ closed → is_admitted (ask now) b ≡ true
unfolding is_admitted allow_in
ask-admitted now b c = rw c refl

succeed-IsClosed : {k : ℕ} (n : ℕ) (b : Breaker) → IsClosed k n b → IsClosed k 0 (record_success b)
unfolding success_in
succeed-IsClosed n b c = rw (c.at, c.limit) (record { at = refl; count = refl; limit = refl })

module _ (k : ℕ) (fits : k ≤ 9223372036854775807) where
  fail-IsClosed :
      (n now : ℕ) (b : Breaker)
      → IsClosed k n b
      → suc n < k
      → IsClosed k (suc n) (record_failure now b)
  unfolding failure_in
  fail-IsClosed n now b c h =
      let e = increment-pos n (omega arith) in
      let below : leb_ℤ (pos k) (pos (suc n)) ≡ false = ground arith in
      rw (c.at, c.count, c.limit, e, below) (record { at = refl; count = refl; limit = refl })

  fail-closed :
      (n now : ℕ) (b : Breaker)
      → IsClosed k n b
      → n < k
      → ((record_failure now b).state ≡ (if leb k (suc n) then opened else closed))
        × ((record_failure now b).last_failure ≡ now)
  unfolding failure_in
  fail-closed n now b c h = elim (Bool-cases (leb k (suc n))) [
    | inl reached ↦
        let e = increment-pos n (omega arith) in
        let r : leb_ℤ (pos k) (pos (suc n)) ≡ true = ground arith in
        rw (c.at, c.count, c.limit, e, reached, r) (refl, refl)
    | inr below ↦
        let e = increment-pos n (omega arith) in
        let r : leb_ℤ (pos k) (pos (suc n)) ≡ false = ground arith in
        rw (c.at, c.count, c.limit, e, below, r) (refl, refl)
  ]

  run-IsClosed :
      (n : ℕ) (calls : List Call) (b : Breaker)
      → IsClosed k n b
      → StaysBelow k n calls
      → IsClosed k (streak n calls) (run calls b) × (admitted calls b ≡ requests calls)
  unfolding run perform admitted is_admitted
  run-IsClosed n [] b c h = (c, refl)
  run-IsClosed n (ask now ∷ calls) b c h =
      let (i, e) = run-IsClosed n calls b c h in
      rw (ask-closed now b c.at, ask-admitted now b c.at) (i, ap suc e)
  run-IsClosed n (succeed ∷ calls) b c h =
      run-IsClosed 0 calls (record_success b) (succeed-IsClosed n b c) h.1
  run-IsClosed n (fail now ∷ calls) b c h =
      run-IsClosed (suc n) calls (record_failure now b)
        (fail-IsClosed n now b c (StaysBelow-lt k (suc n) calls h.1)) h.1

-- A new breaker is closed and admits every request for as long as the failures in a row, which
-- each success ends, stay below a threshold. The next failure opens it exactly if it makes them
-- reach the threshold, and the breaker keeps the time of it.
pub trips :
    (k : ℕ) (timeout half_open_max : ℤ) (calls : List Call) (now : ℕ)
    → k ≤ 9223372036854775807
    → StaysBelow k 0 calls
    → (let b = run calls (new_breaker (pos k) timeout half_open_max) in
        (b.state ≡ closed)
        × (admitted calls (new_breaker (pos k) timeout half_open_max) ≡ requests calls)
        × ((record_failure now b).state ≡ (if leb k (suc (streak 0 calls)) then opened else closed))
        × ((record_failure now b).last_failure ≡ now))
trips k timeout half_open_max calls now fits h =
    let b = new_breaker (pos k) timeout half_open_max in
    let (c, e) =
      run-IsClosed k fits 0 calls b (record { at = refl; count = refl; limit = refl }) h in
    let below = StaysBelow-streak k 0 calls h in
    let (t, l) = fail-closed k fits (streak 0 calls) now (run calls b) c below in (c.at, e, t, l)
