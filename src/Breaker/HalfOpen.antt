-- ===== src/Breaker/HalfOpen.antt =====
-- An open breaker: how long it refuses requests, and how many it admits before it is closed again.
use ang.Common.{
  ℕ, suc, ◌<◌, ◌+◌, ◌-◌, ◌≤◌, true, false, List, [], ◌∷◌, ◌≡◌, refl, arith, ap, ◌∙◌, Bool-cases,
  inl, inr, if◌then◌else◌, ltb, leb, length, map,
}
use ang.Common.Int.{pos, ltb_ℤ, leb_ℤ}
use ang.Breaker.{
  State, closed, opened, half_open, Answer, Breaker, Call, ask, succeed, fail, allow_open,
  allow_half_open, allow_in, success_in, failure_in, since, record_failure, record_success, perform,
  run, is_admitted, admitted, allow,
}
use ang.Breaker.Trips.{increment-pos}

-- the time of the last failure
abbrev pub last_of : ℕ → List Call → ℕ
last_of last [] = last
last_of last (ask now ∷ calls) = last_of last calls
last_of last (succeed ∷ calls) = last_of last calls
last_of last (fail now ∷ calls) = last_of now calls

-- Each request comes at most `d` after the failure before it.
abbrev pub AreEarly : ℕ → ℕ → List Call → Type 0
AreEarly d last [] = Unit
AreEarly d last (ask now ∷ calls) = (now ≤ last + d) × AreEarly d last calls
AreEarly d last (succeed ∷ calls) = AreEarly d last calls
AreEarly d last (fail now ∷ calls) = AreEarly d now calls

pub record IsOpen (d last : ℕ) (b : Breaker) : Type 0 where
  pub at : b.state ≡ opened
  pub since_then : b.last_failure ≡ last
  pub wait : b.timeout ≡ pos d

elapsed_early : (d last now : ℕ) → now ≤ last + d → ltb_ℤ (pos d) (since now last) ≡ false
unfolding since
elapsed_early d last now h = elim (Bool-cases (leb last now)) [
  | inl e ↦ rw e (ground arith)
  | inr e ↦ rw e refl
]

elapsed_late : (d last now : ℕ) → last + d < now → ltb_ℤ (pos d) (since now last) ≡ true
unfolding since
elapsed_late d last now h = let e : leb last now ≡ true = ground arith in rw e (ground arith)

module _ (d : ℕ) where
  allow-early :
      (now last : ℕ) (b : Breaker)
      → IsOpen d last b
      → now ≤ last + d
      → allow now b ≡ record { allowed = false; breaker = b }
  unfolding allow_in allow_open
  allow-early now last b i h = rw (i.at, i.since_then, i.wait, elapsed_early d last now h) refl

  ask-early :
      (now last : ℕ) (b : Breaker) → IsOpen d last b → now ≤ last + d → perform (ask now) b ≡ b
  unfolding perform
  ask-early now last b i h = ap (λ (a : Answer). a.breaker) (allow-early now last b i h)

  refused_early :
      (now last : ℕ) (b : Breaker)
      → IsOpen d last b
      → now ≤ last + d
      → is_admitted (ask now) b ≡ false
  unfolding is_admitted
  refused_early now last b i h = ap (λ (a : Answer). a.allowed) (allow-early now last b i h)

  succeed-opened : (last : ℕ) (b : Breaker) → IsOpen d last b → record_success b ≡ b
  unfolding success_in
  succeed-opened last b i = rw i.at refl

  fail-opened : (last now : ℕ) (b : Breaker) → IsOpen d last b → IsOpen d now (record_failure now b)
  unfolding failure_in
  fail-opened last now b i =
      rw (i.at, i.wait) (record { at = refl; since_then = refl; wait = refl })

  run-IsOpen :
      (last : ℕ) (calls : List Call) (b : Breaker)
      → IsOpen d last b
      → AreEarly d last calls
      → (admitted calls b ≡ 0) × IsOpen d (last_of last calls) (run calls b)
  unfolding run perform admitted is_admitted
  run-IsOpen last [] b i h = (refl, i)
  run-IsOpen last (ask now ∷ calls) b i h =
      rw (ask-early now last b i h.0, refused_early now last b i h.0)
        (run-IsOpen last calls b i h.1)
  run-IsOpen last (succeed ∷ calls) b i h =
      rw (succeed-opened last b i) (run-IsOpen last calls b i h)
  run-IsOpen last (fail now ∷ calls) b i h =
      run-IsOpen now calls (record_failure now b) (fail-opened last now b i) h

  ask-late :
      (now last : ℕ) (b : Breaker)
      → IsOpen d last b
      → last + d < now
      → allow now b
        ≡ record { allowed = true; breaker = record b { state = half_open; half_open_cnt = pos 0 } }
  unfolding allow_in allow_open
  ask-late now last b i h = rw (i.at, i.since_then, i.wait, elapsed_late d last now h) refl

admitted-ask :
    (now : ℕ) (b : Breaker) (calls : List Call) {a : Answer}
    → allow now b ≡ a
    → admitted (ask now ∷ calls) b
      ≡ (if a.allowed then suc (admitted calls a.breaker) else admitted calls a.breaker)
unfolding admitted is_admitted perform
admitted-ask now b calls e =
    ap
      (λ (a : Answer).
        if a.allowed then suc (admitted calls a.breaker) else admitted calls a.breaker)
      e

run-ask :
    (now : ℕ) (b : Breaker) (calls : List Call) {a : Answer}
    → allow now b ≡ a
    → (run (ask now ∷ calls) b).state ≡ (run calls a.breaker).state
unfolding run perform
run-ask now b calls e = ap (λ (a : Answer). (run calls a.breaker).state) e

-- A half-open breaker that has counted `c` requests of at most `m`.
pub record IsTrial (m c : ℕ) (b : Breaker) : Type 0 where
  pub at : b.state ≡ half_open
  pub count : b.half_open_cnt ≡ pos c
  pub limit : b.half_open_max ≡ pos m

-- `n` if it is less than `k`, and else `k`
abbrev pub minimum : ℕ → ℕ → ℕ
minimum n k = if ltb n k then n else k

module _ (m : ℕ) (fits : m ≤ 9223372036854775807) where
  allow-counted :
      (c now : ℕ) (b : Breaker)
      → IsTrial m c b
      → c < m
      → allow now b ≡ record { allowed = true; breaker = record b { half_open_cnt = pos (suc c) } }
  unfolding allow_in allow_half_open
  allow-counted c now b i h =
      let e = increment-pos c (omega arith) in
      let r : leb_ℤ (pos m) (pos c) ≡ false = ground arith in rw (i.at, i.count, i.limit, e, r) refl

  allow-full :
      (c now : ℕ) (b : Breaker)
      → IsTrial m c b
      → m ≤ c
      → allow now b ≡ record { allowed = false; breaker = b }
  unfolding allow_in allow_half_open
  allow-full c now b i h =
      let r : leb_ℤ (pos m) (pos c) ≡ true = ground arith in rw (i.at, i.count, i.limit, r) refl

  run-IsTrial :
      (c : ℕ) (times : List ℕ) (b : Breaker)
      → IsTrial m c b
      → c ≤ m
      → (admitted (map ask times) b ≡ minimum (length times) (m - c))
        × ((run (map ask times) b).state ≡ half_open)
  unfolding run admitted
  run-IsTrial c [] b i h = (ground arith, i.at)
  run-IsTrial c (now ∷ times) b i h = elim (Bool-cases (ltb c m)) [
    | inl more ↦
        let e = allow-counted c now b i (ground arith) in
        let (n, s) =
          run-IsTrial (suc c) times (record b { half_open_cnt = pos (suc c) })
            (record { at = i.at; count = refl; limit = i.limit }) (ground arith) in
        (
          admitted-ask now b (map ask times) e ∙ ground (arith, n),
          run-ask now b (map ask times) e ∙ s,
        )
    | inr full ↦
        let e = allow-full c now b i (ground arith) in
        let (n, s) = run-IsTrial c times b i h in
        (
          admitted-ask now b (map ask times) e ∙ ground (arith, n),
          run-ask now b (map ask times) e ∙ s,
        )
  ]

allow-limit :
    (s : State) (now : ℕ) (b : Breaker) → (allow_in s now b).breaker.half_open_max ≡ b.half_open_max
unfolding allow_in allow_open allow_half_open
allow-limit closed now b = refl
allow-limit opened now b = ground arith
allow-limit half_open now b = ground arith

success-limit : (s : State) (b : Breaker) → (success_in s b).half_open_max ≡ b.half_open_max
unfolding success_in
success-limit closed b = refl
success-limit opened b = refl
success-limit half_open b = refl

failure-limit : (s : State) (b : Breaker) → (failure_in s b).half_open_max ≡ b.half_open_max
unfolding failure_in
failure-limit closed b = ground arith
failure-limit opened b = refl
failure-limit half_open b = refl

perform-limit : (c : Call) (b : Breaker) → (perform c b).half_open_max ≡ b.half_open_max
unfolding perform
perform-limit (ask now) b = allow-limit b.state now b
perform-limit succeed b = success-limit b.state b
perform-limit (fail now) b = failure-limit b.state _

run-limit : (calls : List Call) (b : Breaker) → (run calls b).half_open_max ≡ b.half_open_max
unfolding run
run-limit [] b = refl
run-limit (c ∷ calls) b = run-limit calls (perform c b) ∙ perform-limit c b

-- A breaker that has opened refuses every request that comes within the timeout of the failure
-- before it, and stays open. The first request that comes later is admitted, and of it and those
-- that follow it, until one of them reports its end, one more is admitted than the number that is
-- meant to be the maximum; meanwhile the breaker is half-open.
pub admitted-opened :
    (d m last : ℕ) (b : Breaker) (calls : List Call) (now : ℕ) (times : List ℕ)
    → m ≤ 9223372036854775807
    → b.half_open_max ≡ pos m
    → IsOpen d last b
    → AreEarly d last calls
    → last_of last calls + d < now
    → (admitted calls b ≡ 0)
      × ((run calls b).state ≡ opened)
      × (admitted (map ask (now ∷ times)) (run calls b) ≡ minimum (suc (length times)) (suc m))
      × ((run (map ask (now ∷ times)) (run calls b)).state ≡ half_open)
admitted-opened d m last b calls now times fits limit i early late =
    let (none_admitted, j) = run-IsOpen d last calls b i early in
    let e = ask-late d now (last_of last calls) (run calls b) j late in
    let (n, s) =
      run-IsTrial m fits 0 times (record (run calls b) { state = half_open; half_open_cnt = pos 0 })
        (record { at = refl; count = refl; limit = run-limit calls b ∙ limit }) (omega arith) in
    (
      none_admitted,
      j.at,
      admitted-ask now (run calls b) (map ask times) e ∙ ground (arith, n),
      run-ask now (run calls b) (map ask times) e ∙ s,
    )
