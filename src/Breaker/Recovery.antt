-- ===== src/Breaker/Recovery.antt =====
-- The way of an open breaker back to a closed one.
use ang.Common.{
  ℕ, true, List, [], ◌∷◌, ◌++◌, map, ◌≡◌, refl, sym, ap, ◌∙◌, subst, inl, inr, Bool-cases,
}
use ang.Common.Int.{pos, ltb_ℤ, leb_ℤ}
use ang.Breaker.{
  State, Breaker, Answer, Call, perform, run, allow, allow_in, allow_open, allow_half_open,
  success_in, since,
}

run-append : (xs ys : List Call) (b : Breaker) → run (xs ++ ys) b ≡ run ys (run xs b)
unfolding run
run-append [] ys b = refl
run-append (c ∷ xs) ys b = run-append xs ys (perform c b)

-- a request leaves a breaker half open that is so
allow_half_open-stays :
    (b : Breaker) → b.state ≡ State.half_open → (allow_half_open b).breaker.state ≡ State.half_open
unfolding allow_half_open
allow_half_open-stays b h = elim (Bool-cases (leb_ℤ b.half_open_max b.half_open_cnt)) [
  | inl e ↦ rw e h
  | inr e ↦ rw e h
]

ask-stays :
    (now : ℕ) (b : Breaker)
    → b.state ≡ State.half_open
    → (perform (Call.ask now) b).state ≡ State.half_open
unfolding perform allow_in
ask-stays now b h = rw h (allow_half_open-stays (record b { state = State.half_open }) refl)

asks-stay :
    (asks : List ℕ) (b : Breaker)
    → b.state ≡ State.half_open
    → (run (map Call.ask asks) b).state ≡ State.half_open
unfolding run
asks-stay [] b h = h
asks-stay (now ∷ asks) b h = asks-stay asks (perform (Call.ask now) b) (ask-stays now b h)

-- The breaker is closed and counts no failure, and it admits whatever is asked.
pub record IsRecovered (b : Breaker) : Type 0 where
  pub state : b.state ≡ State.closed
  pub failures : b.failures ≡ pos 0
  pub admits : (now : ℕ) → (allow now b).allowed ≡ true

success-recovers : (b : Breaker) → b.state ≡ State.half_open → IsRecovered (perform Call.succeed b)
unfolding perform success_in allow_in
success-recovers b h = rw h record { state = refl; failures = refl; admits = λ now. refl }

allow_late :
    (b : Breaker) (now : ℕ)
    → b.state ≡ State.opened
    → ltb_ℤ b.timeout (since now b.last_failure) ≡ true
    → allow now b ≡ record {
      allowed = true;
      breaker = record b { state = State.half_open; half_open_cnt = pos 0 };
    }
unfolding allow_in allow_open
allow_late b now h late = ap (λ s. allow_in s now b) h ∙ rw late refl

ask-late :
    (b : Breaker) (now : ℕ)
    → b.state ≡ State.opened
    → ltb_ℤ b.timeout (since now b.last_failure) ≡ true
    → (perform (Call.ask now) b).state ≡ State.half_open
unfolding perform
ask-late b now h late = ap (λ (a : Answer). a.breaker.state) (allow_late b now h late)

-- An open breaker recovers: once its timeout is over, Allow admits a request, and if some more
-- requests are asked for and then a success is recorded, the breaker is closed, counts no failure and
-- admits every later request.
pub recovers :
    (b : Breaker) (now : ℕ) (asks : List ℕ)
    → b.state ≡ State.opened
    → ltb_ℤ b.timeout (since now b.last_failure) ≡ true
    → ((allow now b).allowed ≡ true)
      × IsRecovered (run (Call.ask now ∷ map Call.ask asks ++ Call.succeed ∷ []) b)
unfolding run
recovers b now asks h late = (
  ap (λ (a : Answer). a.allowed) (allow_late b now h late),
  subst IsRecovered
      (sym (run-append (map Call.ask asks) (Call.succeed ∷ []) (perform (Call.ask now) b)))
      (success-recovers _ (asks-stay asks _ (ask-late b now h late))),
)
