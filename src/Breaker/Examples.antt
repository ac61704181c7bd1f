-- ===== src/Breaker/Examples.antt =====
-- Runs of the breaker, and the theorems at concrete calls.
use ang.Common.{
  true, ℕ, suc, List, [], ◌∷◌, ◌++◌, ◌≡◌, refl, arith, map, length, leb, if◌then◌else◌,
}
use ang.Common.Int.{pos}
use ang.Breaker.{
  closed, opened, half_open, Breaker, Call, ask, succeed, fail, new_breaker, increment, allow_in,
  success_in, failure_in, record_failure, perform, run, admitted, allow, since,
}
use ang.Breaker.Recovery.{IsRecovered, recovers}
use ang.Breaker.Trips.{trips, requests, streak}
use ang.Breaker.HalfOpen.{admitted-opened, minimum}

-- two failures of at most three, and a success between them
abbrev calm : List Call
calm = ask 1 ∷ fail 2 ∷ succeed ∷ fail 3 ∷ fail 4 ∷ ask 5 ∷ []

abbrev fresh : Breaker
fresh = new_breaker (pos 3) (pos 10) (pos 2)

abbrev tripped : Breaker
tripped = record fresh { state = opened; failures = pos 3; last_failure = 6 }

abbrev late : List ℕ
late = 20 ∷ 21 ∷ 22 ∷ []

run-fresh : run (calm ++ fail 6 ∷ []) fresh ≡ tripped
unfolding run perform allow_in success_in failure_in increment
run-fresh = refl

trips_example :
    ((run calm fresh).state ≡ closed)
    × (admitted calm fresh ≡ requests calm)
    × ((record_failure 6 (run calm fresh)).state
        ≡ (if leb 3 (suc (streak 0 calm)) then opened else closed))
    × ((record_failure 6 (run calm fresh)).last_failure ≡ 6)
trips_example =
    trips 3 (pos 10) (pos 2) calm 6 (omega arith)
      (omega arith, (omega arith, (omega arith, (omega arith, omega arith))))

admitted-opened_example :
    (admitted (ask 16 ∷ fail 8 ∷ ask 18 ∷ []) tripped ≡ 0)
    × ((run (ask 16 ∷ fail 8 ∷ ask 18 ∷ []) tripped).state ≡ opened)
    × (admitted (map ask (19 ∷ late)) (run (ask 16 ∷ fail 8 ∷ ask 18 ∷ []) tripped)
        ≡ minimum (suc (length late)) 3)
    × ((run (map ask (19 ∷ late)) (run (ask 16 ∷ fail 8 ∷ ask 18 ∷ []) tripped)).state ≡ half_open)
admitted-opened_example =
    admitted-opened 10 2 6 tripped (ask 16 ∷ fail 8 ∷ ask 18 ∷ []) 19 late (omega arith) refl
      (record { at = refl; since_then = refl; wait = refl }) (omega arith, (omega arith, tt))
      (omega arith)

recovers_example :
    ((allow 20 tripped).allowed ≡ true)
    × IsRecovered (run (ask 20 ∷ map ask (21 ∷ 22 ∷ []) ++ succeed ∷ []) tripped)
unfolding since
recovers_example = recovers tripped 20 (21 ∷ 22 ∷ []) refl refl
