-- ===== src/Breaker.antt =====
-- internal/pkg/circuitbreaker/breaker.go: the circuit breaker. An operation takes the state and
-- gives the next one; each holds the mutex throughout, so a run of the program is a sequence of
-- them. Times are nanoseconds on one clock.
-- Its proofs are in the modules below.
mod Trips
mod HalfOpen
mod Recovery
mod Examples
use ang.Common.{ℕ, zero, suc, ◌-◌, Bool, true, false, List, [], ◌∷◌, if◌then◌else◌, leb, eqb}
use ang.Common.Int.{ℤ, pos, negsuc, ltb_ℤ, leb_ℤ}

pub data State : Type 0 where
  closed : State
  opened : State
  half_open : State

pub record Breaker : Type 0 where
  pub state : State
  pub failures : ℤ
  pub threshold : ℤ
  pub timeout : ℤ
  pub half_open_max : ℤ
  pub last_failure : ℕ
  pub half_open_cnt : ℤ

-- `NewBreaker`
abbrev pub new_breaker : (threshold timeout half_open_max : ℤ) → Breaker
new_breaker threshold timeout half_open_max = record {
  state = closed;
  failures = pos 0;
  threshold = threshold;
  timeout = timeout;
  half_open_max = half_open_max;
  last_failure = 0;
  half_open_cnt = pos 0;
}

-- `n++` on an int of 64 bits
unfoldable pub increment : ℤ → ℤ
increment (pos n) = if eqb n 9223372036854775807 then negsuc 9223372036854775807 else pos (suc n)
increment (negsuc zero) = pos 0
increment (negsuc (suc n)) = negsuc n

-- `time.Since`
unfoldable pub since : (now start : ℕ) → ℤ
since now start = if leb start now then pos (now - start) else negsuc (start - now - 1)

-- what Allow returns, and the state that it leaves
pub record Answer : Type 0 where
  pub allowed : Bool
  pub breaker : Breaker

unfoldable pub allow_open : ℕ → Breaker → Answer
allow_open now b =
    if ltb_ℤ b.timeout (since now b.last_failure)
    then record { allowed = true; breaker = record b { state = half_open; half_open_cnt = pos 0 } }
    else record { allowed = false; breaker = b }

unfoldable pub allow_half_open : Breaker → Answer
allow_half_open b =
    if leb_ℤ b.half_open_max b.half_open_cnt
    then record { allowed = false; breaker = b }
    else record { allowed = true; breaker = record b { half_open_cnt = increment b.half_open_cnt } }

unfoldable pub allow_in : State → ℕ → Breaker → Answer
allow_in closed now b = record { allowed = true; breaker = b }
allow_in opened now b = allow_open now b
allow_in half_open now b = allow_half_open b

-- `Allow`
abbrev pub allow : ℕ → Breaker → Answer
allow now b = allow_in b.state now b

unfoldable pub success_in : State → Breaker → Breaker
success_in closed b = record b { failures = pos 0 }
success_in opened b = b
success_in half_open b = record b { state = closed; failures = pos 0 }

-- `RecordSuccess`
abbrev pub record_success : Breaker → Breaker
record_success b = success_in b.state b

unfoldable pub failure_in : State → Breaker → Breaker
failure_in closed b = if leb_ℤ b.threshold b.failures then record b { state = opened } else b
failure_in opened b = b
failure_in half_open b = record b { state = opened }

-- `RecordFailure`
abbrev pub record_failure : ℕ → Breaker → Breaker
record_failure now b =
    failure_in b.state (record b { failures = increment b.failures; last_failure = now })

pub data Call : Type 0 where
  ask : (now : ℕ) → Call
  succeed : Call
  fail : (now : ℕ) → Call

unfoldable pub perform : Call → Breaker → Breaker
perform (ask now) b = (allow now b).breaker
perform succeed b = record_success b
perform (fail now) b = record_failure now b

-- calls one after the other
unfoldable pub run : List Call → Breaker → Breaker
run [] b = b
run (c ∷ calls) b = run calls (perform c b)

unfoldable pub is_admitted : Call → Breaker → Bool
is_admitted (ask now) b = (allow now b).allowed
is_admitted succeed b = false
is_admitted (fail now) b = false

-- how many of the requests among the calls are admitted
unfoldable pub admitted : List Call → Breaker → ℕ
admitted [] b = 0
admitted (c ∷ calls) b =
    let rest = admitted calls (perform c b) in if is_admitted c b then suc rest else rest
