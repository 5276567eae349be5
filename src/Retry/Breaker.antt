-- ===== src/Retry/Breaker.antt =====
-- internal/retry/circuitbreaker.go. The lock makes each operation one step; the time of the clock is
-- an argument of the operations that read it, and the zero time is 0.
pub mod Run
pub mod Invariant
pub mod Runs
use wdbgp.Prelude.{ℕ, List, Bool, ◌*◌, if◌then◌else◌, ◌∷◌, ◌+◌, true, leb, false, [], ltb}

pub data State : Type 0 where
  closed half_open opened : State

-- `CircuitBreakerConfig` without the name, which is only for the log.
pub record CircuitBreakerConfig : Type 0 where
  pub failure_threshold : ℕ
  pub success_threshold : ℕ
  pub open_timeout : ℕ
  pub half_open_max_attempts : ℕ

-- A second, as a `time.Duration`.
abbrev second : ℕ
second = 1000000000

abbrev pub default_config : CircuitBreakerConfig
default_config = record {
  failure_threshold = 5;
  success_threshold = 2;
  open_timeout = 30 * second;
  half_open_max_attempts = 1;
}

abbrev pub http_config : CircuitBreakerConfig
http_config = record {
  failure_threshold = 3;
  success_threshold = 1;
  open_timeout = 60 * second;
  half_open_max_attempts = 1;
}

abbrev pub database_config : CircuitBreakerConfig
database_config = record {
  failure_threshold = 10;
  success_threshold = 3;
  open_timeout = 10 * second;
  half_open_max_attempts = 1;
}

pub record CircuitBreaker : Type 0 where
  pub state : State
  pub failure_count : ℕ
  pub success_count : ℕ
  pub half_open_count : ℕ
  pub last_failure : ℕ
  pub open_until : ℕ

-- `NewCircuitBreaker`.
abbrev pub new_breaker : CircuitBreaker
new_breaker = record {
  state = closed;
  failure_count = 0;
  success_count = 0;
  half_open_count = 0;
  last_failure = 0;
  open_until = 0;
}

-- `allowRequest`: whether a request may run.
pub allow_request : CircuitBreakerConfig → ℕ → CircuitBreaker → Bool × CircuitBreaker
allow_request cfg now cb = elim cb.state [
  | closed ↦ (true, cb)
  | half_open ↦
      if leb cfg.half_open_max_attempts cb.half_open_count
      then (false, cb)
      else (true, record cb { half_open_count = cb.half_open_count + 1 })
  | opened ↦
      if ltb cb.open_until now
      then (true, record cb { state = half_open; half_open_count = 0; success_count = 0 })
      else (false, cb)
]

-- What a request came to: `TransientError` tells the two kinds of errors apart.
pub data Outcome : Type 0 where
  success transient permanent : Outcome

abbrev pub is_transient : Outcome → Bool
is_transient transient = true
is_transient _ = false

abbrev pub fail_closed : CircuitBreakerConfig → ℕ → CircuitBreaker → CircuitBreaker
fail_closed cfg now cb =
    let failed = record cb { failure_count = cb.failure_count + 1; last_failure = now } in
    if leb cfg.failure_threshold (cb.failure_count + 1)
    then record failed { state = opened; open_until = now + cfg.open_timeout }
    else failed

abbrev pub pass_half_open : CircuitBreakerConfig → CircuitBreaker → CircuitBreaker
pass_half_open cfg cb =
    if leb cfg.success_threshold (cb.success_count + 1)
    then record cb { state = closed; failure_count = 0; success_count = 0 }
    else record cb { success_count = cb.success_count + 1 }

-- `recordResult`.
pub record_result : CircuitBreakerConfig → ℕ → Outcome → CircuitBreaker → CircuitBreaker
record_result cfg now outcome cb = elim cb.state [
  | closed ↦
      if is_transient outcome
      then fail_closed cfg now cb
      else record cb { failure_count = 0; success_count = cb.success_count + 1 }
  | half_open ↦
      if is_transient outcome
      then record cb {
        state = opened;
        open_until = now + cfg.open_timeout;
        failure_count = cb.failure_count + 1;
        last_failure = now;
      }
      else pass_half_open cfg cb
  | opened ↦ cb
]

-- `reset`, of `Reset`.
abbrev pub reset : CircuitBreaker → CircuitBreaker
reset cb = new_breaker

-- A call: when it starts and ends, and what the function gives if it runs.
pub record Call : Type 0 where
  pub start : ℕ
  pub finish : ℕ
  pub outcome : Outcome

-- `Execute`, when no other call runs: whether the function ran. `ExecuteWithResult` is the same with
-- a result.
pub execute : CircuitBreakerConfig → Call → CircuitBreaker → Bool × CircuitBreaker
unfolding allow_request record_result
execute cfg call cb =
    let (allowed, cb') = allow_request cfg call.start cb in
    if allowed then (true, record_result cfg call.finish call.outcome cb') else (false, cb')

-- Calls one after the other: how many functions ran.
pub execute_all : CircuitBreakerConfig → List Call → CircuitBreaker → ℕ × CircuitBreaker
unfolding execute
execute_all cfg [] cb = (0, cb)
execute_all cfg (call ∷ calls) cb =
    let (ran, cb') = execute cfg call cb in
    let (n, last) = execute_all cfg calls cb' in (if ran then n + 1 else n, last)
