-- ===== src/Retry/Breaker/Invariant.antt =====
-- What holds of a breaker in every state that its operations reach, in any interleaving of calls.
use wdbgp.Prelude.{if◌then◌else◌, ◌+◌, ◌≡◌, ℕ, ◌≤◌, ◌⊎◌, ◌<◌, inl, inr, refl, arith}
use wdbgp.Retry.Breaker.{
  State, closed, half_open, opened, CircuitBreakerConfig, CircuitBreaker, new_breaker,
  allow_request, Outcome, record_result, reset,
}

-- How many requests were let through since the breaker left the open state, after another one asks.
abbrev pub passed_after : CircuitBreakerConfig → ℕ → CircuitBreaker → ℕ → ℕ
passed_after cfg now cb passed =
    let allowed = (allow_request cfg now cb).0 in
    elim cb.state [
      | closed ↦ 0
      | half_open ↦ if allowed then passed + 1 else passed
      | opened ↦ if allowed then 1 else 0
    ]

-- Calls start and end in any order; `finish` is the end of one that ran. The number is that of the
-- requests that were let through since the breaker left the open state.
pub data Reachable (cfg : CircuitBreakerConfig) : ℕ → CircuitBreaker → Type 0 where
  fresh : Reachable cfg 0 new_breaker
  ask :
      (now passed : ℕ) (cb : CircuitBreaker)
      → Reachable cfg passed cb
      → Reachable cfg (passed_after cfg now cb passed) (allow_request cfg now cb).1
  finish :
      (now passed : ℕ) (outcome : Outcome) (cb : CircuitBreaker)
      → Reachable cfg passed cb
      → Reachable cfg passed (record_result cfg now outcome cb)
  restart :
      (passed : ℕ) (cb : CircuitBreaker) → Reachable cfg passed cb → Reachable cfg 0 (reset cb)

pub record IsUsable (cfg : CircuitBreakerConfig) : Type 0 where
  pub fails : 1 ≤ cfg.failure_threshold
  pub passes : 1 ≤ cfg.success_threshold

-- The counts are below their thresholds, and the requests that were let through are one more than the
-- counter says.
pub record IsSound (cfg : CircuitBreakerConfig) (passed : ℕ) (cb : CircuitBreaker) : Type 0 where
  pub failures : cb.state ≡ closed → cb.failure_count < cfg.failure_threshold
  pub successes : cb.state ≡ half_open → cb.success_count < cfg.success_threshold
  pub attempts : cb.state ≡ half_open → cb.half_open_count ≤ cfg.half_open_max_attempts
  pub let_through : cb.state ≡ half_open → passed ≡ cb.half_open_count + 1

State-cases : (s : State) → (s ≡ closed) ⊎ ((s ≡ half_open) ⊎ (s ≡ opened))
State-cases closed = inl refl
State-cases half_open = inr (inl refl)
State-cases opened = inr (inr refl)

allow_request-IsSound :
    (cfg : CircuitBreakerConfig) (now passed : ℕ) (cb : CircuitBreaker)
    → IsUsable cfg
    → IsSound cfg passed cb
    → IsSound cfg (passed_after cfg now cb passed) (allow_request cfg now cb).1
unfolding allow_request
allow_request-IsSound cfg now passed cb u h = elim (State-cases cb.state) [
  | inl s ↦ rw s (record {
    failures = λ e. h.failures s;
    successes = λ e. ground arith;
    attempts = λ e. ground arith;
    let_through = λ e. ground arith;
  })
  | inr (inl s) ↦ rw s (record {
    failures = λ e. ground arith;
    successes = λ e. ground (arith, h.successes s);
    attempts = λ e. ground (arith, h.attempts s);
    let_through = λ e. ground (arith, h.let_through s);
  })
  | inr (inr s) ↦ rw s (record {
    failures = λ e. ground arith;
    successes = λ e. ground arith;
    attempts = λ e. ground arith;
    let_through = λ e. ground arith;
  })
]

record_result-IsSound :
    (cfg : CircuitBreakerConfig) (now passed : ℕ) (outcome : Outcome) (cb : CircuitBreaker)
    → IsUsable cfg
    → IsSound cfg passed cb
    → IsSound cfg passed (record_result cfg now outcome cb)
unfolding record_result
record_result-IsSound cfg now passed outcome cb u h = elim (State-cases cb.state) [
  | inl s ↦ rw s (record {
    failures = λ e. ground (arith, h.failures s);
    successes = λ e. ground arith;
    attempts = λ e. ground arith;
    let_through = λ e. ground arith;
  })
  | inr (inl s) ↦ rw s (record {
    failures = λ e. ground arith;
    successes = λ e. ground (arith, h.successes s);
    attempts = λ e. ground (arith, h.attempts s);
    let_through = λ e. ground (arith, h.let_through s);
  })
  | inr (inr s) ↦ rw s (record {
    failures = λ e. ground arith;
    successes = λ e. ground arith;
    attempts = λ e. ground arith;
    let_through = λ e. ground arith;
  })
]

-- In every reachable state of a breaker with positive thresholds, the failures that a closed breaker
-- counts and the successes that a half-open one counts are below their thresholds; in the half-open
-- state the counter of attempts is at most the maximum, and the requests let through since the open
-- state, which include the one that left it, are one more than the counter.
pub Reachable-IsSound :
    (cfg : CircuitBreakerConfig) (passed : ℕ) (cb : CircuitBreaker)
    → IsUsable cfg
    → Reachable cfg passed cb
    → IsSound cfg passed cb
Reachable-IsSound cfg _ _ u fresh = record {
  failures = λ e. u.fails;
  successes = λ e. u.passes;
  attempts = λ e. omega arith;
  let_through = λ e. ground (arith, e);
}
Reachable-IsSound cfg _ _ u (ask now passed cb r) =
    allow_request-IsSound cfg now passed cb u (Reachable-IsSound cfg passed cb u r)
Reachable-IsSound cfg _ _ u (finish now passed outcome cb r) =
    record_result-IsSound cfg now passed outcome cb u (Reachable-IsSound cfg passed cb u r)
Reachable-IsSound cfg _ _ u (restart passed cb r) = record {
  failures = λ e. u.fails;
  successes = λ e. u.passes;
  attempts = λ e. omega arith;
  let_through = λ e. ground (arith, e);
}
