-- ===== src/Retry/Breaker/Runs.antt =====
-- Concrete runs of the breaker, and the theorems at them.
use wdbgp.Prelude.{false, refl, ◌∷◌, arith, ◌≡◌, List, replicate, [], ◌++◌}
use wdbgp.Retry.Breaker.{
  CircuitBreakerConfig, closed, half_open, opened, CircuitBreaker, database_config, http_config,
  new_breaker, allow_request, record_result, success, transient, Call, execute_all,
}
use wdbgp.Retry.Breaker.Run.{fail_at, fail_at_opens, execute_all_stuck}
use wdbgp.Retry.Breaker.Invariant.{fresh, ask, finish, IsSound, Reachable-IsSound}

fail_at_opens_example :
    let after =
      record_result http_config 3 transient (fail_at http_config (1 ∷ 2 ∷ []) new_breaker) in
    ((fail_at http_config (1 ∷ []) new_breaker).state ≡ closed)
    × (after.state ≡ opened)
    × ((allow_request http_config 60000000003 after).0 ≡ false)
fail_at_opens_example =
    fail_at_opens http_config (1 ∷ []) (1 ∷ 2 ∷ []) 3 60000000003 (omega arith) (omega arith)

abbrev failing : Call
failing = record { start = 0; finish = 0; outcome = transient }

abbrev recovered : Call
recovered = record { start = 10000000001; finish = 10000000001; outcome = success }

-- Ten failures, and after the timeout two successes: one success less than the breaker asks for.
abbrev trial : List Call
trial = replicate 10 failing ++ (recovered ∷ recovered ∷ [])

abbrev used_up : CircuitBreaker
used_up = record {
  state = half_open;
  failure_count = 10;
  success_count = 2;
  half_open_count = 1;
  last_failure = 0;
  open_until = 10000000000;
}

trial_ends : execute_all database_config trial new_breaker ≡ (12, used_up)
unfolding execute_all
trial_ends = refl

execute_all_stuck_example :
    execute_all database_config (recovered ∷ recovered ∷ []) used_up ≡ (0, used_up)
execute_all_stuck_example =
    execute_all_stuck database_config (recovered ∷ recovered ∷ []) used_up refl (omega arith)

abbrev down_at_once : CircuitBreakerConfig
down_at_once = record database_config { failure_threshold = 1 }

abbrev failed_once : CircuitBreaker
failed_once = record_result down_at_once 0 transient new_breaker

-- The first request after the timeout, and its success.
abbrev one_success : CircuitBreaker
one_success =
    record_result down_at_once 10000000001 success
      (allow_request down_at_once 10000000001 failed_once).1

abbrev second_asks : CircuitBreaker
second_asks = (allow_request down_at_once 10000000002 one_success).1

second_passes : (second_asks.state ≡ half_open) × (second_asks.half_open_count ≡ 1)
unfolding allow_request record_result
second_passes = (refl, refl)

Reachable-IsSound_example : IsSound down_at_once 2 second_asks
unfolding allow_request record_result
Reachable-IsSound_example =
    Reachable-IsSound down_at_once 2 second_asks
      (record { fails = omega arith; passes = omega arith })
      (ask 10000000002 1 one_success (
        finish 10000000001 1 success (allow_request down_at_once 10000000001 failed_once).1
          (ask 10000000001 0 failed_once (finish 0 0 transient new_breaker fresh))))
