-- ===== src/Retry/Breaker/Run.antt =====
-- When the breaker opens, and when it lets nothing through.
use wdbgp.Prelude.{
  ltb, refl, ℕ, List, ◌∷◌, ◌≡◌, [], ◌+◌, length, ◌<◌, arith, leb, ◌≤◌, false, true, ap, ◌∙◌, subst,
  suc, sym,
}
use wdbgp.Retry.Breaker.{
  fail_closed, closed, half_open, opened, CircuitBreakerConfig, CircuitBreaker, new_breaker,
  allow_request, transient, record_result, Call, execute, execute_all,
}

-- Transient failures at these times, one after the other.
abbrev pub fail_at : CircuitBreakerConfig → List ℕ → CircuitBreaker → CircuitBreaker
fail_at cfg [] cb = cb
fail_at cfg (now ∷ times) cb = fail_at cfg times (record_result cfg now transient cb)

fail_now :
    (cfg : CircuitBreakerConfig) (now : ℕ) (cb : CircuitBreaker)
    → cb.state ≡ closed
    → record_result cfg now transient cb ≡ fail_closed cfg now cb
unfolding record_result
fail_now cfg now cb c = rw c refl

-- The failures before the threshold are only counted.
fail_at_count :
    (cfg : CircuitBreakerConfig) (times : List ℕ) (cb : CircuitBreaker)
    → cb.state ≡ closed
    → cb.failure_count + length times < cfg.failure_threshold
    → ((fail_at cfg times cb).state ≡ closed)
      × ((fail_at cfg times cb).failure_count ≡ cb.failure_count + length times)
fail_at_count cfg [] cb c h = (c, omega arith)
fail_at_count cfg (now ∷ times) cb c h =
    let below : leb cfg.failure_threshold (cb.failure_count + 1) ≡ false = ground arith in
    let cb' : CircuitBreaker = record cb {
      failure_count = cb.failure_count + 1;
      last_failure = now;
    } in
    let (still, count) = fail_at_count cfg times cb' c (omega arith) in
    let step : record_result cfg now transient cb ≡ cb' = fail_now cfg now cb c ∙ rw below refl in
    subst
      (λ (x : CircuitBreaker).
        ((fail_at cfg times x).state ≡ closed)
        × ((fail_at cfg times x).failure_count ≡ cb.failure_count + suc (length times)))
      (sym step) (still, omega (arith, count))

-- The failure that reaches the threshold.
opens_now :
    (cfg : CircuitBreakerConfig) (now : ℕ) (cb : CircuitBreaker)
    → cb.state ≡ closed
    → cfg.failure_threshold ≤ cb.failure_count + 1
    → record_result cfg now transient cb ≡ record cb {
      state = opened;
      failure_count = cb.failure_count + 1;
      last_failure = now;
      open_until = now + cfg.open_timeout;
    }
opens_now cfg now cb c h =
    let reached : leb cfg.failure_threshold (cb.failure_count + 1) ≡ true = ground arith in
    fail_now cfg now cb c ∙ rw reached refl

-- An open breaker lets a request through once the timeout is over, and not before.
allow_request-opened :
    (cfg : CircuitBreakerConfig) (now : ℕ) (cb : CircuitBreaker)
    → cb.state ≡ opened
    → (allow_request cfg now cb).0 ≡ ltb cb.open_until now
unfolding allow_request
allow_request-opened cfg now cb s = rw s (ground arith)

-- A new breaker is closed after any fewer transient failures in a row than the threshold; with the
-- failure that reaches the threshold it opens, and then it lets the next request through exactly if
-- that comes later than the open timeout after this failure.
pub fail_at_opens :
    (cfg : CircuitBreakerConfig) (fewer times : List ℕ) (now later : ℕ)
    → length fewer < cfg.failure_threshold
    → length times + 1 ≡ cfg.failure_threshold
    → let after = record_result cfg now transient (fail_at cfg times new_breaker) in
      ((fail_at cfg fewer new_breaker).state ≡ closed)
      × (after.state ≡ opened)
      × ((allow_request cfg later after).0 ≡ ltb (now + cfg.open_timeout) later)
fail_at_opens cfg fewer times now later few h =
    let before = fail_at cfg times new_breaker in
    let after = record_result cfg now transient before in
    let (still, count) = fail_at_count cfg times new_breaker refl (omega arith) in
    let step = opens_now cfg now before still (omega (arith, count)) in
    let is_open : after.state ≡ opened = ap (λ (x : CircuitBreaker). x.state) step in
    let until : after.open_until ≡ now + cfg.open_timeout =
      ap (λ (x : CircuitBreaker). x.open_until) step in
    (
      (fail_at_count cfg fewer new_breaker refl (omega arith)).0,
      is_open,
      allow_request-opened cfg later after is_open ∙ ap (λ n. ltb n later) until,
    )

refuses :
    (cfg : CircuitBreakerConfig) (now : ℕ) (cb : CircuitBreaker)
    → cb.state ≡ half_open
    → cfg.half_open_max_attempts ≤ cb.half_open_count
    → allow_request cfg now cb ≡ (false, cb)
unfolding allow_request
refuses cfg now cb s h =
    let full : leb cfg.half_open_max_attempts cb.half_open_count ≡ true = ground arith in
    rw (s, full) refl

execute_stuck :
    (cfg : CircuitBreakerConfig) (call : Call) (cb : CircuitBreaker)
    → cb.state ≡ half_open
    → cfg.half_open_max_attempts ≤ cb.half_open_count
    → execute cfg call cb ≡ (false, cb)
unfolding execute
execute_stuck cfg call cb s h = rw (refuses cfg call.start cb s h) refl

-- A half-open breaker that has used up its attempts lets no call of a sequence run and never changes,
-- however much time passes.
pub execute_all_stuck :
    (cfg : CircuitBreakerConfig) (calls : List Call) (cb : CircuitBreaker)
    → cb.state ≡ half_open
    → cfg.half_open_max_attempts ≤ cb.half_open_count
    → execute_all cfg calls cb ≡ (0, cb)
unfolding execute_all
execute_all_stuck cfg [] cb s h = refl
execute_all_stuck cfg (call ∷ calls) cb s h =
    rw (execute_stuck cfg call cb s h, execute_all_stuck cfg calls cb s h) refl
