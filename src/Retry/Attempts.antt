-- ===== src/Retry/Attempts.antt =====
-- internal/retry/retry.go: `Do`. The function is its error at each attempt, `none` for success; the
-- context is whether it ends the wait behind an attempt, and the random part of a delay is a
-- function of the delay.
pub mod Ending
pub mod Delays
pub mod Runs
use wdbgp.Prelude.{
  none, some, ℕ, List, Option, ◌*◌, Bool, ◌^◌, ◌-◌, ◌%◌, [], if◌then◌else◌, leb, ltb, suc, ◌+◌, not,
  ◌∷◌, zero,
}

pub record Config : Type 0 where
  pub max_attempts : ℕ
  pub base_delay : ℕ
  pub max_delay : ℕ

-- `DefaultConfig`, `HTTPConfig`, `DatabaseConfig` and `BGPConfig`.
abbrev pub default_config : Config
default_config = record { max_attempts = 3; base_delay = 100000000; max_delay = 30000000000 }

abbrev pub http_config : Config
http_config = record { max_attempts = 3; base_delay = 1000000000; max_delay = 30000000000 }

abbrev pub database_config : Config
database_config = record { max_attempts = 5; base_delay = 50000000; max_delay = 5000000000 }

abbrev pub bgp_config : Config
bgp_config = record { max_attempts = 10; base_delay = 2000000000; max_delay = 60000000000 }

-- The delay behind an attempt: 64-bit arithmetic, in which a product that reads as negative is not
-- above the maximum and makes no wait.
pub delay_of : Config → ℕ → ℕ
delay_of config attempt =
    let product = config.base_delay * 2 ^ attempt % 2 ^ 64 in
    if leb (2 ^ 63) product
    then 0
    else if ltb config.max_delay product
    then config.max_delay
    else product

-- What `Do` returns: nil, the last error or the context's.
pub data Ended (E : Type 0) : Type 0 where
  succeeded : Ended E
  gave_up : E → Ended E
  cancelled : Ended E

-- `last` is the last attempt, and `waits` are the delays that began.
pub record Run (E : Type 0) : Type 0 where
  pub ended : Ended E
  pub last : ℕ
  pub waits : List ℕ

module _ {E : Type 0} (config : Config) (fn : ℕ → Option E) (should_retry : E → Bool)
    (ctx_done : ℕ → Bool) (jitter : ℕ → ℕ) where
  abbrev stop : Ended E → ℕ → Run E
  stop ended attempt = record { ended = ended; last = attempt; waits = [] }

  -- The loop: `left` attempts may follow this one.
  pub retry_loop : ℕ → ℕ → Run E
  unfolding delay_of
  retry_loop zero attempt = elim (fn attempt) [
    | none ↦ stop succeeded attempt
    | some e ↦ stop (gave_up e) attempt
  ]
  retry_loop (suc left) attempt =
      let delay = delay_of config attempt in
      let wait = delay + jitter delay in
      let rest = retry_loop left (attempt + 1) in
      elim (fn attempt) [
        | none ↦ stop succeeded attempt
        | some e ↦
            if not (should_retry e)
            then stop (gave_up e) attempt
            else if ctx_done attempt
            then record { ended = cancelled; last = attempt; waits = wait ∷ [] }
            else record rest { waits = wait ∷ rest.waits }
      ]

  -- `Do`: fewer than one attempt is one.
  pub retry_do : Run E
  unfolding retry_loop
  retry_do = retry_loop (config.max_attempts - 1) 0

  -- `DoWithResult`, whose loop is that of `Do`: the value is the last attempt's, if it succeeded.
  pub retry_do_with_result : {V : Type 0} → (ℕ → V) → V → V × Ended E
  unfolding retry_do
  retry_do_with_result value zero_value =
      let run = retry_do in
      elim run.ended [
        | succeeded ↦ (value run.last, succeeded)
        | gave_up e ↦ (zero_value, gave_up e)
        | cancelled ↦ (zero_value, cancelled)
      ]
