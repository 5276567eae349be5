-- ===== src/Retry/Attempts/Ending.antt =====
-- How `Do` ends, and after how many attempts.
use wdbgp.Prelude.{
  ℕ, Option, Bool, ◌≡◌, ◌≤◌, ◌+◌, Option-cases, ◌<◌, some, none, false, inl, true, ◌⊎◌, inr, suc,
  zero, arith, Bool-cases, [], ◌-◌, List, ◌==◌, ◌∷◌, subst,
}
use native.Mathlib.Nat.{zero-add}
use wdbgp.Retry.Attempts.{
  Config, delay_of, Ended, succeeded, gave_up, cancelled, Run, retry_loop, retry_do,
}

module _ {E : Type 0} (config : Config) (fn : ℕ → Option E) (should_retry : E → Bool)
    (ctx_done : ℕ → Bool) (jitter : ℕ → ℕ) where
  -- An attempt that another follows.
  abbrev pub IsRetried : ℕ → Type 0
  IsRetried i = (e : E) × (fn i ≡ some e) × (should_retry e ≡ true) × (ctx_done i ≡ false)

  -- The reason for the end, at the last attempt.
  abbrev pub EndsWith : ℕ → ℕ → Ended E → Type 0
  EndsWith limit i succeeded = fn i ≡ none
  EndsWith limit i (gave_up e) = (fn i ≡ some e) × ((should_retry e ≡ false) ⊎ (i ≡ limit))
  EndsWith limit i cancelled =
      (e : E) × (fn i ≡ some e) × (should_retry e ≡ true) × (ctx_done i ≡ true)

  pub record IsRun (from limit : ℕ) (run : Run E) : Type 0 where
    pub begins : from ≤ run.last
    pub bounded : run.last ≤ limit
    pub retried : (i : ℕ) → from ≤ i → i < run.last → IsRetried i
    pub ends : EndsWith limit run.last run.ended

  stops :
      (attempt limit : ℕ) (ended : Ended E) (waits : List ℕ)
      → attempt ≤ limit
      → EndsWith limit attempt ended
      → IsRun attempt limit (record { ended = ended; last = attempt; waits = waits })
  stops attempt limit ended waits h end = record {
    begins = omega arith;
    bounded = h;
    retried = λ i lo hi. absurd (omega arith);
    ends = end;
  }

  goes_on :
      (attempt limit : ℕ) (rest : Run E) (waits : List ℕ)
      → IsRetried attempt
      → IsRun (attempt + 1) limit rest
      → IsRun attempt limit (record rest { waits = waits })
  goes_on attempt limit rest waits again h = record {
    begins = omega (arith, h.begins);
    bounded = h.bounded;
    retried = λ i lo hi. elim (Bool-cases (i == attempt)) [
      | inl e ↦ subst IsRetried (ground arith) again
      | inr e ↦ h.retried i (ground arith) hi
    ];
    ends = h.ends;
  }

  retry_loop-IsRun :
      (left attempt : ℕ)
      → IsRun attempt
          (attempt + left)
          (retry_loop config fn should_retry ctx_done jitter left attempt)
  unfolding retry_loop
  retry_loop-IsRun zero attempt = elim (Option-cases (fn attempt)) [
    | inl right ↦
        rw (retry_loop, right) (stops attempt (attempt + 0) succeeded [] (omega arith) right)
    | inr (e, wrong) ↦
        rw (retry_loop, wrong)
          (stops attempt (attempt + 0) (gave_up e) [] (omega arith) (wrong, inr (omega arith)))
  ]
  retry_loop-IsRun (suc left) attempt =
      let limit = attempt + suc left in
      let wait = delay_of config attempt + jitter (delay_of config attempt) in
      let rest = retry_loop config fn should_retry ctx_done jitter left (attempt + 1) in
      elim (Option-cases (fn attempt)) [
        | inl right ↦ rw (retry_loop, right) (stops attempt limit succeeded [] (omega arith) right)
        | inr (e, wrong) ↦ elim (Bool-cases (should_retry e)) [
          | inr final ↦
              rw (retry_loop, wrong, final)
                (stops attempt limit (gave_up e) [] (omega arith) (wrong, inl final))
          | inl again ↦ elim (Bool-cases (ctx_done attempt)) [
            | inl done ↦
                rw (retry_loop, wrong, again, done)
                  (stops attempt limit cancelled (wait ∷ []) (omega arith) (e, wrong, again, done))
            | inr going ↦
                let same : attempt + 1 + left ≡ limit = omega arith in
                let later =
                  subst (λ (n : ℕ). IsRun (attempt + 1) n rest) same
                    (retry_loop-IsRun left (attempt + 1)) in
                rw (retry_loop, wrong, again, going)
                  (goes_on attempt limit rest (wait ∷ rest.waits) (e, wrong, again, going) later)
          ]
        ]
      ]

  -- `Do` makes from one to `MaxAttempts` attempts (one, if that is below one). Each but the last fails
  -- with an error that is retried, in a context that lives on; the last succeeds, or its error is not
  -- retried or no attempt is left, or the context ends the wait behind it, and the result says which.
  pub retry_do-IsRun :
      IsRun 0 (config.max_attempts - 1) (retry_do config fn should_retry ctx_done jitter)
  unfolding retry_do
  retry_do-IsRun =
      subst
        (λ (n : ℕ).
          IsRun 0 n (retry_loop config fn should_retry ctx_done jitter (config.max_attempts - 1) 0))
        (zero-add (config.max_attempts - 1)) (retry_loop-IsRun (config.max_attempts - 1) 0)
