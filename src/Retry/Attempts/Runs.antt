-- ===== src/Retry/Attempts/Runs.antt =====
-- Concrete runs of `Do`, and the theorems at them.
use wdbgp.Prelude.{
  refl, ◌≡◌, ℕ, Bool, Option, ◌∷◌, arith, if◌then◌else◌, false, true, [], ◌==◌, none, some, ◌*◌,
}
use wdbgp.Retry.Attempts.{bgp_config, delay_of, succeeded, retry_do, retry_do_with_result}
use wdbgp.Retry.Attempts.Ending.{IsRun, retry_do-IsRun}
use wdbgp.Retry.Attempts.Delays.{delay_of_lem}

-- Two errors, then success.
abbrev third_time : ℕ → Option ℕ
third_time i = if i == 2 then none else some i

abbrev always : ℕ → Bool
always e = true

abbrev lives : ℕ → Bool
lives i = false

abbrev steady : ℕ → ℕ
steady delay = 0

-- The waits double.
third_run :
    retry_do bgp_config third_time always lives steady
    ≡ record { ended = succeeded; last = 2; waits = 2000000000 ∷ 4000000000 ∷ [] }
unfolding retry_do
third_run = refl

retry_do-IsRun_example :
    IsRun bgp_config third_time always lives steady 0 9
      (retry_do bgp_config third_time always lives steady)
retry_do-IsRun_example = retry_do-IsRun bgp_config third_time always lives steady

delays_capped : delay_of bgp_config 6 ≡ 60000000000
delays_capped = delay_of_lem bgp_config 6 (omega arith)

third_value :
    retry_do_with_result bgp_config third_time always lives steady (λ i. i * 7) 0 ≡ (14, succeeded)
unfolding retry_do_with_result
third_value = refl
