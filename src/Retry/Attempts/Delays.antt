-- ===== src/Retry/Attempts/Delays.antt =====
-- The delays of `Do`.
use wdbgp.Prelude.{refl, ℕ, if◌then◌else◌, ◌*◌, ◌^◌, ltb, ◌<◌, ◌≡◌, ◌%◌, arith, leb, false}
use wdbgp.Retry.Attempts.{Config, delay_of}

abbrev pub min_of : ℕ → ℕ → ℕ
min_of m n = if ltb m n then m else n

-- Without overflow the delay doubles with each attempt up to the maximum.
pub delay_of_lem :
    (config : Config) (attempt : ℕ)
    → config.base_delay * 2 ^ attempt < 2 ^ 63
    → delay_of config attempt ≡ min_of config.max_delay (config.base_delay * 2 ^ attempt)
unfolding delay_of
delay_of_lem config attempt h =
    let product = config.base_delay * 2 ^ attempt in
    let whole : product % 2 ^ 64 ≡ product = omega arith in
    let positive : leb (2 ^ 63) product ≡ false = ground arith in rw (whole, positive) refl
