-- ===== src/Settings/Validators.antt =====
-- internal/settings/settings.go: the checks of numbers. Go's int is an integer here, of which no
-- check has more than 32 bits.
use wdbgp.Prelude.{Bool, ℕ, ltb, true, not, ◌==◌, ◌||◌, false, ◌&&◌}

pub data ℤ : Type 0 where
  pos : ℕ → ℤ
  negsuc : ℕ → ℤ

pub validate_positive : ℤ → Bool
validate_positive (pos n) = ltb 0 n
validate_positive (negsuc n) = false

unfoldable pub validate_percent : ℤ → Bool
validate_percent (pos n) = not (ltb n 1 || ltb 99 n)
validate_percent (negsuc n) = false

pub validate_non_negative : ℤ → Bool
validate_non_negative (pos n) = true
validate_non_negative (negsuc n) = false

pub validate_rate_limit : ℤ → Bool
validate_rate_limit (pos n) = ltb 0 n && not (ltb 1000 n)
validate_rate_limit (negsuc n) = false

pub validate_session_max_age : ℤ → Bool
validate_session_max_age (pos n) = n == 0 || not (ltb n 60) && not (ltb 31536000 n)
validate_session_max_age (negsuc n) = false

-- Of a number of 16 bits.
pub validate_port : ℕ → Bool
validate_port n = not (n == 0)

pub validate_hold_time : ℕ → Bool
validate_hold_time n = not (ltb n 3)

-- Of a number of 32 bits.
pub validate_asn : ℕ → Bool
validate_asn n = not (n == 0)
