-- ===== src/Retry/Manager/Runs.antt =====
-- The manager with numbers for names.
use wdbgp.Prelude.{refl, ◌==◌, [], ◌∷◌, ◌≡◌}
use wdbgp.Retry.Breaker.{http_config, new_breaker}
use wdbgp.Retry.Manager.{reset_all, Managed}

abbrev worn : Managed
worn = record {
  cfg = http_config;
  breaker = record new_breaker { failure_count = 2; last_failure = 9 };
}

made_new :
    reset_all (λ a b. a == b) ((1, worn) ∷ [])
    ≡ (1, record { cfg = http_config; breaker = new_breaker }) ∷ []
unfolding reset_all
made_new = refl
