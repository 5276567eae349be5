-- ===== src/Retry/Manager.antt =====
-- The manager of circuitbreaker.go: a map of breakers by name, the newest last. A breaker that it
-- hands out is the map's own.
mod Runs
use wdbgp.Prelude.{
  refl, none, some, Bool, ◌∷◌, ◌≡◌, Option, List, ◌++◌, true, [], if◌then◌else◌, Bool-cases, inl,
  arith, inr, Option-cases, subst, sym, ◌∙◌,
}
use wdbgp.Retry.Breaker.{CircuitBreakerConfig, CircuitBreaker, new_breaker, reset}

-- A breaker with its configuration.
pub record Managed : Type 0 where
  pub cfg : CircuitBreakerConfig
  pub breaker : CircuitBreaker

module _ {K : Type 0} (same : K → K → Bool) where
  abbrev pub CircuitBreakerManager : Type 0
  CircuitBreakerManager = List (K × Managed)

  -- `Get`; `none` is nil.
  pub get : K → CircuitBreakerManager → Option Managed
  get name [] = none
  get name (b ∷ bs) = let rest = get name bs in if same name b.0 then some b.1 else rest

  -- `NewCircuitBreaker` for a name that the map does not have.
  pub get_or_create :
      K → CircuitBreakerConfig → CircuitBreakerManager → Managed × CircuitBreakerManager
  unfolding get
  get_or_create name cfg m = elim (get name m) [
    | some b ↦ (b, m)
    | none ↦
        let b : Managed = record { cfg = cfg; breaker = new_breaker } in (b, m ++ ((name, b) ∷ []))
  ]

  -- `ResetAll`.
  pub reset_all : CircuitBreakerManager → CircuitBreakerManager
  reset_all [] = []
  reset_all (b ∷ bs) = (b.0, record { cfg = b.1.cfg; breaker = reset b.1.breaker }) ∷ reset_all bs

  get-append-none :
      (name : K) (m n : CircuitBreakerManager) → get name m ≡ none → get name (m ++ n) ≡ get name n
  unfolding get
  get-append-none name [] n h = refl
  get-append-none name (b ∷ bs) n h = elim (Bool-cases (same name b.0)) [
    | inl e ↦ absurd (ground (arith, rw e at h))
    | inr e ↦ rw e (get-append-none name bs n (rw e at h))
  ]

  known :
      (name : K) (cfg : CircuitBreakerConfig) (m : CircuitBreakerManager) (b : Managed)
      → get name m ≡ some b
      → get_or_create name cfg m ≡ (b, m)
  unfolding get_or_create
  known name cfg m b e = rw (get_or_create, e) refl

  abbrev created : CircuitBreakerConfig → Managed
  created cfg = record { cfg = cfg; breaker = new_breaker }

  unknown :
      (name : K) (cfg : CircuitBreakerConfig) (m : CircuitBreakerManager)
      → get name m ≡ none
      → get_or_create name cfg m ≡ (created cfg, m ++ ((name, created cfg) ∷ []))
  unfolding get_or_create
  unknown name cfg m e = rw (get_or_create, e) refl

  get_last : (name : K) (b : Managed) → same name name ≡ true → get name ((name, b) ∷ []) ≡ some b
  unfolding get
  get_last name b h = rw h refl

  -- A breaker that the map has under the name, and that a later call gives again.
  abbrev pub IsKept : K → CircuitBreakerConfig → Managed × CircuitBreakerManager → Type 0
  IsKept name later x = (get name x.1 ≡ some x.0) × (get_or_create name later x.1 ≡ x)

  -- If a name is the same as itself, the breaker that GetOrCreate gives is what the map then has under
  -- the name, and a later call with any configuration gives it again and leaves the map as it is.
  pub get_or_create_once :
      (name : K) (cfg later : CircuitBreakerConfig) (m : CircuitBreakerManager)
      → same name name ≡ true
      → IsKept name later (get_or_create name cfg m)
  get_or_create_once name cfg later m h = elim (Option-cases (get name m)) [
    | inr (b, e) ↦
        subst (IsKept name later) (sym (known name cfg m b e)) (e, known name later m b e)
    | inl e ↦
        let new = (name, created cfg) ∷ [] in
        let found : get name (m ++ new) ≡ some (created cfg) =
          get-append-none name m new e ∙ get_last name (created cfg) h in
        subst (IsKept name later) (sym (unknown name cfg m e))
          (found, known name later (m ++ new) (created cfg) found)
  ]
