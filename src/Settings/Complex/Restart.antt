-- ===== src/Settings/Complex/Restart.antt =====
-- internal/settings/setting.go, complexSetting: the value in memory is the one that a restart finds.
use wdbgp.Prelude.{ℕ, Option, ◌≡◌, true, some, [], Bool, none, ◌==◌, ap, ◌∙◌, false}
use wdbgp.Settings.{ok, World, publish, start_value, env_text, check_default, or_default}
use wdbgp.Settings.Complex.{
  Complex, new, set, set_tx, reset, reset_tx, validated, resettable, default_parsed,
}
use wdbgp.Settings.Start.{default-checked, set-start, reset-start, start-valid}
use wdbgp.Settings.Invariant.{persist-IsCurrent, persist_tx-IsCurrent, write-other}
use wdbgp.Settings.{write, on_change, unregister}

module _ {Text T : Type 0} (s : Complex Text T) (env : ℕ → Option Text) where
  -- The setting as its operations, the commits of transactions and the writes of other settings
  -- leave it. A transaction that is rolled back leaves it as it was, and what is published after a commit is the value of that transaction.
  pub data Reachable : World Text T → Type 0 where
    started :
        (database : ℕ → Option Text) (v : T)
        → new s env database ≡ ok v
        → Reachable (record { value = v; callbacks = []; database = database; told = [] })
    changed :
        (saves : Bool) (v : Text) (w : World Text T)
        → Reachable w
        → Reachable (set s env saves v w).1
    restored : (saves : Bool) (w : World Text T) → Reachable w → Reachable (reset s env saves w).1
    committed :
        (saves : Bool) (v : Text) (x : T) (database : ℕ → Option Text) (w : World Text T)
        → set_tx s env saves v w.database ≡ ok (x, database)
        → Reachable w
        → Reachable (publish x (record w { database = database }))
    committed_reset :
        (saves : Bool) (x : T) (database : ℕ → Option Text) (w : World Text T)
        → reset_tx s env saves w.database ≡ ok (x, database)
        → Reachable w
        → Reachable (publish x (record w { database = database }))
    registered : (f : ℕ) (w : World Text T) → Reachable w → Reachable (on_change f w).1
    unregistered : (idx : ℕ) (w : World Text T) → Reachable w → Reachable (unregister idx w)
    elsewhere :
        (key : ℕ) (text : Option Text) (w : World Text T)
        → (key == s.db_key) ≡ false
        → Reachable w
        → Reachable (record w { database = write key text w.database })

  -- A restart with the table of this world finds its value, which is valid.
  pub record IsCurrent (w : World Text T) : Type 0 where
    pub restart : new s env w.database ≡ ok w.value
    pub valid : s.validate w.value ≡ true

  restart :
      (d : T)
      → check_default s.validate (default_parsed s env) ≡ ok d
      → (w : World Text T) → Reachable w
      → new s env w.database ≡ ok w.value
  unfolding set reset set_tx reset_tx on_change unregister
  restart d h _ (started database v e) = e
  restart d h _ (changed saves v w r) =
      persist-IsCurrent s.parse s.validate (env_text s.env_var env) s.db_key (default_parsed s env)
        saves (some v) (validated s env v) w
        (λ x e.
          set-start s.parse s.validate (default_parsed s env) (env_text s.env_var env) s.db_key v x
            e)
        (restart d h w r)
  restart d h _ (restored saves w r) =
      persist-IsCurrent s.parse s.validate (env_text s.env_var env) s.db_key (default_parsed s env)
        saves none (resettable s env) w
        (λ x e.
          reset-start s.parse s.validate (default_parsed s env) (env_text s.env_var env) s.db_key
            (or_default (default_parsed s env)) x (default_found x) e)
        (restart d h w r)
    where
      default_found :
          (x : T)
          → (or_default (default_parsed s env)) ≡ ok x
          → check_default s.validate (default_parsed s env) ≡ ok x
      default_found x e = default-checked s.validate (default_parsed s env) d x h e
  restart d h _ (committed saves v x database w e r) =
      persist_tx-IsCurrent s.parse s.validate (env_text s.env_var env) s.db_key
        (default_parsed s env) saves (some v) (validated s env v) w x database
        (λ y g.
          set-start s.parse s.validate (default_parsed s env) (env_text s.env_var env) s.db_key v y
            g)
        e
  restart d h _ (committed_reset saves x database w e r) =
      persist_tx-IsCurrent s.parse s.validate (env_text s.env_var env) s.db_key
        (default_parsed s env) saves none (resettable s env) w x database
        (λ y g.
          reset-start s.parse s.validate (default_parsed s env) (env_text s.env_var env) s.db_key
            (or_default (default_parsed s env)) y (default_found y) g)
        e
    where
      default_found :
          (x : T)
          → (or_default (default_parsed s env)) ≡ ok x
          → check_default s.validate (default_parsed s env) ≡ ok x
      default_found x e = default-checked s.validate (default_parsed s env) d x h e
  restart d h _ (registered f w r) = restart d h w r
  restart d h _ (unregistered idx w r) = restart d h w r
  restart d h _ (elsewhere key text w other r) =
      ap
        (λ (stored : Option Text).
          start_value s.parse s.validate (env_text s.env_var env) stored (default_parsed s env))
        (write-other s.db_key key text w.database other)
      ∙ restart d h w r

  -- For a setting whose default parses and is valid, in every state that its operations, transactions and the writes of other settings
  -- reach from a start: a restart with the table of that state finds the value in memory, and the
  -- value is valid.
  pub complex-IsCurrent :
      (d : T)
      → check_default s.validate (default_parsed s env) ≡ ok d
      → (w : World Text T) → Reachable w
      → IsCurrent w
  complex-IsCurrent d h w r = record {
    restart = restart d h w r;
    valid =
        start-valid s.parse s.validate (default_parsed s env) (env_text s.env_var env)
          (w.database s.db_key) d w.value h (restart d h w r);
  }
