-- ===== src/Settings/Simple/Restart.antt =====
-- internal/settings/setting.go, simpleSetting: the value in memory is the one that a restart finds.
use wdbgp.Prelude.{ℕ, Option, ◌≡◌, some, true, none, [], Bool, ap, ◌==◌, ◌∙◌, false}
use wdbgp.Settings.{ok, World, publish, start_value, env_text, check_default}
use wdbgp.Settings.Simple.{Simple, new, set, set_tx, reset, reset_tx, validated, resettable}
use wdbgp.Settings.Start.{default-checked, set-start, reset-start, start-valid}
use wdbgp.Settings.Invariant.{persist-IsCurrent, persist_tx-IsCurrent, write-other}
use wdbgp.Settings.{write, on_change, unregister}

module _ {Text T : Type 0} (s : Simple Text T) (env : ℕ → Option Text) where
  -- The setting as its operations, the commits of transactions and the writes of other settings
  -- leave it. A transaction that is rolled back leaves it as it was, and what is published after a commit is the value of that transaction.
  pub data Reachable : World Text T → Type 0 where
    started :
        (database : ℕ → Option Text) (v : T)
        → new s env database ≡ ok v
        → Reachable (record { value = v; callbacks = []; database = database; told = [] })
    changed :
        (saves : Bool) (v : T) (w : World Text T) → Reachable w → Reachable (set s env saves v w).1
    restored : (saves : Bool) (w : World Text T) → Reachable w → Reachable (reset s env saves w).1
    committed :
        (saves : Bool) (v : T) (x : T) (database : ℕ → Option Text) (w : World Text T)
        → set_tx s env saves v w.database ≡ ok (x, database)
        → Reachable w
        → Reachable (publish x (record w { database = database }))
    committed_reset :
        (saves : Bool) (x : T) (database : ℕ → Option Text) (w : World Text T)
        → reset_tx s env saves w.database ≡ ok (x, database)
        → Reachable w
        → Reachable (publish x (record w { database = database }))
    registered : (f : ℕ) (w : World Text T) → Reachable w → Reachable (on_change f w).1
    unregistered : (idx : ℕ) (w : World Text T) → Reachable w → Reachable (unregister idx w)
    elsewhere :
        (key : ℕ) (text : Option Text) (w : World Text T)
        → (key == s.db_key) ≡ false
        → Reachable w
        → Reachable (record w { database = write key text w.database })

  -- A restart with the table of this world finds its value, which is valid.
  pub record IsCurrent (w : World Text T) : Type 0 where
    pub restart : new s env w.database ≡ ok w.value
    pub valid : s.validate w.value ≡ true

  restart :
      (d : T)
      → check_default s.validate (some s.default_val) ≡ ok d
      → (w : World Text T) → Reachable w
      → new s env w.database ≡ ok w.value
  unfolding set reset set_tx reset_tx on_change unregister
  restart d h _ (started database v e) = e
  restart d h _ (changed saves v w r) =
      persist-IsCurrent s.parse s.validate (env_text s.env_var env) s.db_key (some s.default_val)
        saves (some (s.print v)) (validated s env v) w
        (λ x e.
          set-start s.parse s.validate (some s.default_val) (env_text s.env_var env) s.db_key
            (s.print v) x e)
        (restart d h w r)
  restart d h _ (restored saves w r) =
      persist-IsCurrent s.parse s.validate (env_text s.env_var env) s.db_key (some s.default_val)
        saves none (resettable s env) w
        (λ x e.
          reset-start s.parse s.validate (some s.default_val) (env_text s.env_var env) s.db_key
            (ok s.default_val) x (default_found x) e)
        (restart d h w r)
    where
      default_found :
          (x : T) → (ok s.default_val) ≡ ok x → check_default s.validate (some s.default_val) ≡ ok x
      default_found x e = default-checked s.validate (some s.default_val) d x h e
  restart d h _ (committed saves v x database w e r) =
      persist_tx-IsCurrent s.parse s.validate (env_text s.env_var env) s.db_key (some s.default_val)
        saves (some (s.print v)) (validated s env v) w x database
        (λ y g.
          set-start s.parse s.validate (some s.default_val) (env_text s.env_var env) s.db_key
            (s.print v) y g)
        e
  restart d h _ (committed_reset saves x database w e r) =
      persist_tx-IsCurrent s.parse s.validate (env_text s.env_var env) s.db_key (some s.default_val)
        saves none (resettable s env) w x database
        (λ y g.
          reset-start s.parse s.validate (some s.default_val) (env_text s.env_var env) s.db_key
            (ok s.default_val) y (default_found y) g)
        e
    where
      default_found :
          (x : T) → (ok s.default_val) ≡ ok x → check_default s.validate (some s.default_val) ≡ ok x
      default_found x e = default-checked s.validate (some s.default_val) d x h e
  restart d h _ (registered f w r) = restart d h w r
  restart d h _ (unregistered idx w r) = restart d h w r
  restart d h _ (elsewhere key text w other r) =
      ap
        (λ (stored : Option Text).
          start_value s.parse s.validate (env_text s.env_var env) stored (some s.default_val))
        (write-other s.db_key key text w.database other)
      ∙ restart d h w r

  -- For a setting whose default is valid, in every state that its operations, transactions and the writes of other settings
  -- reach from a start: a restart with the table of that state finds the value in memory, and the
  -- value is valid.
  pub simple-IsCurrent :
      (d : T)
      → check_default s.validate (some s.default_val) ≡ ok d
      → (w : World Text T) → Reachable w
      → IsCurrent w
  simple-IsCurrent d h w r = record {
    restart = restart d h w r;
    valid =
        start-valid s.parse s.validate (some s.default_val) (env_text s.env_var env)
          (w.database s.db_key) d w.value h (restart d h w r);
  }
