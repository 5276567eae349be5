-- ===== src/Settings/Simple.antt =====
-- internal/settings/setting.go: the settings of a Boolean, a number or a text.
pub mod Restart
use wdbgp.Prelude.{ℕ, Option, Bool, some, ◌&&◌, none, true, false}
use wdbgp.Settings.{
  Failure, Checked, ok, failed, start_value, env_text, is_set, check_parsed, guard, or_default,
  World, persist, persist_tx, then_parse, SettingJson,
}

-- `simpleSetting`: what does not change.
pub record Simple (Text T : Type 0) : Type 0 where
  pub db_key : ℕ
  pub env_var : ℕ
  pub default_val : T
  pub parse : Text → Option T
  pub validate : T → Bool
  pub print : T → Text

module _ {Text T : Type 0} (s : Simple Text T) (env : ℕ → Option Text) where
  -- `IsEnvSet`.
  abbrev pub is_env_set : Bool
  is_env_set = is_set (env_text s.env_var env)

  -- `newSimple`: the value, or the error.
  abbrev pub new : (ℕ → Option Text) → Checked T
  new database =
      start_value s.parse s.validate (env_text s.env_var env) (database s.db_key)
        (some s.default_val)

  -- `Validate`, with the value that `Set` then parses again.
  abbrev pub validated : T → Checked T
  validated v = guard s.db_key is_env_set (check_parsed s.validate (s.parse (s.print v)))

  unfoldable pub set : Bool → T → World Text T → Option Failure × World Text T
  set saves v w = persist saves s.db_key (some (s.print v)) (validated v) w

  unfoldable pub set_tx : Bool → T → (ℕ → Option Text) → Checked (T × (ℕ → Option Text))
  set_tx saves v database = persist_tx saves s.db_key (some (s.print v)) (validated v) database

  -- The checks of `Reset`.
  abbrev pub resettable : Checked T
  resettable = guard s.db_key is_env_set (ok s.default_val)

  pub reset : Bool → World Text T → Option Failure × World Text T
  reset saves w = persist saves s.db_key none resettable w

  pub reset_tx : Bool → (ℕ → Option Text) → Checked (T × (ℕ → Option Text))
  reset_tx saves database = persist_tx saves s.db_key none resettable database

  -- `HasDBValue`; a read that fails says no.
  abbrev pub has_db_value : Bool → (ℕ → Option Text) → Bool
  has_db_value reads database = reads && is_set (database s.db_key)

  -- `JSON`: an override that does not parse has no value.
  abbrev pub json_from : Option Text → (ℕ → Option Text) → SettingJson T
  json_from (some text) database = record {
    value = s.parse text;
    default_value = s.default_val;
    env_override = true;
  }
  json_from none database = record {
    value = then_parse s.parse (database s.db_key);
    default_value = s.default_val;
    env_override = false;
  }

  pub json : (ℕ → Option Text) → SettingJson T
  json database = json_from (env_text s.env_var env) database
