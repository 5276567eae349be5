-- ===== src/Settings.antt =====
-- internal/settings/setting.go: settings that come from the environment, the database or a default.
-- A key is a number, 0 for the empty one. The texts of the environment and of the database are any type: an empty variable is
-- one that is not set. `parse`, `validate` (`true` everywhere for nil) and the print of `%v` belong to each setting.
pub mod Simple
pub mod Complex
pub mod Validators
pub mod Start
pub mod Invariant
pub mod Runs
use wdbgp.Prelude.{
  ◌++◌, List, Bool, Option, ℕ, length, if◌then◌else◌, false, ◌∷◌, some, [], ◌==◌, true, none, ◌-◌,
}

-- Why a setting is not built or not changed.
pub data Failure : Type 0 where
  bad_env : Failure
  default_unparsed : Failure
  default_rejected : Failure
  env_only : Failure
  overridden : Failure
  unparsed : Failure
  rejected : Failure
  not_saved : Failure

pub data Checked (A : Type 0) : Type 0 where
  ok : A → Checked A
  failed : Failure → Checked A

abbrev pub is_set : {A : Type 0} → Option A → Bool
is_set none = false
is_set (some x) = true

abbrev pub then_parse : {Text T : Type 0} → (Text → Option T) → Option Text → Option T
then_parse parse none = none
then_parse parse (some text) = parse text

-- `os.Getenv` of a setting's variable.
abbrev pub env_text : {Text : Type 0} → ℕ → (ℕ → Option Text) → Option Text
env_text env_var env = if env_var == 0 then none else env env_var

-- A variable that is set is the value, or an error.
abbrev pub check_env : {T : Type 0} → (T → Bool) → Option T → Checked T
check_env validate none = failed bad_env
check_env validate (some v) = if validate v then ok v else failed bad_env

-- The default, which is not validated when it replaces a stored value.
abbrev pub or_default : {T : Type 0} → Option T → Checked T
or_default none = failed default_unparsed
or_default (some d) = ok d

abbrev pub check_default : {T : Type 0} → (T → Bool) → Option T → Checked T
check_default validate none = failed default_unparsed
check_default validate (some d) = if validate d then ok d else failed default_rejected

-- A stored value that parses is the value if it is valid; the parsed default is `none` if it does
-- not parse.
abbrev pub check_stored : {T : Type 0} → (T → Bool) → Option T → Option T → Checked T
check_stored validate none default = check_default validate default
check_stored validate (some v) default = if validate v then ok v else or_default default

-- The body that the two constructors share.
abbrev pub start_value :
    {Text T : Type 0}
    → (Text → Option T)
    → (T → Bool)
    → Option Text
    → Option Text
    → Option T
    → Checked T
start_value parse validate (some text) stored default = check_env validate (parse text)
start_value parse validate none stored default =
    check_stored validate (then_parse parse stored) default

-- The checks of a value that parses or not.
abbrev pub check_parsed : {T : Type 0} → (T → Bool) → Option T → Checked T
check_parsed validate none = failed unparsed
check_parsed validate (some v) = if validate v then ok v else failed rejected

-- Whether a setting can be changed at all.
abbrev pub guard : {T : Type 0} → ℕ → Bool → Checked T → Checked T
guard db_key from_env next =
    if db_key == 0 then failed env_only else if from_env then failed overridden else next

-- A setting in memory, its callbacks by their numbers (`none` for one that was removed), the table of
-- the database and the calls of callbacks that were made.
pub record World (Text T : Type 0) : Type 0 where
  pub value : T
  pub callbacks : List (Option ℕ)
  pub database : ℕ → Option Text
  pub told : List (ℕ × T)

abbrev pub write : {Text : Type 0} → ℕ → Option Text → (ℕ → Option Text) → ℕ → Option Text
write key text database k = if k == key then text else database k

-- `fireCallbacks`.
unfoldable pub fire_callbacks : {T : Type 0} → T → List (Option ℕ) → List (ℕ × T)
fire_callbacks v [] = []
fire_callbacks v (none ∷ callbacks) = fire_callbacks v callbacks
fire_callbacks v (some f ∷ callbacks) = (f, v) ∷ fire_callbacks v callbacks

-- The part that follows the write: the value, then the callbacks.
abbrev pub publish : {Text T : Type 0} → T → World Text T → World Text T
publish v w = record w { value = v; told = w.told ++ fire_callbacks v w.callbacks }

-- The end of `Set` and of `Reset`: the row is written or deleted (`text` is `none`), and only then the
-- value changes.
abbrev pub persist :
    {Text T : Type 0}
    → Bool
    → ℕ
    → Option Text
    → Checked T
    → World Text T
    → Option Failure × World Text T
persist saves key text (failed f) w = (some f, w)
persist saves key text (ok v) w =
    if saves
    then (none, publish v (record w { database = write key text w.database }))
    else (some not_saved, w)

-- The end of `SetTx` and of `ResetTx`: the new value and the table that the transaction sees. The
-- caller publishes the value after it has committed.
abbrev pub persist_tx :
    {Text T : Type 0}
    → Bool
    → ℕ
    → Option Text
    → Checked T
    → (ℕ → Option Text)
    → Checked (T × (ℕ → Option Text))
persist_tx saves key text (failed f) database = failed f
persist_tx saves key text (ok v) database =
    if saves then ok (v, write key text database) else failed not_saved

-- `OnChange`: the callback and its index, by which it is removed.
pub on_change : {Text T : Type 0} → ℕ → World Text T → ℕ × World Text T
on_change f w = (length w.callbacks, record w { callbacks = w.callbacks ++ some f ∷ [] })

abbrev pub clear_at : ℕ → List (Option ℕ) → List (Option ℕ)
clear_at idx [] = []
clear_at idx (c ∷ cs) = if idx == 0 then none ∷ cs else c ∷ clear_at (idx - 1) cs

-- The function that `OnChange` returns.
pub unregister : {Text T : Type 0} → ℕ → World Text T → World Text T
unregister idx w = record w { callbacks = clear_at idx w.callbacks }

-- `SettingJSON`; the value is `none` for null.
pub record SettingJson (J : Type 0) : Type 0 where
  pub value : Option J
  pub default_value : J
  pub env_override : Bool
