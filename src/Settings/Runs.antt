-- ===== src/Settings/Runs.antt =====
-- Tests: the threshold of alerts as a setting whose texts are integers, and the theorems at it.
use wdbgp.Prelude.{Option, some, ℕ, if◌then◌else◌, none, ◌∷◌, [], ◌==◌, ◌≡◌, true, false, refl}
use wdbgp.Settings.{World, ok, overridden, not_saved, write, publish, fire_callbacks}
use wdbgp.Settings.Simple
use wdbgp.Settings.Complex
use wdbgp.Settings.Simple.Restart as SimpleRestart
use wdbgp.Settings.Complex.Restart as ComplexRestart
use wdbgp.Settings.Validators.{ℤ, pos, validate_percent}

-- Texts that are no integer.
pub data Word : Type 0 where
  number : ℤ → Word
  letters : Word

abbrev read : Word → Option ℤ
read (number z) = some z
read letters = none

abbrev threshold : Simple.Simple Word ℤ
threshold = record {
  db_key = 1;
  env_var = 2;
  default_val = pos 50;
  parse = read;
  validate = validate_percent;
  print = number;
}

abbrev no_texts : ℕ → Option Word
no_texts key = none

abbrev in_env : ℕ → Option Word
in_env key = if key == 2 then some (number (pos 10)) else none

-- A row that a later validator rejects.
abbrev old_row : ℕ → Option Word
old_row key = if key == 1 then some (number (pos 100)) else none

abbrev fresh : World Word ℤ
fresh = record { value = pos 50; callbacks = some 7 ∷ none ∷ []; database = no_texts; told = [] }

env_wins : Simple.new threshold in_env old_row ≡ ok (pos 10)
unfolding validate_percent
env_wins = refl

falls_back : Simple.new threshold no_texts old_row ≡ ok (pos 50)
unfolding validate_percent
falls_back = refl

-- `Set` tells the callbacks that are still there, and a write that fails changes nothing.
sets : Simple.set threshold no_texts true (pos 20) fresh ≡ (
  none,
  record {
    value = pos 20;
    callbacks = some 7 ∷ none ∷ [];
    database = write 1 (some (number (pos 20))) no_texts;
    told = (7, pos 20) ∷ [];
  },
)
unfolding Simple.set validate_percent fire_callbacks
sets = refl

fails : Simple.set threshold no_texts false (pos 20) fresh ≡ (some not_saved, fresh)
unfolding Simple.set validate_percent
fails = refl

stays : Simple.set threshold in_env true (pos 20) fresh ≡ (some overridden, fresh)
unfolding Simple.set
stays = refl

abbrev started_world : World Word ℤ
started_world = record { value = pos 50; callbacks = []; database = no_texts; told = [] }

simple-IsCurrent_example :
    SimpleRestart.IsCurrent threshold no_texts
      (Simple.set threshold no_texts true (pos 20) started_world).1
unfolding validate_percent
simple-IsCurrent_example =
    SimpleRestart.simple-IsCurrent threshold no_texts (pos 50) refl
      (Simple.set threshold no_texts true (pos 20) started_world).1
      (SimpleRestart.changed true (pos 20) started_world
        (SimpleRestart.started no_texts (pos 50) refl))

abbrev texts : Complex.Complex Word ℤ
texts = record {
  db_key = 1;
  env_var = 2;
  default_val = number (pos 50);
  parse = read;
  validate = validate_percent;
}

abbrev after_commit : World Word ℤ
after_commit =
    publish (pos 20) (record started_world { database = write 1 (some (number (pos 20))) no_texts })

complex-IsCurrent_example : ComplexRestart.IsCurrent texts no_texts after_commit
unfolding validate_percent Complex.set_tx
complex-IsCurrent_example =
    ComplexRestart.complex-IsCurrent texts no_texts (pos 50) refl after_commit (
      ComplexRestart.committed true (number (pos 20)) (pos 20)
        (write 1 (some (number (pos 20))) no_texts) started_world refl
        (ComplexRestart.started no_texts (pos 50) refl))
