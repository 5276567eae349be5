-- ===== src/Settings/Invariant.antt =====
-- The value in memory and the table of the database agree after every change, in a transaction or
-- not.
use wdbgp.Prelude.{
  ℕ, Option, Bool, ◌==◌, ◌≡◌, true, subst, ap, false, arith, ◌∙◌, refl, if_true, if_false,
}
use wdbgp.Settings.{
  Checked, ok, failed, not_saved, start_value, World, persist, persist_tx, publish, write,
}
use wdbgp.Settings.Start.{failed_ne, if-ok}

write-same :
    {Text : Type 0} (key : ℕ) (text : Option Text) (database : ℕ → Option Text)
    → write key text database key ≡ text
write-same key text database =
    let same : (key == key) ≡ true = ground arith in if_true text (database key) same

pub write-other :
    {Text : Type 0} (key other : ℕ) (text : Option Text) (database : ℕ → Option Text)
    → (other == key) ≡ false
    → write other text database key ≡ database key
write-other key other text database h =
    let apart : (key == other) ≡ false = ground (arith, h) in if_false text (database key) apart

module _ {Text T : Type 0} (parse : Text → Option T) (validate : T → Bool) (env : Option Text)
    (key : ℕ) (default : Option T) where
  -- A start with this table finds the value.
  abbrev pub IsCurrent : World Text T → Type 0
  IsCurrent w = start_value parse validate env (w.database key) default ≡ ok w.value

  publish-IsCurrent :
      (text : Option Text) (v : T) (w : World Text T)
      → start_value parse validate env text default ≡ ok v
      → IsCurrent (publish v (record w { database = write key text w.database }))
  publish-IsCurrent text v w h =
      ap (λ (stored : Option Text). start_value parse validate env stored default)
        (write-same key text w.database)
      ∙ h

  pub persist-IsCurrent :
      (saves : Bool) (text : Option Text) (result : Checked T) (w : World Text T)
      → ((v : T) → result ≡ ok v → start_value parse validate env text default ≡ ok v)
      → IsCurrent w
      → IsCurrent (persist saves key text result w).1
  persist-IsCurrent saves text (failed f) w h c = c
  persist-IsCurrent true text (ok v) w h c = publish-IsCurrent text v w (h v refl)
  persist-IsCurrent false text (ok v) w h c = c

  pub persist_tx-IsCurrent :
      (saves : Bool) (text : Option Text) (result : Checked T) (w : World Text T) (v : T)
      (database : ℕ → Option Text)
      → ((v : T) → result ≡ ok v → start_value parse validate env text default ≡ ok v)
      → persist_tx saves key text result w.database ≡ ok (v, database)
      → IsCurrent (publish v (record w { database = database }))
  persist_tx-IsCurrent saves text (failed f) w v database h e = absurd (failed_ne f (v, database) e)
  persist_tx-IsCurrent saves text (ok x) w v database h e =
      let (saved, same) = if-ok saves not_saved (x, write key text w.database) (v, database) e in
      subst (λ (p : T × (ℕ → Option Text)). IsCurrent (publish p.0 (record w { database = p.1 })))
        same (publish-IsCurrent text x w (h x refl))
