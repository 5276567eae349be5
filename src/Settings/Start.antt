-- ===== src/Settings/Start.antt =====
-- A value that was written or reset is the one that the next start finds, whatever the kind of the
-- setting.
use wdbgp.Prelude.{
  Bool, ℕ, ◌≢◌, Option, ◌≡◌, true, ap, arith, false, some, if◌then◌else◌, none, refl, Bool-cases,
  subst, if_true, ◌∙◌, ◌==◌, inl, sym, inr, if_false,
}
use wdbgp.Settings.{
  Failure, Checked, ok, failed, start_value, check_env, check_stored, check_default, check_parsed,
  or_default, guard, then_parse, is_set, unparsed, overridden, rejected, bad_env, default_unparsed,
  default_rejected, env_only,
}

abbrev value_or : {A : Type 0} → A → Checked A → A
value_or x (ok y) = y
value_or x (failed f) = x

abbrev is_ok : {A : Type 0} → Checked A → Bool
is_ok (ok x) = true
is_ok (failed f) = false

pub ok_inj : {A : Type 0} (x y : A) → ok x ≡ ok y → x ≡ y
ok_inj x y e = ap (value_or x) e

pub failed_ne : {A : Type 0} (f : Failure) (x : A) → failed f ≢ ok x
failed_ne f x e = ground (arith, ap is_ok e)

pub if-ok :
    {A : Type 0} (b : Bool) (f : Failure) (d v : A)
    → (if b then ok d else failed f) ≡ ok v
    → (b ≡ true) × (d ≡ v)
if-ok true f d v h = (refl, ok_inj d v h)
if-ok false f d v h = absurd (failed_ne f v h)

guard-ok :
    {T : Type 0} (key : ℕ) (from_env : Bool) (next : Checked T) (v : T)
    → guard key from_env next ≡ ok v
    → (from_env ≡ false) × (next ≡ ok v)
guard-ok key from_env next v h = elim (Bool-cases (key == 0)) [
  | inl e ↦ absurd (
      failed_ne env_only v
        (sym (if_true (failed env_only) (if from_env then failed overridden else next) e) ∙ h))
  | inr e ↦
      override from_env
        (sym (if_false (failed env_only) (if from_env then failed overridden else next) e) ∙ h)
]
  where
    override :
        (b : Bool) → (if b then failed overridden else next) ≡ ok v → (b ≡ false) × (next ≡ ok v)
    override true h = absurd (failed_ne overridden v h)
    override false h = (refl, h)

-- A valid default passes its check.
pub default-checked :
    {T : Type 0} (validate : T → Bool) (default : Option T) (d x : T)
    → check_default validate default ≡ ok d
    → or_default default ≡ ok x
    → check_default validate default ≡ ok x
default-checked validate none d x h e = absurd (failed_ne default_unparsed d h)
default-checked validate (some y) d x h e =
    if_true (ok y) (failed default_rejected) (if-ok (validate y) default_rejected y d h).0 ∙ e

module _ {Text T : Type 0} (parse : Text → Option T) (validate : T → Bool)
    (default : Option T) where
  parsed-stored :
      (p : Option T) (v : T)
      → check_parsed validate p ≡ ok v
      → check_stored validate p default ≡ ok v
  parsed-stored none v h = absurd (failed_ne unparsed v h)
  parsed-stored (some d) v h =
      let (valid, same) = if-ok (validate d) rejected d v h in
      if_true (ok d) (or_default default) valid ∙ ap ok same

  -- A value that passes the checks is the one that a start finds in its row.
  pub set-start :
      (env : Option Text) (key : ℕ) (raw : Text) (v : T)
      → guard key (is_set env) (check_parsed validate (parse raw)) ≡ ok v
      → start_value parse validate env (some raw) default ≡ ok v
  set-start none key raw v h =
      parsed-stored (parse raw) v (guard-ok key false (check_parsed validate (parse raw)) v h).1
  set-start (some text) key raw v h =
      absurd (true_ne-false (guard-ok key true (check_parsed validate (parse raw)) v h).0)
    where
      true_ne-false : true ≢ false
      true_ne-false e = ground (arith, e)

  -- A start without a row finds the default.
  pub reset-start :
      (env : Option Text) (key : ℕ) (next : Checked T) (v : T)
      → (next ≡ ok v → check_default validate default ≡ ok v)
      → guard key (is_set env) next ≡ ok v
      → start_value parse validate env none default ≡ ok v
  reset-start none key next v h g = h (guard-ok key false next v g).1
  reset-start (some text) key next v h g = absurd (true_ne-false (guard-ok key true next v g).0)
    where
      true_ne-false : true ≢ false
      true_ne-false e = ground (arith, e)

  -- What a start finds is valid if the default is.
  pub start-valid :
      (env stored : Option Text) (d v : T)
      → check_default validate default ≡ ok d
      → start_value parse validate env stored default ≡ ok v
      → validate v ≡ true
  start-valid (some text) stored d v h s = env_valid (parse text) s
    where
      env_valid : (p : Option T) → check_env validate p ≡ ok v → validate v ≡ true
      env_valid none s = absurd (failed_ne bad_env v s)
      env_valid (some x) s =
          let (valid, same) = if-ok (validate x) bad_env x v s in
          subst (λ (y : T). validate y ≡ true) same valid
  start-valid none stored d v h s = stored_valid (then_parse parse stored) s
    where
      default_valid :
          (o : Option T)
          → check_default validate o ≡ ok d
          → (or_default o ≡ ok v)
          → validate v ≡ true
      default_valid none h s = absurd (failed_ne default_unparsed v s)
      default_valid (some x) h s =
          let (valid, same) = if-ok (validate x) default_rejected x d h in
          subst (λ (y : T). validate y ≡ true) (ok_inj x v s) valid

      checked : (o : Option T) → check_default validate o ≡ ok v → or_default o ≡ ok v
      checked none s = absurd (failed_ne default_unparsed v s)
      checked (some x) s = ap ok (if-ok (validate x) default_rejected x v s).1

      stored_valid : (p : Option T) → check_stored validate p default ≡ ok v → validate v ≡ true
      stored_valid none s = default_valid default h (checked default s)
      stored_valid (some x) s = elim (Bool-cases (validate x)) [
        | inl e ↦
            subst (λ (y : T). validate y ≡ true)
              (ok_inj x v (sym (if_true (ok x) (or_default default) e) ∙ s)) e
        | inr e ↦ default_valid default h (sym (if_false (ok x) (or_default default) e) ∙ s)
      ]
