-- ===== src/Bgp/Wire/Decided.antt =====
-- A result that is not the model's `stuck`.
use wdbgp.Prelude.{Bool, true, false, ◌≡◌, refl, if◌then◌else◌}
use wdbgp.Bgp.Wire.Types.{WireError, Result, ok, err, ◌>>=◌, ◌>>◌, fail_if, stuck}

abbrev pub is_stuck : WireError → Bool
is_stuck stuck = true
is_stuck _ = false

-- The model ran out of rounds.
abbrev pub ran_out {ℓ} : {A : Type ℓ} → Result A → Bool
ran_out (ok a) = false
ran_out (err e) = is_stuck e

pub record IsDecided {ℓ} {A : Type ℓ} (r : Result A) : Type 0 where
  pub decided : ran_out r ≡ false

pub IsDecided-ok {ℓ} : {A : Type ℓ} (a : A) → IsDecided (ok a)
IsDecided-ok a = record { decided = refl }

pub IsDecided-err {ℓ} :
    {A : Type ℓ} (e : WireError) → is_stuck e ≡ false → IsDecided {A = A} (err e)
IsDecided-err e h = record { decided = h }

pub IsDecided-bind {ℓ κ} :
    {A : Type ℓ} {B : Type κ} (m : Result A) (f : A → Result B)
    → IsDecided m
    → ((a : A) → IsDecided (f a))
    → IsDecided (m >>= f)
IsDecided-bind (ok a) f hm hf = hf a
IsDecided-bind (err e) f hm hf = record { decided = hm.decided }

pub IsDecided-fail {ℓ} :
    {B : Type ℓ} (bad : Bool) (e : WireError) (m : Result B)
    → is_stuck e ≡ false
    → IsDecided m
    → IsDecided (fail_if bad e >> m)
IsDecided-fail true e m he hm = record { decided = he }
IsDecided-fail false e m he hm = hm

pub IsDecided-if {ℓ} :
    {B : Type ℓ} (b : Bool) (m n : Result B)
    → IsDecided m
    → IsDecided n
    → IsDecided (if b then m else n)
IsDecided-if true m n hm hn = hm
IsDecided-if false m n hm hn = hn

-- A decided result whose value has a property.
abbrev AtOk {ℓ} : {A : Type ℓ} → (A → Type 0) → Result A → Type 0
AtOk P (ok a) = P a
AtOk P (err e) = is_stuck e ≡ false

pub record Ends {ℓ} {A : Type ℓ} (P : A → Type 0) (r : Result A) : Type 0 where
  pub at_ok : AtOk P r

pub Ends-ok {ℓ} : {A : Type ℓ} {P : A → Type 0} (a : A) → P a → Ends P (ok a)
Ends-ok a h = record { at_ok = h }

pub Ends-err {ℓ} :
    {A : Type ℓ} {P : A → Type 0} (e : WireError) → is_stuck e ≡ false → Ends P (err e)
Ends-err e h = record { at_ok = h }

pub Ends-bind {ℓ κ} :
    {A : Type ℓ} {B : Type κ} {P : A → Type 0} {Q : B → Type 0} (m : Result A) (f : A → Result B)
    → Ends P m
    → ((a : A) → P a → Ends Q (f a))
    → Ends Q (m >>= f)
Ends-bind (ok a) f hm hf = hf a hm.at_ok
Ends-bind (err e) f hm hf = record { at_ok = hm.at_ok }

pub decided-Ends {ℓ} : {A : Type ℓ} (m : Result A) → IsDecided m → Ends (λ (_ : A). Unit {0}) m
decided-Ends (ok a) h = record { at_ok = tt }
decided-Ends (err e) h = record { at_ok = h.decided }

pub Ends-then {ℓ κ} :
    {A : Type ℓ} {B : Type κ} {P : A → Type 0} (m : Result A) (f : A → Result B)
    → Ends P m
    → ((a : A) → P a → IsDecided (f a))
    → IsDecided (m >>= f)
Ends-then (ok a) f hm hf = hf a hm.at_ok
Ends-then (err e) f hm hf = record { decided = hm.at_ok }

pub Ends-fail {ℓ} :
    {B : Type ℓ} {P : B → Type 0} (bad : Bool) (e : WireError) (m : Result B)
    → is_stuck e ≡ false
    → (bad ≡ false → Ends P m)
    → Ends P (fail_if bad e >> m)
Ends-fail true e m he hm = record { at_ok = he }
Ends-fail false e m he hm = hm refl

pub ruleset decided_rules =
    (IsDecided-ok, IsDecided-err, IsDecided-bind, IsDecided-fail, IsDecided-if)
