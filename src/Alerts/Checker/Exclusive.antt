-- ===== src/Alerts/Checker/Exclusive.antt =====
-- At most one goroutine delivers, and the queue has one message of a user.
use wdbgp.Prelude.{
  ℕ, List, length, Bool, ◌≡◌, false, if◌then◌else◌, true, not, Bool-cases, [], ◌==◌, ◌||◌, inl,
  ◌&&◌, arith, inr, subst, refl, Option, ◌++◌, ap, some, ◌+◌, suc, none, sym, length-append, ◌∙◌,
}
use wdbgp.Alerts.State.{Limits}
use wdbgp.Alerts.Checker.{
  Delivery, Phase, starting, sending, delivered, System, put, put_all, hand_over, run, measure_all,
  Answers, advance, next_pass, still_pending, Reachable, fresh, checked, advanced, Measurement, ◌∷◌,
}

abbrev pub has_user : ℕ → List Delivery → Bool
has_user user [] = false
has_user user (d ∷ ds) = (d.user == user) || has_user user ds

-- No user has two messages.
abbrev pub is_unique : List Delivery → Bool
is_unique [] = true
is_unique (d ∷ ds) = not (has_user d.user ds) && is_unique ds

-- The goroutines that there are.
abbrev pub loop_count : Bool → ℕ
loop_count delivering = if delivering then 1 else 0

pub record IsExclusive (sys : System) : Type 0 where
  pub loops : length sys.loops ≡ loop_count sys.delivering
  pub idle : sys.delivering ≡ false → length sys.queued ≡ 0
  pub users : is_unique sys.queued ≡ true

has_user-put :
    (user : ℕ) (d : Delivery) (queue : List Delivery)
    → has_user user (put d queue) ≡ (d.user == user) || has_user user queue
unfolding put
has_user-put user d [] = ground arith
has_user-put user d (q ∷ queue) = elim (Bool-cases (q.user == d.user)) [
  | inl e ↦ rw e (ground (arith, e))
  | inr e ↦ rw e (ground (arith, has_user-put user d queue))
]

is_unique-put :
    (d : Delivery) (queue : List Delivery) → is_unique queue ≡ true → is_unique (put d queue) ≡ true
unfolding put
is_unique-put d [] h = refl
is_unique-put d (q ∷ queue) h = elim (Bool-cases (q.user == d.user)) [
  | inl e ↦
      let same : q.user ≡ d.user = ground (arith, e) in
      rw e (subst (λ (u : ℕ). not (has_user u queue) && is_unique queue ≡ true) same h)
  | inr e ↦
      rw e (
        ground
          (arith, has_user-put q.user d queue, is_unique-put d queue (ground (arith, h)), e, h))
]

is_unique-put_all :
    (ds queue : List Delivery) → is_unique queue ≡ true → is_unique (put_all ds queue) ≡ true
unfolding put_all
is_unique-put_all [] queue h = h
is_unique-put_all (d ∷ ds) queue h = is_unique-put_all ds (put d queue) (is_unique-put d queue h)

hand_over-IsExclusive :
    (ds : List Delivery) (sys : System) → IsExclusive sys → IsExclusive (hand_over ds sys)
unfolding hand_over
hand_over-IsExclusive [] sys h = h
hand_over-IsExclusive (d ∷ ds) sys h = elim (Bool-cases sys.delivering) [
  | inl e ↦ rw e (record {
    loops = ground (arith, h.loops, e);
    idle = λ i. absurd (ground (arith, i, e));
    users = is_unique-put_all (d ∷ ds) sys.queued h.users;
  })
  | inr e ↦ rw e (record {
    loops = ground (arith, h.loops, e);
    idle = λ i. absurd (ground (arith, i));
    users = h.users;
  })
]

run-IsExclusive :
    (enabled : Bool) (limits : Limits) (ms : Option (List Measurement)) (sys : System)
    → IsExclusive sys
    → IsExclusive (run enabled limits ms sys)
unfolding run
run-IsExclusive enabled limits none sys h = h
run-IsExclusive enabled limits (some ms) sys h =
    hand_over-IsExclusive (measure_all enabled limits ms sys.rows).0
      (record sys { rows = (measure_all enabled limits ms sys.rows).1 })
      (record { loops = h.loops; idle = h.idle; users = h.users })

-- What a step of the only goroutine keeps.
pub record IsAdvanced (after : List Phase × System) : Type 0 where
  pub loops : length after.0 ≡ loop_count after.1.delivering
  pub idle : after.1.delivering ≡ false → length after.1.queued ≡ 0
  pub users : is_unique after.1.queued ≡ true

next_pass-IsAdvanced :
    (queued : List Delivery) (sys : System)
    → sys.queued ≡ queued
    → sys.delivering ≡ true
    → IsAdvanced (next_pass queued sys)
next_pass-IsAdvanced [] sys e d = record {
  loops = refl;
  idle = λ i. ap length e;
  users = rw e refl;
}
next_pass-IsAdvanced (q ∷ queue) sys e d = record {
  loops = ground (arith, d);
  idle = λ i. refl;
  users = refl;
}

advance-IsAdvanced :
    (a : Answers) (phase : Phase) (sys : System)
    → sys.delivering ≡ true
    → is_unique sys.queued ≡ true
    → IsAdvanced (advance a phase sys)
unfolding advance
advance-IsAdvanced a (starting batch) sys d u = elim (Bool-cases a.enabled) [
  | inl e ↦
      rw e
        (record { loops = ground (arith, d); idle = λ i. absurd (ground (arith, i, d)); users = u })
  | inr e ↦ rw e (record { loops = refl; idle = λ i. refl; users = refl })
]
advance-IsAdvanced a (sending []) sys d u = next_pass-IsAdvanced sys.queued sys refl d
advance-IsAdvanced a (sending (m ∷ rest)) sys d u =
    elim (Bool-cases (still_pending a.reads m sys.rows && a.posted)) [
      | inl e ↦ rw e (record {
        loops = ground (arith, d);
        idle = λ i. absurd (ground (arith, i, d));
        users = u;
      })
      | inr e ↦ rw e (record {
        loops = ground (arith, d);
        idle = λ i. absurd (ground (arith, i, d));
        users = u;
      })
    ]
advance-IsAdvanced a (delivered m rest) sys d u = elim (Bool-cases a.writes) [
  | inl e ↦
      rw e
        (record { loops = ground (arith, d); idle = λ i. absurd (ground (arith, i, d)); users = u })
  | inr e ↦
      rw e
        (record { loops = ground (arith, d); idle = λ i. absurd (ground (arith, i, d)); users = u })
]

-- In every state that checks and steps of goroutines reach, in any order and with any answers: one
-- goroutine runs if `delivering` is set and none if it is not, a queue without a goroutine is empty,
-- and no user has two messages in the queue.
pub Reachable-IsExclusive :
    (limits : Limits) (sys : System) → Reachable limits sys → IsExclusive sys
Reachable-IsExclusive limits _ (fresh rows) = record {
  loops = refl;
  idle = λ i. refl;
  users = refl;
}
Reachable-IsExclusive limits _ (checked enabled ms sys r) =
    run-IsExclusive enabled limits ms sys (Reachable-IsExclusive limits sys r)
Reachable-IsExclusive limits _ (advanced a phase before after sys r) =
    let h : IsExclusive (record sys { loops = before ++ phase ∷ after }) =
      Reachable-IsExclusive limits (record sys { loops = before ++ phase ∷ after }) r in
    let count : length before + suc (length after) ≡ loop_count sys.delivering =
      sym (length-append before (phase ∷ after)) ∙ h.loops in
    let busy : sys.delivering ≡ true = ground (arith, count) in
    let alone : length before + length after ≡ 0 = ground (arith, count, busy) in
    let step : IsAdvanced (advance a phase sys) = advance-IsAdvanced a phase sys busy h.users in
    let next : List Phase = (advance a phase sys).0 in
    let counted : length (before ++ next ++ after) ≡ length before + length next + length after =
      length-append (before ++ next) after
      ∙ ap (λ (n : ℕ). n + length after) (length-append before next) in
    record {
      loops = counted ∙ omega (arith, alone) ∙ step.loops;
      idle = step.idle;
      users = step.users;
    }
