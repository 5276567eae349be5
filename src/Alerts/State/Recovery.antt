-- ===== src/Alerts/State/Recovery.antt =====
-- The row of a recovery keeps its message until the user drops again.
use wdbgp.Prelude.{
  List, ℕ, Option, ◌≡◌, ◌∷◌, Bool, true, [], false, some, none, ltb, arith, Bool-cases, inl, inr,
  refl, subst, sym, ◌∙◌, ap, if_true, ◌≢◌,
}
use mathlib.Core.Option.{some-injective}
use wdbgp.Alerts.State.{
  Counts, total, Transition, Event, dropped, recovered, AlertRow, Limits, Db, decide_since,
  decide_normal, decide_recovery, drop_line, evaluate, store_row, is_drop, elapsed, Duration,
}
use wdbgp.Alerts.State.Retry.{Tick, check, check_all, reports_drop, all_calm}

-- The message and the row of a recovery.
abbrev pub recovery_message : ℕ → Counts → ℕ → AlertRow → Transition
recovery_message now current since old = record {
  event = recovered (elapsed since now);
  detected_at = now;
  baseline = old.baseline;
  current = current;
}

abbrev recovery_row : ℕ → Counts → ℕ → AlertRow → AlertRow
recovery_row now current since old = record {
  baseline = current;
  alerting_since = none;
  drop_delivered = true;
  recovery_pending = true;
  recovery_detected_at = some now;
  recovery_baseline = some old.baseline;
  recovery_duration = some (elapsed since now);
}

abbrev is_recovery : Option (Option Transition) → Bool
is_recovery none = false
is_recovery (some none) = false
is_recovery (some (some t)) = elim t.event [ dropped ↦ false | _ ↦ true ]

recovery-when :
    (db : Db) (limits : Limits) (now : ℕ) (current : Counts) (old : AlertRow) (since : Option ℕ)
    → is_recovery
        (store_row db
          (some old)
          (decide_since limits now current old since).0
          (decide_since limits now current old since).1).0
      ≡ true
    → (start : ℕ) × (store_row db
          (some old)
          (decide_since limits now current old since).0
          (decide_since limits now current old since).1
        ≡ (
          some (some (recovery_message now current start old)),
          some (recovery_row now current start old),
        ))
unfolding decide_since decide_normal decide_recovery
recovery-when db limits now current old none h =
    elim (Bool-cases (is_drop limits old.baseline current)) [
      | inl drop ↦ absurd (ground (arith, h))
      | inr calm ↦ absurd (ground (arith, h))
    ]
recovery-when db limits now current old (some since) h =
    elim (Bool-cases (ltb (drop_line limits old.baseline) (total current))) [
      | inl up ↦ elim (Bool-cases old.drop_delivered) [
        | inl told ↦ elim (Bool-cases db.writes) [
          | inl w ↦ (since, rw (up, told, w) refl)
          | inr w ↦ absurd (ground (arith, h))
        ]
        | inr untold ↦ absurd (ground (arith, h))
      ]
      | inr down ↦ absurd (ground (arith, h))
    ]

evaluate-recovery :
    (db : Db) (limits : Limits) (now : ℕ) (current : Counts) (row : Option AlertRow)
    → is_recovery (evaluate db limits now current row).0 ≡ true
    → (old : AlertRow) × ((start : ℕ) × (evaluate db limits now current row ≡ (
      some (some (recovery_message now current start old)),
      some (recovery_row now current start old),
    )))
unfolding evaluate
evaluate-recovery db limits now current none h = absurd (ground (arith, h))
evaluate-recovery db limits now current (some old) h = elim (Bool-cases db.reads) [
  | inl r ↦
      let (start, e) =
        recovery-when db limits now current old old.alerting_since (ground (arith, h, r)) in
      (old, (start, if_true _ (none, some old) r ∙ e))
  | inr r ↦ absurd (ground (arith, h))
]

-- A normal row whose recovery waits.
abbrev pub held_row : Duration → ℕ → Counts → Counts → AlertRow
held_row duration detected before baseline = record {
  baseline = baseline;
  alerting_since = none;
  drop_delivered = true;
  recovery_pending = true;
  recovery_detected_at = some detected;
  recovery_baseline = some before;
  recovery_duration = some duration;
}

check-held :
    (limits : Limits) (tick : Tick) (duration : Duration) (detected : ℕ) (before baseline : Counts)
    → reports_drop (check limits tick (some (held_row duration detected before baseline))).0 ≡ false
    → (next : Counts) × ((check limits tick (some (held_row duration detected before baseline))).1
        ≡ some (held_row duration detected before next))
unfolding evaluate decide_since decide_normal
check-held limits tick duration detected before baseline calm = elim (Bool-cases tick.db.reads) [
  | inl r ↦ elim (Bool-cases (is_drop limits baseline tick.current)) [
    | inl drop ↦ elim (Bool-cases tick.db.writes) [
      | inl w ↦ absurd (ground (arith, calm))
      | inr w ↦ (baseline, ground (arith, r, drop, w))
    ]
    | inr same ↦ elim (Bool-cases tick.db.writes) [
      | inl w ↦ (tick.current, ground (arith, r, same, w))
      | inr w ↦ (baseline, ground (arith, r, same, w))
    ]
  ]
  | inr r ↦ (baseline, ground (arith, r))
]

check_all-held :
    (limits : Limits) (ticks : List Tick) (duration : Duration) (detected : ℕ)
    (before baseline : Counts)
    → all_calm limits ticks (some (held_row duration detected before baseline)) ≡ true
    → (next : Counts) × (check_all limits ticks (some (held_row duration detected before baseline))
        ≡ some (held_row duration detected before next))
check_all-held limits [] duration detected before baseline h = (baseline, refl)
check_all-held limits (tick ∷ ticks) duration detected before baseline h =
    let (next, step) =
      check-held limits tick duration detected before baseline (ground (arith, h)) in
    let (last, steps) =
      check_all-held limits ticks duration detected before next (
        subst (λ (x : Option AlertRow). all_calm limits ticks x ≡ true) step (ground (arith, h))) in
    (last, ap (check_all limits ticks) step ∙ steps)

-- The row that checks without a new drop leave after the report of a recovery.
pub recovery-kept :
    (db : Db) (limits : Limits) (now : ℕ) (current : Counts) (row : Option AlertRow)
    (t : Transition) (ticks : List Tick)
    → (evaluate db limits now current row).0 ≡ some (some t)
    → t.event ≢ dropped
    → all_calm limits ticks (evaluate db limits now current row).1 ≡ true
    → (old : AlertRow) × ((start : ℕ) × ((next : Counts) × ((t
              ≡ recovery_message now current start old)
            × (check_all limits ticks (evaluate db limits now current row).1
                ≡ some (held_row (elapsed start now) now old.baseline next)))))
recovery-kept db limits now current row t ticks said event calm =
    let (old, (start, step)) =
      evaluate-recovery db limits now current row (rw said (not_dropped t.event event)) in
    let same : t ≡ recovery_message now current start old =
      some-injective t (recovery_message now current start old) (
        some-injective (some t) (some (recovery_message now current start old))
          (sym said ∙ ap (λ x. x.0) step)) in
    let (next, steps) =
      check_all-held limits ticks (elapsed start now) now old.baseline current
        (subst (λ x. all_calm limits ticks x.1 ≡ true) step calm) in
    (old, (start, (next, (same, ap (λ x. check_all limits ticks x.1) step ∙ steps))))
  where
    not_dropped : (e : Event) → e ≢ dropped → elim e [ dropped ↦ false | _ ↦ true ] ≡ true
    not_dropped dropped h = absurd (h refl)
    not_dropped (recovered d) h = refl
