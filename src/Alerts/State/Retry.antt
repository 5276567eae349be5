-- ===== src/Alerts/State/Retry.antt =====
-- The row of a drop stays as it is while the counts are at its line or below.
use wdbgp.Prelude.{
  List, ℕ, Option, ◌≡◌, ◌∷◌, Bool, true, [], false, some, not, none, leb, ◌≤◌, ◌&&◌, ltb, arith,
  Bool-cases, inl, inr, refl, subst, sym, ◌∙◌, ap, if_true,
}
use mathlib.Core.Option.{some-injective}
use wdbgp.Alerts.State.{
  Counts, total, Transition, dropped, AlertRow, Limits, Db, decide_since, decide_normal,
  decide_recovery, drop_line, evaluate, store_row, is_drop,
}

-- A check: what it measures, when, and whether its statements succeed.
pub record Tick : Type 0 where
  pub db : Db
  pub now : ℕ
  pub current : Counts

abbrev pub check : Limits → Tick → Option AlertRow → Option (Option Transition) × Option AlertRow
check limits tick row = evaluate tick.db limits tick.now tick.current row

abbrev pub check_all : Limits → List Tick → Option AlertRow → Option AlertRow
check_all limits [] row = row
check_all limits (tick ∷ ticks) row = check_all limits ticks (check limits tick row).1

-- No check measures more than the line.
abbrev pub all_below : ℕ → List Tick → Bool
all_below line [] = true
all_below line (tick ∷ ticks) = leb (total tick.current) line && all_below line ticks

abbrev pub reports_drop : Option (Option Transition) → Bool
reports_drop none = false
reports_drop (some none) = false
reports_drop (some (some t)) = elim t.event [ dropped ↦ true | _ ↦ false ]

-- No check reports a new drop.
abbrev pub all_calm : Limits → List Tick → Option AlertRow → Bool
all_calm limits [] row = true
all_calm limits (tick ∷ ticks) row =
    not (reports_drop (check limits tick row).0) && all_calm limits ticks (check limits tick row).1

-- The message with the counts of the last check.
abbrev pub with_counts : Counts → Transition → Transition
with_counts current t = record t { current = current }

-- Below the line a row of a drop stays as it is, whatever fails.
check-below :
    (limits : Limits) (tick : Tick) (row : AlertRow) (since : ℕ)
    → row.alerting_since ≡ some since
    → total tick.current ≤ drop_line limits row.baseline
    → (check limits tick (some row)).1 ≡ some row
unfolding evaluate decide_since
check-below limits tick row since e low =
    let down : ltb (drop_line limits row.baseline) (total tick.current) ≡ false = ground arith in
    elim (Bool-cases tick.db.reads) [ inl r ↦ simp (e, down, r) refl | inr r ↦ rw r refl ]

check_all-below :
    (limits : Limits) (ticks : List Tick) (row : AlertRow) (since : ℕ)
    → row.alerting_since ≡ some since
    → all_below (drop_line limits row.baseline) ticks ≡ true
    → check_all limits ticks (some row) ≡ some row
check_all-below limits [] row since e h = refl
check_all-below limits (tick ∷ ticks) row since e h =
    subst (λ (x : Option AlertRow). check_all limits ticks x ≡ some row)
      (sym (check-below limits tick row since e (ground (arith, h))))
      (check_all-below limits ticks row since e (ground (arith, h)))

-- The message and the row of a new drop.
abbrev pub drop_message : ℕ → Counts → AlertRow → Transition
drop_message now current old = record {
  event = dropped;
  detected_at = now;
  baseline = old.baseline;
  current = current;
}

abbrev pub drop_row : ℕ → AlertRow → AlertRow
drop_row now old = record old {
  alerting_since = some now;
  drop_delivered = false;
  recovery_pending = false;
}

drop-when :
    (db : Db) (limits : Limits) (now : ℕ) (current : Counts) (old : AlertRow) (since : Option ℕ)
    → reports_drop
        (store_row db
          (some old)
          (decide_since limits now current old since).0
          (decide_since limits now current old since).1).0
      ≡ true
    → (is_drop limits old.baseline current ≡ true)
      × (store_row db
            (some old)
            (decide_since limits now current old since).0
            (decide_since limits now current old since).1
          ≡ (some (some (drop_message now current old)), some (drop_row now old)))
unfolding decide_since decide_normal decide_recovery
drop-when db limits now current old none h =
    elim (Bool-cases (is_drop limits old.baseline current)) [
      | inl drop ↦ elim (Bool-cases db.writes) [
        | inl w ↦ (drop, rw (drop, w) refl)
        | inr w ↦ absurd (ground (arith, h))
      ]
      | inr calm ↦ absurd (ground (arith, h))
    ]
drop-when db limits now current old (some since) h =
    elim (Bool-cases (ltb (drop_line limits old.baseline) (total current))) [
      | inl up ↦ elim (Bool-cases old.drop_delivered) [
        | inl told ↦ absurd (ground (arith, h))
        | inr untold ↦ absurd (ground (arith, h))
      ]
      | inr down ↦ absurd (ground (arith, h))
    ]

pub evaluate-drop :
    (db : Db) (limits : Limits) (now : ℕ) (current : Counts) (row : Option AlertRow)
    → reports_drop (evaluate db limits now current row).0 ≡ true
    → (old : AlertRow) × ((is_drop limits old.baseline current ≡ true)
        × (evaluate db limits now current row
            ≡ (some (some (drop_message now current old)), some (drop_row now old))))
unfolding evaluate
evaluate-drop db limits now current none h = absurd (ground (arith, h))
evaluate-drop db limits now current (some old) h = elim (Bool-cases db.reads) [
  | inl r ↦
      let (drop, e) =
        drop-when db limits now current old old.alerting_since (ground (arith, h, r)) in
      (old, (drop, if_true _ (none, some old) r ∙ e))
  | inr r ↦ absurd (ground (arith, h))
]

-- The row that checks below the line leave after the report of a drop.
pub drop-kept :
    (db : Db) (limits : Limits) (now : ℕ) (current : Counts) (row : Option AlertRow)
    (t : Transition) (ticks : List Tick)
    → (evaluate db limits now current row).0 ≡ some (some t)
    → t.event ≡ dropped
    → all_below (drop_line limits t.baseline) ticks ≡ true
    → (old : AlertRow) × ((t ≡ drop_message now current old)
        × (check_all limits ticks (evaluate db limits now current row).1 ≡ some (drop_row now old)))
drop-kept db limits now current row t ticks said event low =
    let reported : reports_drop (evaluate db limits now current row).0 ≡ true =
      rw said (rw event refl) in
    let (old, (drop, step)) = evaluate-drop db limits now current row reported in
    let same : t ≡ drop_message now current old = some-injective t (drop_message now current old) (
      some-injective (some t) (some (drop_message now current old))
        (sym said ∙ ap (λ x. x.0) step)) in
    (
      old,
      (
        same,
        ap (λ x. check_all limits ticks x.1) step
            ∙ check_all-below limits ticks (drop_row now old) now refl (
                subst (λ (m : Transition). all_below (drop_line limits m.baseline) ticks ≡ true)
                  same low),
      ),
    )
