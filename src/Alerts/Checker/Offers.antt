-- ===== src/Alerts/Checker/Offers.antt =====
-- A message that was not delivered is offered again by the checks that come after the one that
-- reported it.
use wdbgp.Prelude.{
  List, ℕ, Option, ◌≡◌, true, false, some, ltb, arith, ◌≤◌, refl, subst, sym, ◌∙◌, ap,
}
use wdbgp.Alerts.State.{
  Counts, total, Transition, dropped, AlertRow, Limits, Db, decide_since, drop_line, evaluate,
}
use wdbgp.Alerts.State.Retry.{
  Tick, check_all, all_below, with_counts, drop_row, drop_message, drop-kept,
}
use wdbgp.Alerts.Checker.{Measurement, measure_counts}

-- The statements of a check succeed.
pub record IsHealthy (m : Measurement) : Type 0 where
  pub reads : m.db.reads ≡ true
  pub writes : m.db.writes ≡ true
  pub finds_drop : m.finds_drop ≡ true
  pub finds_recovery : m.finds_recovery ≡ true

offers-drop :
    (limits : Limits) (m : Measurement) (last : Counts) (now : ℕ) (old : AlertRow)
    → IsHealthy m
    → total last ≤ drop_line limits old.baseline
    → (measure_counts true limits m (some last) (some (drop_row now old))).0
      ≡ some (drop_message now last old)
unfolding evaluate decide_since
offers-drop limits m last now old h low =
    let down : ltb (drop_line limits old.baseline) (total last) ≡ false = ground (arith, low) in
    rw (h.reads, down, h.finds_drop) refl

-- When a check reports a drop whose delivery is not marked, and later checks, with any clock and
-- whatever statements fail, measure no more than the line of the drop, then a check after them with a
-- webhook, whose statements succeed and which measures no more than the line, has the same
-- message to deliver again, with its time, its baseline and the counts of this check.
pub drop-retried :
    (db : Db) (limits : Limits) (now : ℕ) (current last : Counts) (row : Option AlertRow)
    (t : Transition) (ticks : List Tick) (m : Measurement)
    → (evaluate db limits now current row).0 ≡ some (some t)
    → t.event ≡ dropped
    → all_below (drop_line limits t.baseline) ticks ≡ true
    → total last ≤ drop_line limits t.baseline
    → IsHealthy m
    → (measure_counts true limits m
        (some last)
        (check_all limits ticks (evaluate db limits now current row).1)).0
      ≡ some (with_counts last t)
drop-retried db limits now current last row t ticks m said event below low h =
    let (old, (same, row')) = drop-kept db limits now current row t ticks said event below in
    ap (λ r. (measure_counts true limits m (some last) r).0) row'
    ∙ offers-drop limits m last now old h
        (subst (λ (x : Transition). total last ≤ drop_line limits x.baseline) same low)
    ∙ ap (λ (x : Transition). some (with_counts last x)) (sym same)
