-- ===== src/Alerts/Checker/Payload.antt =====
-- The percentage of a drop's message.
use wdbgp.Prelude.{
  ℕ, ◌<◌, ◌≤◌, ◌*◌, ◌-◌, ◌/◌, arith, ◌≡◌, Option, ltb, some, true, sym, leb, ◌∙◌, ap, subst, refl,
  if_true,
}
use native.Mathlib.Nat.{div-le_of_le-mul}
use mathlib.Core.Option.{some-injective}
use wdbgp.Alerts.State.{
  Counts, total, Transition, Event, dropped, AlertRow, Limits, Db, evaluate, drop_line,
}
use wdbgp.Alerts.State.Steady.{IsPercent}
use wdbgp.Alerts.State.Retry.{evaluate-drop, reports_drop, drop_message}
use wdbgp.Alerts.Checker.{drop_percent, loss, gain, percent_for, hundred_less}

-- The share of what is left is at most what the threshold leaves.
share-below :
    (base current percent : ℕ)
    → 0 < base
    → current ≤ base * (100 - percent) / 100
    → current * 100 / base ≤ 100 - percent
share-below base current percent positive low =
    let product : current * 100 ≤ base * (100 - percent) = omega arith in
    div-le_of_le-mul base product

percent-bounds :
    (limits : Limits) (t : Transition)
    → IsPercent limits
    → t.event ≡ dropped
    → 0 < total t.baseline
    → total t.current ≤ drop_line limits t.baseline
    → (n : ℕ) × ((drop_percent t ≡ loss n) × ((limits.drop_threshold_percent ≤ n) × (n ≤ 100)))
percent-bounds limits t p event positive low =
    let share : ℕ = total t.current * 100 / total t.baseline in
    let below : share ≤ 100 - limits.drop_threshold_percent =
      share-below (total t.baseline) (total t.current) limits.drop_threshold_percent positive low in
    let some_baseline : ltb 0 (total t.baseline) ≡ true = ground arith in
    let small : leb share 100 ≡ true = ground (arith, below) in
    (
      100 - share,
      (
        ap (λ (e : Event). percent_for e t.baseline t.current) event
            ∙ if_true (hundred_less share) (loss 0) some_baseline
            ∙ if_true (loss (100 - share)) (gain (share - 100)) small,
        (omega (arith, below, p.most), omega arith),
      ),
    )

-- With a threshold of one to 99 percent, the message of a drop that a check reports says a loss of at
-- least the threshold and at most 100 percent.
pub drop_percent-bounds :
    (db : Db) (limits : Limits) (now : ℕ) (current : Counts) (row : Option AlertRow)
    (t : Transition)
    → IsPercent limits
    → (evaluate db limits now current row).0 ≡ some (some t)
    → t.event ≡ dropped
    → (n : ℕ) × ((drop_percent t ≡ loss n) × ((limits.drop_threshold_percent ≤ n) × (n ≤ 100)))
drop_percent-bounds db limits now current row t p said event =
    let reported : reports_drop (evaluate db limits now current row).0 ≡ true =
      rw said (rw event refl) in
    let (old, (drop, step)) = evaluate-drop db limits now current row reported in
    let same : t ≡ drop_message now current old = some-injective t (drop_message now current old) (
      some-injective (some t) (some (drop_message now current old))
        (sym said ∙ ap (λ x. x.0) step)) in
    let positive : 0 < total old.baseline = ground (arith, drop) in
    let low : total current ≤ drop_line limits old.baseline = ground (arith, drop) in
    percent-bounds limits t p event
      (subst (λ (m : Transition). 0 < total m.baseline) (sym same) positive)
      (subst (λ (m : Transition). total m.current ≤ drop_line limits m.baseline) (sym same) low)
