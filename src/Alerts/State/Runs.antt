-- ===== src/Alerts/State/Runs.antt =====
-- Tests: a drop, a failing check, a late mark, and the theorems at a user with 100 prefixes.
use wdbgp.Prelude.{true, Option, ◌∷◌, ◌≡◌, none, false, refl, arith, some, []}
use wdbgp.Alerts.State.{
  decide_since, decide_normal, decide_recovery, Counts, Transition, dropped, AlertRow, Limits, Db,
  evaluate, pending_drop, pending_recovery, mark_drop_delivered, drop_still_pending, first_row,
}
use wdbgp.Alerts.State.Invariant.{
  unseen, tick, Reachable-IsConsistent, Reachable-pending, IsConsistent,
}
use wdbgp.Alerts.State.Steady.{working, check_at, check_at-quiet}

abbrev hundred : Counts
hundred = record { v4 = 90; v6 = 10 }

abbrev forty : Counts
forty = record { v4 = 40; v6 = 0 }

-- Half of the prefixes, and at least ten.
abbrev half : Limits
half = record { drop_threshold_percent = 50; baseline_minimum = 10 }

abbrev up_row : Option AlertRow
up_row = some (first_row hundred)

abbrev broken : Db
broken = record { reads = true; writes = false }

abbrev down_row : Option AlertRow
down_row = some (record (first_row hundred) { alerting_since = some 7; drop_delivered = false })

abbrev down_message : Transition
down_message = record { event = dropped; detected_at = 7; baseline = hundred; current = forty }

drops : evaluate working half 7 forty up_row ≡ (some (some down_message), down_row)
unfolding evaluate decide_since decide_normal decide_recovery
drops = refl

-- Nothing is lost in a check whose write fails: the next one sees the same baseline.
fails : evaluate broken half 7 forty up_row ≡ (none, up_row)
unfolding evaluate decide_since decide_normal decide_recovery
fails = refl

-- The mark of a delivery that began during an earlier drop marks a later one that it did not report:
-- the first drop ends without a word between the delivery and its mark.
late_mark :
    (drop_still_pending 7 down_row ≡ true)
    × (pending_drop forty (
          mark_drop_delivered
            (evaluate working half 9 forty (evaluate working half 8 hundred down_row).1).1)
        ≡ none)
unfolding drop_still_pending mark_drop_delivered evaluate decide_since decide_normal decide_recovery
late_mark = (refl, refl)

Reachable-IsConsistent_example : IsConsistent (evaluate working half 0 hundred none).1
Reachable-IsConsistent_example =
    Reachable-IsConsistent half (evaluate working half 0 hundred none).1
      (tick working 0 hundred none unseen)

check_at-quiet_example :
    (evaluate working half 9 forty
      (check_at half forty (8 ∷ []) (evaluate working half 7 forty up_row).1)).0
    ≡ some none
check_at-quiet_example =
    check_at-quiet half forty 7 (8 ∷ []) 9 up_row
      (record { least = omega arith; most = omega arith })

Reachable-pending_example :
    pending_recovery forty
      (evaluate working half 7 forty (evaluate working half 0 hundred none).1).1
    ≡ none
unfolding evaluate decide_since decide_normal decide_recovery
Reachable-pending_example =
    Reachable-pending half forty
      (evaluate working half 7 forty (evaluate working half 0 hundred none).1).1
      (tick working 7 forty (evaluate working half 0 hundred none).1
        (tick working 0 hundred none unseen))
      (λ e. ground (arith, e))
