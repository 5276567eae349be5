-- ===== src/Alerts/Checker/Runs.antt =====
-- Tests: two users of whom one loses its prefixes, and the theorems at them.
use wdbgp.Prelude.{List, Option, false, some, true, none, ℕ, ◌≡◌, [], refl, ◌≤◌, arith}
use wdbgp.Alerts.State.{
  Counts, Transition, dropped, Limits, Db, evaluate, first_row, pending_drop, drop_still_pending,
  mark_drop_delivered, decide_since, decide_normal, AlertRow, recovered, seconds,
}
use wdbgp.Alerts.State.Retry.{with_counts, Tick, check_all}
use wdbgp.Alerts.Checker.{
  Rows, Delivery, Measurement, System, starting, sending, delivered, run, measure_all,
  measure_counts, hand_over, Answers, advance, new_system, fresh, checked, drop_percent, loss, ◌∷◌,
}
use wdbgp.Alerts.Checker.Exclusive.{IsExclusive, Reachable-IsExclusive}
use wdbgp.Alerts.Checker.Queue.{find_user}
use wdbgp.Alerts.Checker.Messages.{message_of, measure_all-independent, run-keeps, handed_over}
use wdbgp.Alerts.Checker.Offers.{IsHealthy, drop-retried}
use wdbgp.Alerts.Checker.Payload.{drop_percent-bounds}

abbrev ten : Counts
ten = record { v4 = 10; v6 = 0 }

abbrev three : Counts
three = record { v4 = 3; v6 = 0 }

abbrev half : Limits
half = record { drop_threshold_percent = 50; baseline_minimum = 5 }

abbrev good : Db
good = record { reads = true; writes = true }

abbrev start_rows : Rows
start_rows user = some (first_row ten)

abbrev start_system : System
start_system = new_system start_rows

-- The counts of user 1 fail, and user 2 is down to three prefixes.
abbrev failing : Measurement
failing = record {
  user = 1;
  counted = none;
  now = 5;
  db = good;
  finds_drop = true;
  finds_recovery = true;
}

abbrev falling : Measurement
falling = record failing { user = 2; counted = some three }

abbrev down : Transition
down = record { event = dropped; detected_at = 5; baseline = ten; current = three }

abbrev message : Delivery
message = record { user = 2; transition = down }

abbrev after_check : System
after_check = record start_system {
  rows = (measure_all true half (failing ∷ falling ∷ []) start_rows).1;
  delivering = true;
  loops = starting (message ∷ []) ∷ [];
}

abbrev all_well : Answers
all_well = record { enabled = true; reads = true; posted = true; writes = true }

abbrev off : Answers
off = record all_well { enabled = false }

checks : run true half (some (failing ∷ falling ∷ [])) start_system ≡ after_check
unfolding run hand_over measure_all evaluate decide_since decide_normal
checks = refl

posts :
    ((advance all_well (sending (message ∷ [])) after_check).0 ≡ delivered message [] ∷ [])
    × (pending_drop three ((advance all_well (delivered message []) after_check).1.rows 2) ≡ none)
unfolding advance measure_all evaluate decide_since decide_normal drop_still_pending
    mark_drop_delivered
posts = (refl, refl)

stops : (advance off (starting (message ∷ [])) after_check).1.delivering ≡ false
unfolding advance
stops = refl

-- The percentage of the message.
seventy : drop_percent down ≡ loss 70
seventy = refl

Reachable-IsExclusive_example : IsExclusive (run true half (some (falling ∷ [])) start_system)
Reachable-IsExclusive_example =
    Reachable-IsExclusive half (run true half (some (falling ∷ [])) start_system)
      (checked true (some (falling ∷ [])) start_system (fresh start_rows))

measure_all-independent_example :
    ((measure_all true half (failing ∷ falling ∷ []) start_rows).1 2
      ≡ (measure_counts true half falling (some three) (start_rows 2)).1)
    × (find_user 2 (measure_all true half (failing ∷ falling ∷ []) start_rows).0
        ≡ message_of 2 (measure_counts true half falling (some three) (start_rows 2)).0)
measure_all-independent_example =
    measure_all-independent true half (failing ∷ []) falling [] start_rows refl

run-keeps_example :
    handed_over 2 false (run true half (some (failing ∷ falling ∷ [])) start_system) ≡ some message
unfolding measure_all evaluate decide_since decide_normal
run-keeps_example = run-keeps true half (failing ∷ falling ∷ []) start_system message refl refl

drop_percent-bounds_example : (n : ℕ) × ((drop_percent down ≡ loss n) × ((50 ≤ n) × (n ≤ 100)))
unfolding evaluate decide_since decide_normal
drop_percent-bounds_example =
    drop_percent-bounds good half 5 three (some (first_row ten)) down
      (record { least = omega arith; most = omega arith }) refl refl

abbrev broken : Db
broken = record { reads = true; writes = false }

-- Checks while the user is down, of which one fails.
abbrev down_checks : List Tick
down_checks =
    record { db = broken; now = 8; current = three }
    ∷ record { db = good; now = 9; current = record { v4 = 0; v6 = 0 } }
    ∷ []

abbrev four : Counts
four = record { v4 = 4; v6 = 0 }

falling-IsHealthy : IsHealthy falling
falling-IsHealthy = record { reads = refl; writes = refl; finds_drop = refl; finds_recovery = refl }

drop-retried_example :
    (measure_counts true half falling
      (some four)
      (check_all half down_checks (evaluate good half 5 three (some (first_row ten))).1)).0
    ≡ some (with_counts four down)
unfolding evaluate decide_since decide_normal
drop-retried_example =
    drop-retried good half 5 three four (some (first_row ten)) down down_checks falling refl refl
      refl (omega arith) falling-IsHealthy

abbrev told_row : Option AlertRow
told_row = some (record (first_row ten) { alerting_since = some 5 })

abbrev up : Transition
up = record { event = recovered (seconds 7); detected_at = 12; baseline = ten; current = ten }

-- The write of the second check fails, so its drop is not reported.
abbrev calm_checks : List Tick
calm_checks =
    record { db = good; now = 13; current = record { v4 = 9; v6 = 0 } }
    ∷ record { db = broken; now = 14; current = three }
    ∷ []
