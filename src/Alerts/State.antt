-- ===== src/Alerts/State.antt =====
-- internal/store/user_prefix_alerts.go: the row of `user_prefix_alert_state` for one user. A row that
-- is not there is `none`. A statement fails or not as the connection says, and a failed one changes
-- nothing; the clock is an argument.
pub mod Invariant
pub mod Steady
pub mod Retry
pub mod Recovery
pub mod Runs
use wdbgp.Prelude.{
  none, ℕ, Option, Bool, true, some, ◌+◌, if◌then◌else◌, ltb, ◌*◌, false, ◌==◌, leb, ◌-◌, ◌&&◌, not,
  ◌/◌,
}

-- IPv4 and IPv6 prefixes.
pub record Counts : Type 0 where
  pub v4 : ℕ
  pub v6 : ℕ

abbrev pub total : Counts → ℕ
total c = c.v4 + c.v6

-- A difference of two times in seconds, which is negative if the clock was set back.
pub data Duration : Type 0 where
  seconds : ℕ → Duration
  negative : ℕ → Duration

abbrev pub elapsed : ℕ → ℕ → Duration
elapsed since now = if leb since now then seconds (now - since) else negative (since - now)

-- The columns of a row; the recovery's columns are NULL before the first recovery.
pub record AlertRow : Type 0 where
  pub baseline : Counts
  pub alerting_since : Option ℕ
  pub drop_delivered : Bool
  pub recovery_pending : Bool
  pub recovery_detected_at : Option ℕ
  pub recovery_baseline : Option Counts
  pub recovery_duration : Option Duration

-- `PrefixAlertEvent`; the duration is only set for a recovery.
pub data Event : Type 0 where
  dropped : Event
  recovered : Duration → Event

-- `PrefixAlertTransition`.
pub record Transition : Type 0 where
  pub event : Event
  pub detected_at : ℕ
  pub baseline : Counts
  pub current : Counts

-- The settings of the check.
pub record Limits : Type 0 where
  pub drop_threshold_percent : ℕ
  pub baseline_minimum : ℕ

-- Whether the statement that reads and the one that writes succeed.
pub record Db : Type 0 where
  pub reads : Bool
  pub writes : Bool

-- The first observation.
abbrev pub first_row : Counts → AlertRow
first_row current = record {
  baseline = current;
  alerting_since = none;
  drop_delivered = true;
  recovery_pending = false;
  recovery_detected_at = none;
  recovery_baseline = none;
  recovery_duration = none;
}

-- `dropLine`: the threshold is a percentage of one to 99.
abbrev pub drop_line : Limits → Counts → ℕ
drop_line limits baseline = total baseline * (100 - limits.drop_threshold_percent) / 100

-- The condition of a drop.
abbrev pub is_drop : Limits → Counts → Counts → Bool
is_drop limits baseline current =
    ltb 0 (total baseline)
    && leb limits.baseline_minimum (total baseline)
    && leb (total current) (drop_line limits baseline)

-- What `EvaluateUserPrefixAlert` does with a row in the normal state: the transition that it
-- reports and the row that it writes.
unfoldable pub decide_normal : Limits → ℕ → Counts → AlertRow → Option Transition × AlertRow
decide_normal limits now current row =
    if is_drop limits row.baseline current
    then (
      some (record {
        event = dropped;
        detected_at = now;
        baseline = row.baseline;
        current = current;
      }),
      record row { alerting_since = some now; drop_delivered = false; recovery_pending = false },
    )
    else (none, record row { baseline = current })

-- The end of a drop: a drop that was never delivered ends without a word.
unfoldable pub decide_recovery : ℕ → Counts → ℕ → AlertRow → Option Transition × AlertRow
decide_recovery now current since row =
    if row.drop_delivered
    then (
      some (record {
        event = recovered (elapsed since now);
        detected_at = now;
        baseline = row.baseline;
        current = current;
      }),
      record row {
        baseline = current;
        alerting_since = none;
        drop_delivered = true;
        recovery_pending = true;
        recovery_detected_at = some now;
        recovery_baseline = some row.baseline;
        recovery_duration = some (elapsed since now);
      },
    )
    else (none, record row { baseline = current; alerting_since = none; drop_delivered = true })

-- The transition, and the row to write if there is a statement at all, by the column
-- `alerting_since`.
unfoldable pub decide_since :
    Limits → ℕ → Counts → AlertRow → Option ℕ → Option Transition × Option AlertRow
decide_since limits now current row none =
    let (t, row') = decide_normal limits now current row in (t, some row')
decide_since limits now current row (some since) =
    let (t, row') = decide_recovery now current since row in
    if ltb (drop_line limits row.baseline) (total current) then (t, some row') else (none, none)

abbrev pub decide : Limits → ℕ → Counts → AlertRow → Option Transition × Option AlertRow
decide limits now current row = decide_since limits now current row row.alerting_since

-- The write of a statement: `none` for its error.
abbrev pub store_row :
    Db
    → Option AlertRow
    → Option Transition
    → Option AlertRow
    → Option (Option Transition) × Option AlertRow
store_row db old t none = (some t, old)
store_row db old t (some row) = if db.writes then (some t, some row) else (none, old)

-- `EvaluateUserPrefixAlert`: the transition, or `none` for an error, and the row.
unfoldable pub evaluate :
    Db → Limits → ℕ → Counts → Option AlertRow → Option (Option Transition) × Option AlertRow
evaluate db limits now current none =
    if db.reads then store_row db none none (some (first_row current)) else (none, none)
evaluate db limits now current (some row) =
    let (t, update) = decide limits now current row in
    if db.reads then store_row db (some row) t update else (none, some row)

-- The drop of a row by its columns `alerting_since` and `drop_delivered`.
abbrev pub drop_since : Counts → AlertRow → Option ℕ → Option Transition
drop_since current row none = none
drop_since current row (some since) =
    if row.drop_delivered
    then none
    else some (record {
      event = dropped;
      detected_at = since;
      baseline = row.baseline;
      current = current;
    })

-- `PendingPrefixAlertDrop`, whose read succeeds.
abbrev pub pending_drop : Counts → Option AlertRow → Option Transition
pending_drop current none = none
pending_drop current (some row) = drop_since current row row.alerting_since

-- `Int64` of a column that may be NULL.
abbrev pub or_zero : Option ℕ → ℕ
or_zero none = 0
or_zero (some n) = n

abbrev pub or_no_counts : Option Counts → Counts
or_no_counts none = record { v4 = 0; v6 = 0 }
or_no_counts (some c) = c

abbrev pub or_no_time : Option Duration → Duration
or_no_time none = seconds 0
or_no_time (some d) = d

-- `PendingPrefixAlertRecovery`, whose read succeeds.
unfoldable pub pending_recovery : Counts → Option AlertRow → Option Transition
pending_recovery current none = none
pending_recovery current (some row) =
    if row.recovery_pending
    then some (record {
      event = recovered (or_no_time row.recovery_duration);
      detected_at = or_zero row.recovery_detected_at;
      baseline = or_no_counts row.recovery_baseline;
      current = current;
    })
    else none

abbrev pub is_at : ℕ → Option ℕ → Bool
is_at n none = false
is_at n (some m) = m == n

-- `PrefixAlertDropStillPending`.
unfoldable pub drop_still_pending : ℕ → Option AlertRow → Bool
drop_still_pending detected_at none = false
drop_still_pending detected_at (some row) =
    is_at detected_at row.alerting_since && not row.drop_delivered

-- `PrefixAlertRecoveryStillPending`.
pub recovery_still_pending : ℕ → Option AlertRow → Bool
recovery_still_pending detected_at none = false
recovery_still_pending detected_at (some row) =
    row.recovery_pending && is_at detected_at row.recovery_detected_at

-- `MarkPrefixAlertDropDelivered`: an UPDATE of no row does nothing.
unfoldable pub mark_drop_delivered : Option AlertRow → Option AlertRow
mark_drop_delivered none = none
mark_drop_delivered (some row) = some (record row { drop_delivered = true })

-- `MarkPrefixAlertRecoveryDelivered`.
pub mark_recovery_delivered : Option AlertRow → Option AlertRow
mark_recovery_delivered none = none
mark_recovery_delivered (some row) = some (record row { recovery_pending = false })
