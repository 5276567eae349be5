-- ===== src/Alerts/State/Invariant.antt =====
-- What holds of a user's alert row in every state that the checks and the deliveries reach.
use wdbgp.Prelude.{
  Option, ℕ, ◌≡◌, Bool, none, some, true, Bool-cases, false, ◌&&◌, not, inl, arith, inr, refl, ltb,
  ◌≢◌,
}
use wdbgp.Alerts.State.{
  Counts, total, drop_since, AlertRow, Limits, Db, Transition, decide_since, decide_normal,
  decide_recovery, drop_line, evaluate, pending_drop, pending_recovery, mark_drop_delivered,
  mark_recovery_delivered, store_row, first_row, is_drop,
}

abbrev pub is_some : {A : Type 0} → Option A → Bool
is_some none = false
is_some (some x) = true

-- A drop is under way.
abbrev pub is_alerting : Option AlertRow → Bool
is_alerting none = false
is_alerting (some row) = is_some row.alerting_since

-- Its message was not delivered.
abbrev pub is_undelivered : Option AlertRow → Bool
is_undelivered none = false
is_undelivered (some row) = not row.drop_delivered

-- A recovery waits for its delivery.
abbrev pub is_waiting : Option AlertRow → Bool
is_waiting none = false
is_waiting (some row) = row.recovery_pending

-- The columns of a recovery are set.
abbrev pub is_frozen : Option AlertRow → Bool
is_frozen none = false
is_frozen (some row) =
    is_some row.recovery_detected_at
    && is_some row.recovery_baseline
    && is_some row.recovery_duration

-- Checks with any counts, clock and failures, and marks of deliveries at any time.
pub data Reachable (limits : Limits) : Option AlertRow → Type 0 where
  unseen : Reachable limits none
  tick :
      (db : Db) (now : ℕ) (current : Counts) (row : Option AlertRow)
      → Reachable limits row
      → Reachable limits (evaluate db limits now current row).1
  told_drop :
      (row : Option AlertRow) → Reachable limits row → Reachable limits (mark_drop_delivered row)
  told_recovery :
      (row : Option AlertRow)
      → Reachable limits row
      → Reachable limits (mark_recovery_delivered row)

pub record IsConsistent (row : Option AlertRow) : Type 0 where
  pub episode : is_undelivered row ≡ true → is_alerting row ≡ true
  pub apart : is_waiting row ≡ true → is_alerting row ≡ false
  pub frozen : is_waiting row ≡ true → is_frozen row ≡ true

store_row-IsConsistent :
    (db : Db) (old row : Option AlertRow) (t : Option Transition)
    → IsConsistent old
    → IsConsistent row
    → IsConsistent (store_row db old t row).1
store_row-IsConsistent db old none t h h' = h
store_row-IsConsistent db old (some row) t h h' = elim (Bool-cases db.writes) [
  | inl e ↦ rw e h'
  | inr e ↦ rw e h
]

decide_normal-IsConsistent :
    (limits : Limits) (now : ℕ) (current : Counts) (row : AlertRow)
    → row.alerting_since ≡ none
    → IsConsistent (some row)
    → IsConsistent (some (decide_normal limits now current row).1)
unfolding decide_normal
decide_normal-IsConsistent limits now current row n h =
    elim (Bool-cases (is_drop limits row.baseline current)) [
      | inl e ↦
          rw e
            (record { episode = λ u. refl; apart = λ w. ground arith; frozen = λ w. ground arith })
      | inr e ↦ rw e (record { episode = h.episode; apart = h.apart; frozen = h.frozen })
    ]

decide_recovery-IsConsistent :
    (now : ℕ) (current : Counts) (since : ℕ) (row : AlertRow)
    → row.alerting_since ≡ some since
    → IsConsistent (some row)
    → IsConsistent (some (decide_recovery now current since row).1)
unfolding decide_recovery
decide_recovery-IsConsistent now current since row n h = elim (Bool-cases row.drop_delivered) [
  | inl e ↦ rw e (record { episode = λ u. ground arith; apart = λ w. refl; frozen = λ w. refl })
  | inr e ↦ rw e (record { episode = λ u. ground arith; apart = λ w. refl; frozen = h.frozen })
]

decide-IsConsistent :
    (db : Db) (limits : Limits) (now : ℕ) (current : Counts) (row : AlertRow) (since : Option ℕ)
    → row.alerting_since ≡ since
    → IsConsistent (some row)
    → IsConsistent
        (store_row db
          (some row)
          (decide_since limits now current row since).0
          (decide_since limits now current row since).1).1
unfolding decide_since
decide-IsConsistent db limits now current row none e h =
    store_row-IsConsistent db (some row) (some (decide_normal limits now current row).1)
      (decide_normal limits now current row).0 h
      (decide_normal-IsConsistent limits now current row e h)
decide-IsConsistent db limits now current row (some since) e h =
    elim (Bool-cases (ltb (drop_line limits row.baseline) (total current))) [
      | inl up ↦ rw up (
          store_row-IsConsistent db (some row) (some (decide_recovery now current since row).1)
            (decide_recovery now current since row).0 h
            (decide_recovery-IsConsistent now current since row e h))
      | inr down ↦ rw down h
    ]

evaluate-IsConsistent :
    (db : Db) (limits : Limits) (now : ℕ) (current : Counts) (row : Option AlertRow)
    → IsConsistent row
    → IsConsistent (evaluate db limits now current row).1
unfolding evaluate
evaluate-IsConsistent db limits now current none h = elim (Bool-cases db.reads) [
  | inl e ↦ rw e (
      store_row-IsConsistent db none (some (first_row current)) none h
        (record { episode = λ u. ground arith; apart = λ w. refl; frozen = λ w. ground arith }))
  | inr e ↦ rw e h
]
evaluate-IsConsistent db limits now current (some row) h = elim (Bool-cases db.reads) [
  | inl e ↦ rw e (decide-IsConsistent db limits now current row row.alerting_since refl h)
  | inr e ↦ rw e h
]

mark_drop-IsConsistent :
    (row : Option AlertRow) → IsConsistent row → IsConsistent (mark_drop_delivered row)
unfolding mark_drop_delivered
mark_drop-IsConsistent none h = h
mark_drop-IsConsistent (some row) h = record {
  episode = λ u. ground arith;
  apart = h.apart;
  frozen = h.frozen;
}

mark_recovery-IsConsistent :
    (row : Option AlertRow) → IsConsistent row → IsConsistent (mark_recovery_delivered row)
unfolding mark_recovery_delivered
mark_recovery-IsConsistent none h = h
mark_recovery-IsConsistent (some row) h = record {
  episode = h.episode;
  apart = λ w. ground arith;
  frozen = λ w. ground arith;
}

-- In every state that checks and marks reach, with any counts, clock and failing statements: a drop
-- that was not delivered is under way, a recovery that waits for its delivery is not during a drop,
-- and its baseline, time and duration are there.
pub Reachable-IsConsistent :
    (limits : Limits) (row : Option AlertRow) → Reachable limits row → IsConsistent row
Reachable-IsConsistent limits _ unseen = record {
  episode = λ u. ground arith;
  apart = λ w. refl;
  frozen = λ w. ground arith;
}
Reachable-IsConsistent limits _ (tick db now current row r) =
    evaluate-IsConsistent db limits now current row (Reachable-IsConsistent limits row r)
Reachable-IsConsistent limits _ (told_drop row r) =
    mark_drop-IsConsistent row (Reachable-IsConsistent limits row r)
Reachable-IsConsistent limits _ (told_recovery row r) =
    mark_recovery-IsConsistent row (Reachable-IsConsistent limits row r)

-- In every state that checks and marks reach, a user has no recovery to report while a drop is to be
-- reported.
pub Reachable-pending :
    (limits : Limits) (current : Counts) (row : Option AlertRow)
    → Reachable limits row
    → pending_drop current row ≢ none
    → pending_recovery current row ≡ none
unfolding pending_recovery
Reachable-pending limits current none r some_drop = refl
Reachable-pending limits current (some row) r some_drop =
    let h : IsConsistent (some row) = Reachable-IsConsistent limits (some row) r in
    elim (Bool-cases row.recovery_pending) [
      | inl w ↦ absurd (some_drop (no_drop current row row.alerting_since (h.apart w)))
      | inr w ↦ rw w refl
    ]
  where
    no_drop :
        (current : Counts) (row : AlertRow) (since : Option ℕ)
        → is_some since ≡ false
        → drop_since current row since ≡ none
    no_drop current row none e = refl
    no_drop current row (some t) e = ground arith
