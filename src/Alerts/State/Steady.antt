-- ===== src/Alerts/State/Steady.antt =====
-- Counts that stay the same report nothing again: a count on the line of a drop does not flap.
use wdbgp.Prelude.{
  Option, ◌≤◌, true, ◌≡◌, List, false, ℕ, Bool, ◌*◌, ◌==◌, some, ◌∷◌, none, [], ◌-◌, leb, refl,
  arith, Bool-cases, ◌∙◌, inl, ltb, inr, ap,
}
use native.Mathlib.Nat.{mul-le-mul_left}
use wdbgp.Alerts.State.{
  Counts, total, Transition, AlertRow, Limits, Db, decide_since, decide_normal, decide_recovery,
  drop_line, evaluate, store_row, is_drop,
}

abbrev pub working : Db
working = record { reads = true; writes = true }

-- Checks at these times that measure the same counts.
abbrev pub check_at : Limits → Counts → List ℕ → Option AlertRow → Option AlertRow
check_at limits current [] row = row
check_at limits current (now ∷ times) row =
    check_at limits current times (evaluate working limits now current row).1

pub record IsPercent (limits : Limits) : Type 0 where
  pub least : 1 ≤ limits.drop_threshold_percent
  pub most : limits.drop_threshold_percent ≤ 99

-- A normal row tracks the counts, and that of a drop has not recovered.
abbrev is_settled_since : Limits → Counts → Counts → Option ℕ → Bool
is_settled_since limits current baseline none = total baseline == total current
is_settled_since limits current baseline (some since) =
    leb (total current) (drop_line limits baseline)

abbrev is_settled : Limits → Counts → Option AlertRow → Bool
is_settled limits current none = false
is_settled limits current (some row) =
    is_settled_since limits current row.baseline row.alerting_since

-- Nothing drops to itself.
no_drop-same :
    (limits : Limits) (baseline current : Counts)
    → IsPercent limits
    → total baseline ≡ total current
    → is_drop limits baseline current ≡ false
no_drop-same limits baseline current p e =
    let product : total baseline * (100 - limits.drop_threshold_percent) ≤ total baseline * 99 =
      mul-le-mul_left (total baseline) (omega (arith, p.least)) in
    ground (arith, product, e)

settles :
    (limits : Limits) (now : ℕ) (current : Counts) (row : AlertRow) (since : Option ℕ)
    → row.alerting_since ≡ since
    → is_settled limits current
        (store_row working
          (some row)
          (decide_since limits now current row since).0
          (decide_since limits now current row since).1).1
      ≡ true
unfolding decide_since decide_normal decide_recovery
settles limits now current row none e = elim (Bool-cases (is_drop limits row.baseline current)) [
  | inl drop ↦ rw drop (ground arith)
  | inr calm ↦ rw (calm, e) (ground arith)
]
settles limits now current row (some since) e =
    elim (Bool-cases (ltb (drop_line limits row.baseline) (total current))) [
      | inl up ↦ elim (Bool-cases row.drop_delivered) [
        | inl told ↦ rw (up, told) (ground arith)
        | inr untold ↦ rw (up, untold) (ground arith)
      ]
      | inr down ↦ rw (down, e) (ground arith)
    ]

evaluate-settles :
    (limits : Limits) (now : ℕ) (current : Counts) (row : Option AlertRow)
    → is_settled limits current (evaluate working limits now current row).1 ≡ true
unfolding evaluate
evaluate-settles limits now current none = ground arith
evaluate-settles limits now current (some row) =
    settles limits now current row row.alerting_since refl

settled-quiet :
    (limits : Limits) (now : ℕ) (current : Counts) (row : AlertRow) (since : Option ℕ)
    → IsPercent limits
    → is_settled_since limits current row.baseline since ≡ true
    → (decide_since limits now current row since).0 ≡ none
unfolding decide_since decide_normal
settled-quiet limits now current row none p h =
    rw (no_drop-same limits row.baseline current p (ground (arith, h))) refl
settled-quiet limits now current row (some since) p h =
    let down : ltb (drop_line limits row.baseline) (total current) ≡ false = ground (arith, h) in
    rw down refl

store_row-working :
    (old row : Option AlertRow) (t : Option Transition) → (store_row working old t row).0 ≡ some t
store_row-working old none t = refl
store_row-working old (some row) t = refl

evaluate-quiet :
    (limits : Limits) (now : ℕ) (current : Counts) (row : Option AlertRow)
    → IsPercent limits
    → is_settled limits current row ≡ true
    → (evaluate working limits now current row).0 ≡ some none
unfolding evaluate
evaluate-quiet limits now current none p h = ground (arith, h)
evaluate-quiet limits now current (some row) p h =
    store_row-working (some row) (decide_since limits now current row row.alerting_since).1
      (decide_since limits now current row row.alerting_since).0
    ∙ ap some (settled-quiet limits now current row row.alerting_since p h)

check_at-settled :
    (limits : Limits) (current : Counts) (times : List ℕ) (row : Option AlertRow)
    → is_settled limits current row ≡ true
    → is_settled limits current (check_at limits current times row) ≡ true
check_at-settled limits current [] row h = h
check_at-settled limits current (now ∷ times) row h =
    check_at-settled limits current times (evaluate working limits now current row).1
      (evaluate-settles limits now current row)

-- With a threshold of one to 99 percent, checks that measure the same counts as the one before them
-- report neither a drop nor a recovery, in whatever state the first one found the user, when the
-- statements do not fail.
pub check_at-quiet :
    (limits : Limits) (current : Counts) (first : ℕ) (times : List ℕ) (now : ℕ)
    (row : Option AlertRow)
    → IsPercent limits
    → (evaluate working limits now current
        (check_at limits current times (evaluate working limits first current row).1)).0
      ≡ some none
check_at-quiet limits current first times now row p =
    evaluate-quiet limits now current
      (check_at limits current times (evaluate working limits first current row).1) p
      (check_at-settled limits current times (evaluate working limits first current row).1
        (evaluate-settles limits first current row))
