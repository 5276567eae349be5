-- ===== src/Alerts/Checker/Messages.antt =====
-- The messages of a check reach the delivering goroutine, and a message is posted for a drop or a
-- recovery that is under way.
use wdbgp.Prelude.{
  List, ℕ, ◌≡◌, Bool, Option, false, true, none, ◌==◌, not, some, ◌||◌, [], ◌&&◌, arith, refl, ◌∙◌,
  if_false, ◌++◌, if_true, ap, if◌then◌else◌, Bool-cases, inl, inr,
}
use wdbgp.Alerts.State.{Limits, Transition}
use wdbgp.Alerts.Checker.{
  Delivery, starting, System, hand_over, run, measure_all, measure_counts, deliveries_of, update,
  Measurement, Rows, ◌∷◌, Phase,
}
use wdbgp.Alerts.Checker.Exclusive.{has_user, is_unique}
use wdbgp.Alerts.Checker.Queue.{find_user, find_user-put_all, find-has}

-- The users of a check are different.
abbrev pub asks_user : ℕ → List Measurement → Bool
asks_user user [] = false
asks_user user (m ∷ ms) = (m.user == user) || asks_user user ms

abbrev pub are_distinct : List Measurement → Bool
are_distinct [] = true
are_distinct (m ∷ ms) = not (asks_user m.user ms) && are_distinct ms

has_user-deliveries_of :
    (user other : ℕ) (t : Option Transition) (ds : List Delivery)
    → (other == user) ≡ false
    → has_user user (deliveries_of other t ds) ≡ has_user user ds
has_user-deliveries_of user other none ds h = refl
has_user-deliveries_of user other (some t) ds h = rw h refl

find_user-deliveries_of :
    (user other : ℕ) (t : Option Transition) (ds : List Delivery)
    → (other == user) ≡ false
    → find_user user (deliveries_of other t ds) ≡ find_user user ds
find_user-deliveries_of user other none ds h = refl
find_user-deliveries_of user other (some t) ds h = rw h refl

measure_all-untouched :
    (enabled : Bool) (limits : Limits) (user : ℕ) (ms : List Measurement) (rows : Rows)
    → asks_user user ms ≡ false
    → (has_user user (measure_all enabled limits ms rows).0 ≡ false)
      × ((find_user user (measure_all enabled limits ms rows).0 ≡ none)
          × ((measure_all enabled limits ms rows).1 user ≡ rows user))
unfolding measure_all
measure_all-untouched enabled limits user [] rows h = (refl, (refl, refl))
measure_all-untouched enabled limits user (m ∷ ms) rows h =
    let other : (m.user == user) ≡ false = ground (arith, h) in
    let apart : (user == m.user) ≡ false = ground (arith, other) in
    let found = measure_counts enabled limits m m.counted (rows m.user) in
    let rows' : Rows = update m.user found.1 rows in
    let (has, (find, row)) =
      measure_all-untouched enabled limits user ms rows' (ground (arith, h)) in
    let rest = (measure_all enabled limits ms rows').0 in
    (
      has_user-deliveries_of user m.user found.0 rest other ∙ has,
      (
        find_user-deliveries_of user m.user found.0 rest other ∙ find,
        row ∙ if_false found.1 (rows user) apart,
      ),
    )

measure_all-is_unique :
    (enabled : Bool) (limits : Limits) (ms : List Measurement) (rows : Rows)
    → are_distinct ms ≡ true
    → is_unique (measure_all enabled limits ms rows).0 ≡ true
unfolding measure_all
measure_all-is_unique enabled limits [] rows h = refl
measure_all-is_unique enabled limits (m ∷ ms) rows h =
    let found = measure_counts enabled limits m m.counted (rows m.user) in
    let rows' : Rows = update m.user found.1 rows in
    let (has, rest) = measure_all-untouched enabled limits m.user ms rows' (ground (arith, h)) in
    unique found.0 m.user (measure_all enabled limits ms rows').0 has
      (measure_all-is_unique enabled limits ms rows' (ground (arith, h)))
  where
    unique :
        (t : Option Transition) (user : ℕ) (ds : List Delivery)
        → has_user user ds ≡ false
        → is_unique ds ≡ true
        → is_unique (deliveries_of user t ds) ≡ true
    unique none user ds has h = h
    unique (some t) user ds has h = rw has h

asks_user-append :
    (user : ℕ) (before : List Measurement) (m : Measurement) (after : List Measurement)
    → asks_user user (before ++ m ∷ after) ≡ false
    → (m.user == user) ≡ false
asks_user-append user [] m after h = ground (arith, h)
asks_user-append user (b ∷ before) m after h =
    asks_user-append user before m after (ground (arith, h))

abbrev pub message_of : ℕ → Option Transition → Option Delivery
message_of user none = none
message_of user (some t) = some (record { user = user; transition = t })

find_user-first :
    (user : ℕ) (t : Option Transition) (ds : List Delivery)
    → find_user user ds ≡ none
    → find_user user (deliveries_of user t ds) ≡ message_of user t
find_user-first user none ds h = h
find_user-first user (some t) ds h = let same : (user == user) ≡ true = ground arith in rw same refl

-- In a check of different users, each one gets the row and the message of a check of that user
-- alone, whatever the measurements and the statements of the users before and after it do.
pub measure_all-independent :
    (enabled : Bool) (limits : Limits) (before : List Measurement) (m : Measurement)
    (after : List Measurement) (rows : Rows)
    → are_distinct (before ++ m ∷ after) ≡ true
    → ((measure_all enabled limits (before ++ m ∷ after) rows).1 m.user
        ≡ (measure_counts enabled limits m m.counted (rows m.user)).1)
      × (find_user m.user (measure_all enabled limits (before ++ m ∷ after) rows).0
          ≡ message_of m.user (measure_counts enabled limits m m.counted (rows m.user)).0)
unfolding measure_all
measure_all-independent enabled limits [] m after rows h =
    let found = measure_counts enabled limits m m.counted (rows m.user) in
    let rows' : Rows = update m.user found.1 rows in
    let (has, (find, row)) =
      measure_all-untouched enabled limits m.user after rows' (ground (arith, h)) in
    let same : (m.user == m.user) ≡ true = ground arith in
    (
      row ∙ if_true found.1 (rows m.user) same,
      find_user-first m.user found.0 (measure_all enabled limits after rows').0 find,
    )
measure_all-independent enabled limits (b ∷ before) m after rows h =
    let found = measure_counts enabled limits b b.counted (rows b.user) in
    let rows' : Rows = update b.user found.1 rows in
    let rest = measure_all enabled limits (before ++ m ∷ after) rows' in
    let other : (m.user == b.user) ≡ false =
      asks_user-append b.user before m after (ground (arith, h)) in
    let apart : (b.user == m.user) ≡ false = ground (arith, other) in
    let own : rows' m.user ≡ rows m.user = if_false found.1 (rows m.user) other in
    let (row, message) =
      measure_all-independent enabled limits before m after rows' (ground (arith, h)) in
    (
      row ∙ ap (λ r. (measure_counts enabled limits m m.counted r).1) own,
      find_user-deliveries_of m.user b.user found.0 rest.0 apart
          ∙ message
          ∙ ap (λ r. message_of m.user (measure_counts enabled limits m m.counted r).0) own,
    )

hand_over-busy :
    (user : ℕ) (d : Delivery) (ds : List Delivery) (sys : System)
    → is_unique ds ≡ true
    → find_user user ds ≡ some d
    → sys.delivering ≡ true
    → find_user user (hand_over ds sys).queued ≡ some d
unfolding hand_over
hand_over-busy user d [] sys u h b = absurd (ground (arith, h))
hand_over-busy user d (q ∷ ds) sys u h b = rw b (
    find_user-put_all user (q ∷ ds) sys.queued u
    ∙ if_true (find_user user (q ∷ ds)) (find_user user sys.queued) (find-has user d (q ∷ ds) h)
    ∙ h)

hand_over-idle :
    (user : ℕ) (d : Delivery) (ds : List Delivery) (sys : System)
    → find_user user ds ≡ some d
    → sys.delivering ≡ false
    → (hand_over ds sys).loops ≡ starting ds ∷ sys.loops
unfolding hand_over
hand_over-idle user d [] sys h b = absurd (ground (arith, h))
hand_over-idle user d (q ∷ ds) sys h b = rw b refl

-- The message of a user in the batch that was started last.
abbrev pub find_started : ℕ → List Phase → Option Delivery
find_started user (starting batch ∷ loops) = find_user user batch
find_started user _ = none

-- Where the message of a user is after a check: in the queue if a goroutine was delivering, and else
-- in the batch of a new one.
abbrev pub handed_over : ℕ → Bool → System → Option Delivery
handed_over user busy sys = if busy then find_user user sys.queued else find_started user sys.loops

-- A message that a check of different users finds is not lost: it is the one of its user in the
-- queue if a goroutine delivers at that time, whatever was queued before, and if none does it is in
-- the batch of a goroutine that the check starts.
pub run-keeps :
    (enabled : Bool) (limits : Limits) (ms : List Measurement) (sys : System) (d : Delivery)
    → are_distinct ms ≡ true
    → find_user d.user (measure_all enabled limits ms sys.rows).0 ≡ some d
    → handed_over d.user sys.delivering (run enabled limits (some ms) sys) ≡ some d
unfolding run
run-keeps enabled limits ms sys d h found =
    let ds : List Delivery = (measure_all enabled limits ms sys.rows).0 in
    let measured : System = record sys { rows = (measure_all enabled limits ms sys.rows).1 } in
    let after : System = hand_over ds measured in
    elim (Bool-cases sys.delivering) [
      | inl busy ↦
          if_true (find_user d.user after.queued) (find_started d.user after.loops) busy
          ∙ hand_over-busy d.user d ds measured (measure_all-is_unique enabled limits ms sys.rows h)
              found busy
      | inr idle ↦
          if_false (find_user d.user after.queued) (find_started d.user after.loops) idle
          ∙ ap (find_started d.user) (hand_over-idle d.user d ds measured found idle)
          ∙ found
    ]
