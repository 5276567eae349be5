-- ===== src/Alerts/Checker.antt =====
-- internal/alerts/alerts.go: the checks of the users, the goroutine that delivers their messages and
-- the queue between the two. The rows of the store are a function of the user. What the store, the
-- settings and the webhook answer are arguments, and the goroutine stops between any two of its
-- accesses to what is shared, so that a check may run there.
pub mod Exclusive
pub mod Queue
pub mod Messages
pub mod Payload
pub mod Offers
pub mod Runs
use wdbgp.Prelude.{
  List, false, ℕ, Bool, Option, ◌&&◌, [], ltb, ◌++◌, ◌==◌, some, if◌then◌else◌, ◌∷◌, none, ◌-◌,
  true, ◌||◌, leb, ◌*◌, ◌/◌,
}
use wdbgp.Alerts.State.{
  Counts, total, Duration, Transition, Event, dropped, recovered, AlertRow, Limits, Db, evaluate,
  pending_drop, pending_recovery, drop_still_pending, recovery_still_pending, mark_drop_delivered,
  mark_recovery_delivered,
}

abbrev pub Rows : Type 0
Rows = ℕ → Option AlertRow

abbrev pub update : ℕ → Option AlertRow → Rows → Rows
update user row rows u = if u == user then row else rows u

-- `delivery`.
pub record Delivery : Type 0 where
  pub user : ℕ
  pub transition : Transition

-- What a check of one user meets: the counts, or `none` for their error, the clock, and whether the
-- statements of the evaluation and of the two lookups succeed.
pub record Measurement : Type 0 where
  pub user : ℕ
  pub counted : Option Counts
  pub now : ℕ
  pub db : Db
  pub finds_drop : Bool
  pub finds_recovery : Bool

abbrev pub first_of : Option Transition → Option Transition → Option Transition
first_of none other = other
first_of (some t) other = some t

-- The message of a check: that of the evaluation, or one that was not delivered.
abbrev pub message_for :
    Bool → Measurement → Counts → Option (Option Transition) → Option AlertRow → Option Transition
message_for enabled m current none row = none
message_for enabled m current (some t) row =
    if enabled
    then (first_of t (
        if m.finds_drop
        then (first_of (pending_drop current row)
            (if m.finds_recovery then pending_recovery current row else none))
        else none))
    else none

-- One turn of the loop over the users.
abbrev pub measure_counts :
    Bool
    → Limits
    → Measurement
    → Option Counts
    → Option AlertRow
    → Option Transition × Option AlertRow
measure_counts enabled limits m none row = (none, row)
measure_counts enabled limits m (some current) row =
    let (t, row') = evaluate m.db limits m.now current row in
    (message_for enabled m current t row', row')

abbrev pub deliveries_of : ℕ → Option Transition → List Delivery → List Delivery
deliveries_of user none rest = rest
deliveries_of user (some t) rest = record { user = user; transition = t } ∷ rest

-- The loop: the messages in the order of the users, and the rows.
pub measure_all : Bool → Limits → List Measurement → Rows → List Delivery × Rows
measure_all enabled limits [] rows = ([], rows)
measure_all enabled limits (m ∷ ms) rows =
    let (t, row) = measure_counts enabled limits m m.counted (rows m.user) in
    let (rest, rows') = measure_all enabled limits ms (update m.user row rows) in
    (deliveries_of m.user t rest, rows')

-- What a delivering goroutine does next: read the webhook's address, try its messages one by one, or
-- mark the one that the webhook took.
pub data Phase : Type 0 where
  starting : List Delivery → Phase
  sending : List Delivery → Phase
  delivered : Delivery → List Delivery → Phase

-- `Checker` with the store's rows and the goroutines that run `deliverLoop`; `queued` is a map of the
-- users, here in the order of insertion.
pub record System : Type 0 where
  pub rows : Rows
  pub delivering : Bool
  pub queued : List Delivery
  pub loops : List Phase

-- `c.queued[d.user.ID] = d`.
pub put : Delivery → List Delivery → List Delivery
put d [] = d ∷ []
put d (q ∷ queue) = if q.user == d.user then d ∷ queue else q ∷ put d queue

pub put_all : List Delivery → List Delivery → List Delivery
put_all [] queue = queue
put_all (d ∷ ds) queue = put_all ds (put d queue)

-- The end of `Run`, under the lock.
pub hand_over : List Delivery → System → System
hand_over [] sys = sys
hand_over (d ∷ ds) sys =
    if sys.delivering
    then record sys { queued = put_all (d ∷ ds) sys.queued }
    else record sys { delivering = true; loops = starting (d ∷ ds) ∷ sys.loops }

-- `Run`; `none` is the error of the list of users.
pub run : Bool → Limits → Option (List Measurement) → System → System
unfolding measure_all hand_over
run enabled limits none sys = sys
run enabled limits (some ms) sys =
    let (ds, rows) = measure_all enabled limits ms sys.rows in
    hand_over ds (record sys { rows = rows })

-- The re-check before a message is posted; `none` is its error.
abbrev pub still_pending : Bool → Delivery → Rows → Bool
still_pending reads d rows =
    let row = rows d.user in
    let at = d.transition.detected_at in
    reads && elim d.transition.event [
      | dropped ↦ drop_still_pending at row
      | recovered duration ↦ recovery_still_pending at row
    ]

abbrev pub mark : Delivery → Rows → Rows
mark d rows =
    let row = rows d.user in
    update d.user
      (elim d.transition.event [
        | dropped ↦ mark_drop_delivered row
        | recovered duration ↦ mark_recovery_delivered row
      ])
      rows

-- What the goroutine meets: whether there is an address, whether the re-check and the mark succeed,
-- and whether the webhook takes the message.
pub record Answers : Type 0 where
  pub enabled : Bool
  pub reads : Bool
  pub posted : Bool
  pub writes : Bool

-- The end of a pass, under the lock: the goroutine ends, or takes the queue.
abbrev pub next_pass : List Delivery → System → List Phase × System
next_pass [] sys = ([], record sys { delivering = false })
next_pass (q ∷ queue) sys = (starting (q ∷ queue) ∷ [], record sys { queued = [] })

-- One step of `deliverLoop`: where the goroutine stands after it, and the system. It has no
-- successor when it returns.
pub advance : Answers → Phase → System → List Phase × System
advance a (starting batch) sys =
    if a.enabled
    then (sending batch ∷ [], sys)
    else ([], record sys { delivering = false; queued = [] })
advance a (sending []) sys = next_pass sys.queued sys
advance a (sending (d ∷ rest)) sys =
    if still_pending a.reads d sys.rows && a.posted
    then (delivered d rest ∷ [], sys)
    else (sending rest ∷ [], sys)
advance a (delivered d rest) sys =
    (sending rest ∷ [], if a.writes then record sys { rows = mark d sys.rows } else sys)

-- The state after `NewChecker`.
abbrev pub new_system : Rows → System
new_system rows = record { rows = rows; delivering = false; queued = []; loops = [] }

-- Checks, and steps of any goroutine that runs.
pub data Reachable (limits : Limits) : System → Type 0 where
  fresh : (rows : Rows) → Reachable limits (new_system rows)
  checked :
      (enabled : Bool) (ms : Option (List Measurement)) (sys : System)
      → Reachable limits sys
      → Reachable limits (run enabled limits ms sys)
  advanced :
      (a : Answers) (phase : Phase) (before after : List Phase) (sys : System)
      → Reachable limits (record sys { loops = before ++ phase ∷ after })
      → Reachable limits
          (record (advance a phase sys).1 { loops = before ++ (advance a phase sys).0 ++ after })

-- A percentage of a loss; more prefixes than before are a negative one.
pub data Percent : Type 0 where
  loss : ℕ → Percent
  gain : ℕ → Percent

-- `100 - share`.
abbrev pub hundred_less : ℕ → Percent
hundred_less share = if leb share 100 then loss (100 - share) else gain (share - 100)

-- `buildPayload`: the percentage of a drop's message, which is 0 for a recovery.
abbrev pub percent_for : Event → Counts → Counts → Percent
percent_for dropped baseline current =
    if ltb 0 (total baseline) then (hundred_less (total current * 100 / total baseline)) else loss 0
percent_for (recovered duration) baseline current = loss 0

abbrev pub drop_percent : Transition → Percent
drop_percent t = percent_for t.event t.baseline t.current

-- `isRetriableWebhookError` of a status; other errors are a parameter's matter.
pub is_retriable_status : ℕ → Bool
is_retriable_status code = code == 429 || leb 500 code

-- `deliver`'s test of a response.
abbrev pub is_accepted : ℕ → Bool
is_accepted code = ltb code 300
