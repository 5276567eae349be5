-- ===== src/Bgp/Session.antt =====
-- internal/bgp/peer_fsm.go: the handshake of a session, from the active and from the passive side, and
-- its main loop. What the connection reads is a list of results, and whether the writes of the
-- handshake succeed is an argument; the writes of UPDATE messages are those of the routes.
pub mod Handshake
pub mod Ended
pub mod Loop
pub mod Runs
use wdbgp.Prelude.{
  ℕ, Bool, true, List, Option, ◌++◌, ◌∷◌, [], some, none, if◌then◌else◌, ◌==◌, false, ltb, ◌||◌,
  not,
}
use wdbgp.Netip.{Prefix}
use wdbgp.Bgp.Wire.Types.{
  OpenMessage, UpdateMessage, NotificationMessage, Message, open_message, update, keepalive,
  notification, route_refresh, mp_reach_nlri, PathAttribute,
}
use wdbgp.Bgp.Resync.{Peer, Conn, resync_routes, reset_sent}

-- The states, of `StateIdle` and so on.
pub data FsmState : Type 0 where
  idle connect open_sent open_confirm established : FsmState

-- The part of `SpeakerConfig` that a session uses.
pub record SpeakerConfig : Type 0 where
  pub asn : ℕ
  pub hold_time : ℕ
  pub router_id : ℕ

-- What `ReadMessage` gives: a message, or an error by its kind.
pub data ReadResult : Type 0 where
  got : Message → ReadResult
  timed_out end_of_file broken : ReadResult

-- How a session ends, one constructor for each error, and `stopped` for none.
pub data SessionEnd : Type 0 where
  stopped write_open read_open expected_open asn_mismatch write_keepalive read_keepalive :
      SessionEnd
  received_notification expected_keepalive initial_routes route_update hold_expired : SessionEnd
  closed read_failed : SessionEnd

-- A peer in a session, with the messages written other than UPDATE and the prefixes of the UPDATE
-- messages, which go to
-- the route callback if there is one.
pub record Session : Type 0 where
  pub peer : Peer
  pub state : FsmState
  pub hold_time : ℕ
  pub written : List Message
  pub called : List (List Prefix)

-- `setState`; routes are sent in the established state only.
abbrev pub set_state : FsmState → Session → Session
set_state state s = record s {
  state = state;
  peer = record s.peer { established = elim state [ established ↦ true | _ ↦ false ] };
}

abbrev pub written_also : Message → Session → Session
written_also m s = record s { written = s.written ++ m ∷ [] }

-- `sendNotification`, whose error is ignored.
abbrev pub send_notification : ℕ → ℕ → Session → Session
send_notification code subcode s =
    written_also
      (notification (record { error_code = code; error_subcode = subcode; content = [] })) s

abbrev pub local_hold : SpeakerConfig → ℕ
local_hold spk = if spk.hold_time == 0 then 90 else spk.hold_time

-- The hold time of a session in seconds, 0 for none.
abbrev pub negotiated : ℕ → ℕ → ℕ
negotiated local remote = if remote == 0 then 0 else if ltb remote local then remote else local

abbrev pub remote_asn : OpenMessage → ℕ
remote_asn o = if o.my_asn32 == 0 then o.my_asn else o.my_asn32

-- The active side also takes the number of two bytes.
abbrev pub accepts_active : ℕ → OpenMessage → Bool
accepts_active asn o = o.my_asn == asn || remote_asn o == asn

abbrev pub accepts_passive : ℕ → OpenMessage → Bool
accepts_passive asn o = remote_asn o == asn

abbrev pub our_open : SpeakerConfig → ℕ → OpenMessage
our_open spk hold = record {
  version = 4;
  my_asn = 0;
  my_asn32 = spk.asn;
  hold_time = hold;
  bgp_id = spk.router_id;
  opt_parm_len = 0;
  has_ipv6_unicast = false;
  has_as4_cap = false;
}

-- The hold time that the passive side puts into its OPEN.
abbrev pub passive_hold : ℕ → ℕ → ℕ
passive_hold local remote =
    if remote == 0 then local else if ltb remote local then remote else local

abbrev pub with_caps : OpenMessage → Session → Session
with_caps o s = record s {
  peer = record s.peer { has_ipv6_cap = o.has_ipv6_unicast; has_as4_cap = o.has_as4_cap };
}

abbrev pub with_hold : ℕ → Session → Session
with_hold hold s = record s { hold_time = hold }

-- A turn of the main loop: whether the peer was stopped before it, and what it reads if it reads.
pub record Turn : Type 0 where
  pub stopping : Bool
  pub read : ReadResult

abbrev pub reached_by : List PathAttribute → List Prefix
reached_by [] = []
reached_by (mp_reach_nlri next_hop nlri ∷ attributes) = nlri ++ reached_by attributes
reached_by (_ ∷ attributes) = reached_by attributes

-- The end of a turn that has read: how the session ends, if it does.
pub handle_read : ReadResult → Session → Option SessionEnd × Session
handle_read timed_out s = (some hold_expired, send_notification 4 0 s)
handle_read end_of_file s = (some closed, s)
handle_read broken s = (some read_failed, s)
handle_read (got keepalive) s = (none, s)
handle_read (got (update u)) s =
    (none, record s { called = s.called ++ (u.nlri ++ reached_by u.path_attributes) ∷ [] })
handle_read (got (notification n)) s = (some received_notification, s)
handle_read (got (route_refresh r)) s =
    if r.subtype == 0
    then (none, record s { peer = record s.peer { needs_update = true } })
    else (none, s)
handle_read (got (open_message o)) s = (none, s)

-- A session with its connection, and how it ended, if it did.
abbrev pub Ran : Type 0
Ran = Option SessionEnd × Session × Conn

-- One turn of `mainLoop`.
abbrev pub loop_turn : Turn → Session → Conn → Ran
loop_turn turn s c =
    let (done, peer, c') = resync_routes (record s.peer { needs_update = false }) c in
    let (over, s') = handle_read turn.read s in
    if turn.stopping
    then (some stopped, s, c)
    else if s.peer.needs_update
    then (if done then none else some route_update, record s { peer = peer }, c')
    else (over, s', c)

-- What comes next if a step has not ended the session.
abbrev pub unless_over : Option SessionEnd → Ran → Ran → Ran
unless_over none over next = next
unless_over (some reason) over next = over

-- `mainLoop` for as many turns as are given; `none` says that it still runs.
pub main_loop : List Turn → Session → Conn → Ran
unfolding handle_read
main_loop [] s c = (none, s, c)
main_loop (turn ∷ turns) s c =
    let step = loop_turn turn s c in
    let rest = main_loop turns step.1 step.2 in unless_over step.0 step rest

abbrev pub set_idle : Ran → Ran
set_idle x = unless_over x.0 (x.0, set_state idle x.1, x.2) x

-- From the established state on: the initial routes, then the main loop.
abbrev pub run_session : List Turn → Session → Conn → Ran
run_session turns s c =
    let (done, peer, c') = resync_routes (reset_sent s.peer) c in
    let s' : Session = record s { peer = peer } in
    let rest = main_loop turns s' c' in
    if done then set_idle rest else (some initial_routes, set_state idle s', c')

-- Step 4 of both sides: the KEEPALIVE of the remote side.
abbrev pub check_keepalive : ReadResult → Session → Option SessionEnd × Session
check_keepalive (got keepalive) s = (none, s)
check_keepalive (got (notification n)) s = (some received_notification, s)
check_keepalive (got _) s = (some expected_keepalive, send_notification 5 0 s)
check_keepalive _ s = (some read_keepalive, s)

-- Steps 3 and 4 of `connectAndRun`, with the OPEN of the remote side.
pub confirm_active :
    SpeakerConfig → Bool → OpenMessage → ReadResult → Session → Option SessionEnd × Session
confirm_active spk writes o read s =
    let s' : Session = with_caps o (with_hold (negotiated (local_hold spk) o.hold_time) s) in
    if writes
    then (check_keepalive read (set_state open_confirm (written_also keepalive s')))
    else (some write_keepalive, s')

-- Step 2 of `connectAndRun`.
pub open_active :
    SpeakerConfig → ℕ → Bool → ReadResult → ReadResult → Session → Option SessionEnd × Session
unfolding confirm_active
open_active spk asn writes (got (open_message o)) read s =
    if accepts_active asn o
    then (confirm_active spk writes o read s)
    else (some asn_mismatch, send_notification 2 2 s)
open_active spk asn writes (got _) read s = (some expected_open, send_notification 2 4 s)
open_active spk asn writes _ read s = (some read_open, s)

-- `connectAndRun` once the connection is there, up to the established state.
pub handshake_active :
    SpeakerConfig
    → ℕ
    → Bool
    → Bool
    → ReadResult
    → ReadResult
    → Session
    → Option SessionEnd × Session
unfolding open_active
handshake_active spk asn writes_open writes first second s =
    let s' : Session = set_state connect s in
    let opened = written_also (open_message (our_open spk (local_hold spk))) s' in
    if writes_open
    then (open_active spk asn writes first second (set_state open_sent opened))
    else (some write_open, s')

-- `AcceptWithOpen` up to the established state, with the OPEN that was read.
pub handshake_passive :
    SpeakerConfig
    → ℕ
    → Bool
    → Bool
    → OpenMessage
    → ReadResult
    → Session
    → Option SessionEnd × Session
handshake_passive spk asn writes_open writes o read s =
    let local = local_hold spk in
    let held : Session = with_hold (negotiated local o.hold_time) s in
    let opened : Session =
      set_state open_sent
        (written_also (open_message (our_open spk (passive_hold local o.hold_time))) held) in
    if not (accepts_passive asn o)
    then (some asn_mismatch, send_notification 2 2 s)
    else if not writes_open
    then (some write_open, held)
    else if writes
    then (check_keepalive read (set_state open_confirm (written_also keepalive opened)))
    else (some write_keepalive, opened)

-- `connectAndRun` once the connection is there.
pub run_active :
    SpeakerConfig → ℕ → Bool → Bool → ReadResult → ReadResult → List Turn → Session → Conn → Ran
unfolding handshake_active main_loop
run_active spk asn writes_open writes first second turns s c =
    let (over, s') = handshake_active spk asn writes_open writes first second s in
    unless_over over (over, s', c) (run_session turns (set_state established s') c)

-- `AcceptWithOpen`: the abilities of the remote side are set in the established state.
pub run_passive :
    SpeakerConfig → ℕ → Bool → Bool → OpenMessage → ReadResult → List Turn → Session → Conn → Ran
unfolding handshake_passive main_loop
run_passive spk asn writes_open writes o read turns s c =
    let (over, s') = handshake_passive spk asn writes_open writes o read s in
    unless_over over (over, s', c) (run_session turns (with_caps o (set_state established s')) c)
