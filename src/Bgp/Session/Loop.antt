-- ===== src/Bgp/Session/Loop.antt =====
-- What the remote side holds while a session runs.
use wdbgp.Prelude.{
  ◌≡◌, Bool-cases, Option, none, ◌==◌, inl, inr, arith, false, true, List, if◌then◌else◌, some,
  Option-cases, if_false, [], subst, sym, if_true, ap, ℕ, refl, Bool, ◌∙◌,
}
use wdbgp.Bgp.Wire.Types.{
  OpenMessage, UpdateMessage, open_message, update, keepalive, notification, route_refresh,
}
use wdbgp.Bgp.Resync.{Peer, Conn, resync_routes, reset_sent}
use wdbgp.Bgp.Resync.Table.{Table, receive_all}
use wdbgp.Bgp.Resync.Held.{IsInSync, resync_routes-IsInSync}
use wdbgp.Bgp.Session.{
  SpeakerConfig, ReadResult, got, timed_out, end_of_file, broken, SessionEnd, stopped, route_update,
  initial_routes, idle, Ran, unless_over, Session, Turn, handle_read, loop_turn, main_loop,
  set_idle, run_session, set_state, established, with_caps, handshake_active, handshake_passive,
  run_active, run_passive, ◌∷◌,
}
use wdbgp.Bgp.Session.Ended.{IsDown, run_active-IsDown}

-- The peer knows what the remote side holds.
abbrev pub Tracks : Table → Ran → Type 0
Tracks table x = IsInSync x.1.peer (receive_all x.2.sent table)

handle_read-IsInSync :
    (read : ReadResult) (s : Session) (held : Table)
    → IsInSync s.peer held
    → IsInSync (handle_read read s).1.peer held
unfolding handle_read
handle_read-IsInSync timed_out s held h = h
handle_read-IsInSync end_of_file s held h = h
handle_read-IsInSync broken s held h = h
handle_read-IsInSync (got keepalive) s held h = h
handle_read-IsInSync (got (update u)) s held h = h
handle_read-IsInSync (got (notification n)) s held h = h
handle_read-IsInSync (got (route_refresh r)) s held h = elim (Bool-cases (r.subtype == 0)) [
  | inl e ↦ rw e (record { held = h.held; taken = h.taken })
  | inr e ↦ rw e h
]
handle_read-IsInSync (got (open_message o)) s held h = h

loop_turn-Tracks :
    (turn : Turn) (s : Session) (c : Conn) (table : Table)
    → IsInSync s.peer (receive_all c.sent table)
    → (loop_turn turn s c).0 ≡ none
    → Tracks table (loop_turn turn s c)
loop_turn-Tracks turn s c table h run = elim (Bool-cases turn.stopping) [
  | inl e ↦ absurd (ground (arith, run, e))
  | inr e ↦
      let peer : Peer = record s.peer { needs_update = false } in
      let sent : Ran = (
        if (resync_routes peer c).0 then none else some route_update,
        record s { peer = (resync_routes peer c).1 },
        (resync_routes peer c).2,
      ) in
      let was_read : Ran = ((handle_read turn.read s).0, (handle_read turn.read s).1, c) in
      let going : loop_turn turn s c ≡ (if s.peer.needs_update then sent else was_read) =
        if_false (some stopped, s, c) (if s.peer.needs_update then sent else was_read) e in
      subst (Tracks table) (sym going) (elim (Bool-cases s.peer.needs_update) [
        | inr calm ↦
            subst (Tracks table) (sym (if_false sent was_read calm))
              (handle_read-IsInSync turn.read s (receive_all c.sent table) h)
        | inl due ↦
            let done : (resync_routes peer c).0 ≡ true = ground (arith, run, e, due) in
            subst (Tracks table) (sym (if_true sent was_read due))
              (resync_routes-IsInSync peer c table (record { held = h.held; taken = h.taken })
                done).0
      ])
]

main_loop-Tracks :
    (turns : List Turn) (s : Session) (c : Conn) (table : Table)
    → IsInSync s.peer (receive_all c.sent table)
    → (main_loop turns s c).0 ≡ none
    → Tracks table (main_loop turns s c)
unfolding main_loop
main_loop-Tracks [] s c table h run = h
main_loop-Tracks (turn ∷ turns) s c table h run = elim (Option-cases (loop_turn turn s c).0) [
  | inl on ↦
      let step = loop_turn turn s c in
      let next : Ran = main_loop turns step.1 step.2 in
      let go : unless_over step.0 step next ≡ next = ap (λ o. unless_over o step next) on in
      subst (Tracks table) (sym go) (
        main_loop-Tracks turns step.1 step.2 table (loop_turn-Tracks turn s c table h on)
          (ap (λ (x : Ran). x.0) (sym go) ∙ run))
  | inr (reason, over) ↦ absurd (ground (arith, run, over))
]

-- The remote side of a new session holds nothing.
abbrev pub nothing : Table
nothing p = false

set_idle-running : (x : Ran) → (set_idle x).0 ≡ none → (x.0 ≡ none) × (set_idle x ≡ x)
set_idle-running (none, s, c) h = (refl, refl)
set_idle-running (some reason, s, c) h = absurd (ground (arith, h))

run_session-Tracks :
    (turns : List Turn) (s : Session) (c : Conn)
    → c.sent ≡ []
    → (run_session turns s c).0 ≡ none
    → Tracks nothing (run_session turns s c)
run_session-Tracks turns s c new run = elim (Bool-cases (resync_routes (reset_sent s.peer) c).0) [
  | inr failed ↦ absurd (ground (arith, run, failed))
  | inl done ↦
      let (sync, exact) =
        resync_routes-IsInSync (reset_sent s.peer) c nothing
          (record {
            held = λ p. ap (λ (us : List UpdateMessage). receive_all us nothing p) new;
            taken = λ p e. absurd (ground (arith, e));
          })
          done in
      let s' : Session = record s { peer = (resync_routes (reset_sent s.peer) c).1 } in
      let c' : Conn = (resync_routes (reset_sent s.peer) c).2 in
      let looped : Ran = main_loop turns s' c' in
      let going : run_session turns s c ≡ set_idle looped =
        if_true (set_idle looped) (some initial_routes, set_state idle s', c') done in
      let (on, same) = set_idle-running looped (ap (λ (x : Ran). x.0) (sym going) ∙ run) in
      subst (Tracks nothing) (sym (going ∙ same)) (main_loop-Tracks turns s' c' nothing sync on)
]

after_handshake :
    (over : Option SessionEnd) (stop next : Ran)
    → stop.0 ≡ over
    → (unless_over over stop next).0 ≡ none
    → (next.0 ≡ none → Tracks nothing next)
    → Tracks nothing (unless_over over stop next)
after_handshake none stop next e run h = h run
after_handshake (some reason) stop next e run h = absurd (ground (arith, e, run))

-- While a session of the active side runs, the peer knows what the remote side holds.
running_active-Tracks :
    (spk : SpeakerConfig) (asn : ℕ) (writes_open writes : Bool) (first second : ReadResult)
    (turns : List Turn) (s : Session) (c : Conn)
    → c.sent ≡ []
    → (run_active spk asn writes_open writes first second turns s c).0 ≡ none
    → Tracks nothing (run_active spk asn writes_open writes first second turns s c)
unfolding run_active
running_active-Tracks spk asn writes_open writes first second turns s c new run =
    let (over, s') = handshake_active spk asn writes_open writes first second s in
    after_handshake over (over, s', c) (run_session turns (set_state established s') c) refl run
      (run_session-Tracks turns (set_state established s') c new)

-- While a session of the passive side runs, the peer knows what the remote side holds.
pub run_passive-Tracks :
    (spk : SpeakerConfig) (asn : ℕ) (writes_open writes : Bool) (o : OpenMessage)
    (read : ReadResult) (turns : List Turn) (s : Session) (c : Conn)
    → c.sent ≡ []
    → (run_passive spk asn writes_open writes o read turns s c).0 ≡ none
    → Tracks nothing (run_passive spk asn writes_open writes o read turns s c)
unfolding run_passive
run_passive-Tracks spk asn writes_open writes o read turns s c new run =
    let (over, s') = handshake_passive spk asn writes_open writes o read s in
    after_handshake over (over, s', c)
      (run_session turns (with_caps o (set_state established s')) c) refl run
      (run_session-Tracks turns (with_caps o (set_state established s')) c new)

-- A session that runs knows what the remote side holds; one that has ended writes no routes, since
-- its peer is not established.
abbrev pub TracksOrDown : Ran → Type 0
TracksOrDown (none, s, c) = IsInSync s.peer (receive_all c.sent nothing)
TracksOrDown (some reason, s, c) = s.peer.established ≡ false

tracks_or_down : (x : Ran) → (x.0 ≡ none → Tracks nothing x) → IsDown x → TracksOrDown x
tracks_or_down (none, s, c) h down = h refl
tracks_or_down (some reason, s, c) h down = down

-- After a session of the active side that started in any state of its peer, on a new connection, with
-- any results of its reads and writes, any turns of its main loop and no other call of the peer in
-- between: if the session still runs, `lastSent` is exactly what the remote side holds; if it has
-- ended, by a stop, a failing read or a failing write, the peer is not established.
pub run_active-Tracks :
    (spk : SpeakerConfig) (asn : ℕ) (writes_open writes : Bool) (first second : ReadResult)
    (turns : List Turn) (s : Session) (c : Conn)
    → c.sent ≡ []
    → TracksOrDown (run_active spk asn writes_open writes first second turns s c)
run_active-Tracks spk asn writes_open writes first second turns s c new =
    tracks_or_down (run_active spk asn writes_open writes first second turns s c)
      (running_active-Tracks spk asn writes_open writes first second turns s c new)
      (run_active-IsDown spk asn writes_open writes first second turns s c)
