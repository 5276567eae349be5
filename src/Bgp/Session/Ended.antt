-- ===== src/Bgp/Session/Ended.antt =====
-- A session of the active side that has ended leaves its peer not established.
use wdbgp.Prelude.{
  ◌≡◌, Bool-cases, Option, none, some, inl, inr, false, true, List, if_false, if_true, subst, sym,
  ap, ℕ, refl, Bool,
}
use wdbgp.Bgp.Wire.Types.{OpenMessage, open_message, update, keepalive, notification, route_refresh}
use wdbgp.Bgp.Resync.{Peer, Conn, resync_routes, reset_sent}
use wdbgp.Bgp.Session.{
  SpeakerConfig, ReadResult, got, timed_out, end_of_file, broken, SessionEnd, initial_routes, idle,
  Ran, unless_over, Session, Turn, main_loop, set_idle, run_session, set_state, established,
  check_keepalive, confirm_active, open_active, accepts_active, handshake_active, run_active,
}

check_keepalive-peer : (read : ReadResult) (s : Session) → (check_keepalive read s).1.peer ≡ s.peer
check_keepalive-peer (got keepalive) s = refl
check_keepalive-peer (got (open_message o)) s = refl
check_keepalive-peer (got (update u)) s = refl
check_keepalive-peer (got (notification n)) s = refl
check_keepalive-peer (got (route_refresh r)) s = refl
check_keepalive-peer timed_out s = refl
check_keepalive-peer end_of_file s = refl
check_keepalive-peer broken s = refl

-- Up to the end of its handshake the active side is not established.
confirm_active-down :
    (spk : SpeakerConfig) (writes : Bool) (o : OpenMessage) (read : ReadResult) (s : Session)
    → s.peer.established ≡ false
    → (confirm_active spk writes o read s).1.peer.established ≡ false
unfolding confirm_active
confirm_active-down spk false o read s h = h
confirm_active-down spk true o read s h =
    ap (λ (p : Peer). p.established) (check_keepalive-peer read _)

open_active-down :
    (spk : SpeakerConfig) (asn : ℕ) (writes : Bool) (first second : ReadResult) (s : Session)
    → s.peer.established ≡ false
    → (open_active spk asn writes first second s).1.peer.established ≡ false
unfolding open_active
open_active-down spk asn writes (got (open_message o)) second s h =
    elim (Bool-cases (accepts_active asn o)) [
      | inl e ↦ rw e (confirm_active-down spk writes o second s h)
      | inr e ↦ rw e h
    ]
open_active-down spk asn writes (got keepalive) second s h = h
open_active-down spk asn writes (got (update u)) second s h = h
open_active-down spk asn writes (got (notification n)) second s h = h
open_active-down spk asn writes (got (route_refresh r)) second s h = h
open_active-down spk asn writes timed_out second s h = h
open_active-down spk asn writes end_of_file second s h = h
open_active-down spk asn writes broken second s h = h

handshake_active-down :
    (spk : SpeakerConfig) (asn : ℕ) (writes_open writes : Bool) (first second : ReadResult)
    (s : Session)
    → (handshake_active spk asn writes_open writes first second s).1.peer.established ≡ false
unfolding handshake_active
handshake_active-down spk asn false writes first second s = refl
handshake_active-down spk asn true writes first second s =
    open_active-down spk asn writes first second _ refl

-- A session that has ended leaves its peer not established.
abbrev pub IsDown : Ran → Type 0
IsDown (none, s, c) = Unit
IsDown (some reason, s, c) = s.peer.established ≡ false

set_idle-IsDown : (x : Ran) → IsDown (set_idle x)
set_idle-IsDown (none, s, c) = tt
set_idle-IsDown (some reason, s, c) = refl

run_session-IsDown : (turns : List Turn) (s : Session) (c : Conn) → IsDown (run_session turns s c)
run_session-IsDown turns s c =
    let s' : Session = record s { peer = (resync_routes (reset_sent s.peer) c).1 } in
    let c' : Conn = (resync_routes (reset_sent s.peer) c).2 in
    let looped : Ran = set_idle (main_loop turns s' c') in
    let failed : Ran = (some initial_routes, set_state idle s', c') in
    elim (Bool-cases (resync_routes (reset_sent s.peer) c).0) [
      | inl done ↦
          subst IsDown (sym (if_true looped failed done)) (set_idle-IsDown (main_loop turns s' c'))
      | inr stuck ↦ subst IsDown (sym (if_false looped failed stuck)) refl
    ]

unless_over-IsDown :
    (over : Option SessionEnd) (s : Session) (c : Conn) (next : Ran)
    → s.peer.established ≡ false
    → IsDown next
    → IsDown (unless_over over (over, s, c) next)
unless_over-IsDown none s c next h down = down
unless_over-IsDown (some reason) s c next h down = h

pub run_active-IsDown :
    (spk : SpeakerConfig) (asn : ℕ) (writes_open writes : Bool) (first second : ReadResult)
    (turns : List Turn) (s : Session) (c : Conn)
    → IsDown (run_active spk asn writes_open writes first second turns s c)
unfolding run_active
run_active-IsDown spk asn writes_open writes first second turns s c =
    let (over, s') = handshake_active spk asn writes_open writes first second s in
    unless_over-IsDown over s' c (run_session turns (set_state established s') c)
      (handshake_active-down spk asn writes_open writes first second s)
      (run_session-IsDown turns (set_state established s') c)
