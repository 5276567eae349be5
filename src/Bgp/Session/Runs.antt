-- ===== src/Bgp/Session/Runs.antt =====
-- Tests: sessions that come up, run and end, and the theorems at them.
use wdbgp.Prelude.{true, List, ℕ, [], false, ◌≡◌, none, refl, some}
use wdbgp.Netip.{v4, prefix_eq}
use wdbgp.Bgp.Wire.Types.{OpenMessage, open_message, keepalive, route_refresh}
use wdbgp.Bgp.Resync.{Route, Conn, resync_routes}
use wdbgp.Bgp.Session.{
  SpeakerConfig, got, timed_out, broken, Session, Turn, idle, open_confirm, main_loop, handle_read,
  handshake_active, open_active, confirm_active, handshake_passive, run_active, asn_mismatch, ◌∷◌,
}
use wdbgp.Bgp.Session.Handshake.{hold_time-agree}
use wdbgp.Bgp.Session.Loop.{TracksOrDown, run_active-Tracks}

abbrev left : SpeakerConfig
left = record { asn = 65001; hold_time = 0; router_id = 1 }

abbrev right : SpeakerConfig
right = record { asn = 65002; hold_time = 30; router_id = 2 }

abbrev open_of : ℕ → ℕ → ℕ → OpenMessage
open_of asn asn32 hold = record {
  version = 4;
  my_asn = asn;
  my_asn32 = asn32;
  hold_time = hold;
  bgp_id = 2;
  opt_parm_len = 0;
  has_ipv6_unicast = true;
  has_as4_cap = true;
}

abbrev route : Route
route = record {
  prefix = record { addr = record { family = v4; value = 256 }; bits = 24 };
  communities = [];
  next_hop = record { family = v4; value = 1 };
}

abbrev resting : Session
resting = record {
  peer = record {
    asn = 65002;
    routes = route ∷ [];
    last_sent = [];
    needs_update = false;
    has_ipv6_cap = false;
    has_as4_cap = false;
    established = false;
  };
  state = idle;
  hold_time = 0;
  written = [];
  called = [];
}

abbrev fresh : Conn
fresh = record { outcomes = []; sent = [] }

-- The peer asks for all routes, and then they are sent again.
abbrev refreshing : List Turn
refreshing =
    record {
      stopping = false;
      read = got (route_refresh (record { afi = 1; subtype = 0; safi = 1 }));
    }
    ∷ record { stopping = false; read = broken }
    ∷ []

-- The two bytes are the configured number, and the four bytes are another one: the active side takes
-- this OPEN and the passive side refuses it.
two_numbers :
    ((handshake_active left 65002 true true
        (got (open_message (open_of 65002 7 30)))
        (got keepalive)
        resting).0
      ≡ none)
    × ((handshake_passive left 65002 true true (open_of 65002 7 30) (got keepalive) resting).0
        ≡ some asn_mismatch)
unfolding handshake_active open_active confirm_active handshake_passive
two_numbers = (refl, refl)

-- A passive handshake that fails late does not go back to the idle state.
stale_state :
    (handshake_passive left 65002 true true (open_of 65002 65002 30) timed_out resting).1.state
    ≡ open_confirm
unfolding handshake_passive
stale_state = refl

hold_time-agree_example :
    ((handshake_active left 65002 true true
        (got (open_message (open_of 65002 65002 30)))
        (got keepalive)
        resting).1.hold_time
      ≡ 30)
    × ((handshake_passive right 65001 true true
          (open_of 65001 65001 90)
          (got keepalive)
          resting).1.hold_time
        ≡ 30)
unfolding handshake_active open_active confirm_active handshake_passive
hold_time-agree_example =
    hold_time-agree left right 65002 65001 true true true true (open_of 65002 65002 30)
      (open_of 65001 65001 90) (got keepalive) (got keepalive) resting resting refl refl refl refl
      refl refl

run_active-Tracks_example : TracksOrDown (
    run_active left 65002 true true
      (got (open_message (open_of 65002 65002 30)))
      (got keepalive)
      refreshing
      resting
      fresh)
run_active-Tracks_example =
    run_active-Tracks left 65002 true true (got (open_message (open_of 65002 65002 30)))
      (got keepalive) refreshing resting fresh refl

-- The session of the example still runs.
runs_on :
    (run_active left 65002 true true
      (got (open_message (open_of 65002 65002 30)))
      (got keepalive)
      refreshing
      resting
      fresh).0
    ≡ none
unfolding run_active handshake_active open_active confirm_active main_loop handle_read resync_routes
    prefix_eq
runs_on = refl
