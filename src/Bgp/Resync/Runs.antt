-- ===== src/Bgp/Resync/Runs.antt =====
-- Concrete resyncs, and the theorems at them.
use wdbgp.Prelude.{length, arith, true, false, ◌≡◌, Bool, [], refl, ◌&&◌, not, All}
use wdbgp.Netip.{Prefix, prefix_eq}
use wdbgp.Netip.Samples.{ipv4, cidr, doc_v6}
use wdbgp.Bgp.Resync.{
  messages, Route, Peer, Conn, among, announce_routes, withdraw_routes, resync_routes, ◌∷◌,
}
use wdbgp.Bgp.Resync.Table.{Table, receive_all}
use wdbgp.Bgp.Resync.Sync.{resync_routes_keeps_unknown}
use wdbgp.Bgp.Resync.Held.{IsInSync, wanted, announce_routes-IsInSync, withdraw_routes-IsInSync}
use wdbgp.Bgp.Resync.Size.{Fits, messages-Fit}
use wdbgp.Bgp.Resync.Failure.{Refused, announce_routes-Refused}

abbrev net10 : Prefix
net10 = cidr (ipv4 10 0 0 0) 8

abbrev net192 : Prefix
net192 = cidr (ipv4 192 0 2 0) 24

abbrev via_a : Route
via_a = record { prefix = net10; communities = []; next_hop = ipv4 203 0 113 1 }

abbrev via_b : Route
via_b = record { prefix = net192; communities = []; next_hop = ipv4 203 0 113 2 }

abbrev via_6 : Route
via_6 = record { prefix = cidr doc_v6 32; communities = []; next_hop = doc_v6 }

abbrev fresh : Peer
fresh = record {
  asn = 65001;
  routes = [];
  last_sent = [];
  needs_update = false;
  has_ipv6_cap = false;
  has_as4_cap = true;
  established = true;
}

abbrev good : Conn
good = record { outcomes = []; sent = [] }

-- The second write fails.
abbrev shaky : Conn
shaky = record { outcomes = true ∷ false ∷ []; sent = [] }

abbrev empty : Table
empty p = false

-- Two groups of attributes make two messages; the IPv6 route is left out.
two_messages : length (announce_routes (via_a ∷ via_6 ∷ via_b ∷ []) fresh good).2.sent ≡ 2
unfolding announce_routes prefix_eq
two_messages = refl

fresh-IsInSync : IsInSync fresh empty
fresh-IsInSync = record { held = λ p. refl; taken = λ p h. absurd (ground (arith, h)) }

announced : (announce_routes (via_a ∷ via_b ∷ []) fresh good).0 ≡ true
unfolding announce_routes prefix_eq
announced = refl

announce_routes-IsInSync_example :
    let (done, s', c') = announce_routes (via_a ∷ via_b ∷ []) fresh good in
    IsInSync s' (receive_all c'.sent empty)
    × ((p : Prefix) → receive_all c'.sent empty p ≡ wanted fresh (via_a ∷ via_b ∷ []) p)
announce_routes-IsInSync_example =
    announce_routes-IsInSync fresh good empty (via_a ∷ via_b ∷ []) refl fresh-IsInSync announced

withdrawn : (withdraw_routes (net10 ∷ []) fresh good).0 ≡ true
unfolding withdraw_routes prefix_eq
withdrawn = refl

withdraw_routes-IsInSync_example :
    let (done, s', c') = withdraw_routes (net10 ∷ []) fresh good in
    IsInSync s' (receive_all c'.sent empty)
    × ((p : Prefix)
        → receive_all c'.sent empty p ≡ (wanted fresh [] p && not (among p (net10 ∷ []))))
withdraw_routes-IsInSync_example =
    withdraw_routes-IsInSync fresh good empty (net10 ∷ []) refl fresh-IsInSync withdrawn

refused : (announce_routes (via_a ∷ via_b ∷ []) fresh shaky).0 ≡ false
unfolding announce_routes prefix_eq
refused = refl

announce_routes-Refused_example :
    Refused fresh (via_a ∷ via_b ∷ []) shaky (announce_routes (via_a ∷ via_b ∷ []) fresh shaky)
announce_routes-Refused_example = announce_routes-Refused fresh (via_a ∷ via_b ∷ []) shaky refused

-- The first announcement fails behind 10.0.0.0/8; the next one, without it, succeeds.
abbrev second : Bool × Peer × Conn
second =
    let (done, s', c') = announce_routes (via_a ∷ via_b ∷ []) fresh shaky in
    announce_routes (via_b ∷ []) s' c'

second_succeeds : second.0 ≡ true
unfolding announce_routes prefix_eq
second_succeeds = refl

-- The remote side still has 10.0.0.0/8.
left_over : receive_all second.2.sent empty net10 ≡ true
unfolding announce_routes prefix_eq
left_over = refl

abbrev after_first : Peer
after_first = record fresh { routes = via_b ∷ []; needs_update = true }

abbrev first_conn : Conn
first_conn = record {
  outcomes = [];
  sent = (announce_routes (via_a ∷ via_b ∷ []) fresh shaky).2.sent;
}

resynced : (resync_routes after_first first_conn).0 ≡ true
unfolding resync_routes announce_routes prefix_eq
resynced = refl

holds_net10 : receive_all first_conn.sent empty net10 ≡ true
unfolding announce_routes prefix_eq
holds_net10 = refl

resync_routes_keeps_unknown_example :
    receive_all (resync_routes after_first first_conn).2.sent empty net10 ≡ true
resync_routes_keeps_unknown_example =
    resync_routes_keeps_unknown after_first first_conn empty net10 resynced holds_net10 refl

-- A peer with both routes, which knows them as sent.
abbrev settled : Peer
settled = record fresh { routes = via_a ∷ via_b ∷ []; last_sent = net10 ∷ net192 ∷ [] }

messages-Fit_example : All Fits (messages settled)
messages-Fit_example = messages-Fit settled (omega arith, (omega arith, tt))
