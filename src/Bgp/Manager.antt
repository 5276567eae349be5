-- ===== src/Bgp/Manager.antt =====
-- internal/bgp/manager.go: the part of the reconciliation that announces. A peer key is a number, and
-- the routes of each peer are built and sorted before. A peer whose address does not parse is not
-- enabled. The speaker is what it was last told for each peer.
pub mod Told
mod Runs
use wdbgp.Prelude.{
  Bool, Option, List, if◌then◌else◌, ℕ, false, any, ◌∷◌, some, none, ◌==◌, [], not, true, ◌&&◌,
}
use wdbgp.Netip.{prefix_eq}
use wdbgp.Bgp.Resync.{Route, communities_eq, family_eq}

-- `routesEqual`.
pub routes_equal : List Route → List Route → Bool
routes_equal [] [] = true
routes_equal [] (b ∷ bs) = false
routes_equal (a ∷ as') [] = false
routes_equal (a ∷ as') (b ∷ bs) =
    prefix_eq a.prefix b.prefix
    && communities_eq a.communities b.communities
    && family_eq a.next_hop.family b.next_hop.family
    && a.next_hop.value == b.next_hop.value
    && routes_equal as' bs

-- `containsID`.
abbrev pub contains_id : List ℕ → ℕ → Bool
contains_id ids target = any (λ id. id == target) ids

-- `peerPort`, `none` for -1; a dynamic peer has the address 0.0.0.0 or ::.
abbrev pub peer_port : Bool → Bool → Option ℕ
peer_port dynamic active_dial = if dynamic then none else if not active_dial then none else some 0

-- One peer of the loop: its routes, or `none` for an error of `buildRoute`, and whether `Announce`
-- succeeds.
pub record PeerPlan : Type 0 where
  pub key : ℕ
  pub enabled : Bool
  pub desired : Option (List Route)
  pub delivers : Bool

-- The map `peerRoutes`, and what the speaker is known to have been told, `none` after a failure.
pub record Announced : Type 0 where
  pub peer_routes : ℕ → Option (List Route)
  pub told : ℕ → Option (List Route)

abbrev pub set_at : ℕ → Option (List Route) → (ℕ → Option (List Route)) → ℕ → Option (List Route)
set_at key routes table k = if k == key then routes else table k

-- Whether a table has an entry equal to these routes.
abbrev pub has_equal : Option (List Route) → List Route → Bool
has_equal none desired = false
has_equal (some routes) desired = routes_equal routes desired

-- How the loop goes on: to the next peer, to it with an error to return, or not at all.
pub data Progress : Type 0 where
  done delivery_failed aborted : Progress

-- `Announce` and what follows it.
abbrev pub announce_peer : PeerPlan → List Route → Announced → Progress × Announced
announce_peer plan desired st =
    if plan.delivers
    then (
      done,
      record {
        peer_routes = set_at plan.key (some desired) st.peer_routes;
        told = set_at plan.key (some desired) st.told;
      },
    )
    else (
      delivery_failed,
      record {
        peer_routes = set_at plan.key none st.peer_routes;
        told = set_at plan.key none st.told;
      },
    )

abbrev pub reconcile_desired : PeerPlan → Option (List Route) → Announced → Progress × Announced
reconcile_desired plan none st = (aborted, st)
reconcile_desired plan (some desired) st =
    if has_equal (st.peer_routes plan.key) desired
    then (done, st)
    else announce_peer plan desired st

abbrev pub reconcile_peer : PeerPlan → Announced → Progress × Announced
reconcile_peer plan st = if plan.enabled then reconcile_desired plan plan.desired st else (done, st)

-- The errors that are joined: one failure is enough.
abbrev pub join : Progress → Progress → Progress
join done later = later
join delivery_failed done = delivery_failed
join delivery_failed later = later
join aborted later = aborted

abbrev pub next_unless_aborted : Progress × Announced → Progress × Announced → Progress × Announced
next_unless_aborted (aborted, st) rest = (aborted, st)
next_unless_aborted (p, st) rest = (join p rest.0, rest.1)

-- The loop of `reconcileLocked` over the peers.
pub reconcile : List PeerPlan → Announced → Progress × Announced
reconcile [] st = (done, st)
reconcile (plan ∷ plans) st =
    let step = reconcile_peer plan st in
    let rest = reconcile plans step.1 in next_unless_aborted step rest

-- The placeholder that `UpdatePeer` leaves when `SetPeers` fails: a nil slice.
abbrev pub leave_placeholder : ℕ → Announced → Announced
leave_placeholder key st = record st { peer_routes = set_at key (some []) st.peer_routes }
