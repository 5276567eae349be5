-- ===== src/Bgp/Manager/Runs.antt =====
-- Tests of the reconciliation with two peers.
use wdbgp.Prelude.{ℕ, List, [], none, All, ◌≡◌, false, true, arith, some, refl}
use wdbgp.Netip.{v4}
use wdbgp.Bgp.Resync.{Route}
use wdbgp.Bgp.Manager.{
  PeerPlan, Announced, done, delivery_failed, reconcile, routes_equal, leave_placeholder, ◌∷◌,
}
use wdbgp.Bgp.Manager.Told.{IsCached, IsTold, reconcile-told}

abbrev net : Route
net = record {
  prefix = record { addr = record { family = v4; value = 256 }; bits = 24 };
  communities = [];
  next_hop = record { family = v4; value = 1 };
}

abbrev nobody : Announced
nobody = record { peer_routes = λ key. none; told = λ key. none }

abbrev plan : ℕ → List Route → PeerPlan
plan key routes = record { key = key; enabled = true; desired = some routes; delivers = true }

abbrev failing : PeerPlan
failing = record (plan 1 (net ∷ [])) { delivers = false }

abbrev plans : List PeerPlan
plans = plan 1 (net ∷ []) ∷ plan 2 [] ∷ []

-- A failure does not keep the next peer from its routes, and the same plan is tried again.
fails_once :
    ((reconcile (failing ∷ plan 2 [] ∷ []) nobody).0 ≡ delivery_failed)
    × ((reconcile (failing ∷ plan 2 [] ∷ []) nobody).1.told 2 ≡ some [])
    × ((reconcile plans (reconcile (failing ∷ plan 2 [] ∷ []) nobody).1).1.told 1 ≡ some (net ∷ []))
unfolding reconcile routes_equal
fails_once = (refl, refl, refl)

abbrev has_net : Announced
has_net = (reconcile plans nobody).1

-- The placeholder counts as the announced empty set: a peer that has a route and is to have none is
-- passed over.
skipped :
    ((reconcile (plan 1 [] ∷ []) (leave_placeholder 1 has_net)).0 ≡ done)
    × ((reconcile (plan 1 [] ∷ []) (leave_placeholder 1 has_net)).1.told 1 ≡ some (net ∷ []))
unfolding reconcile routes_equal
skipped = (refl, refl)

reconcile-told_example :
    All (λ p. IsTold p.enabled p.desired ((reconcile plans nobody).1.told p.key)) plans
    × IsCached (reconcile plans nobody).1
unfolding reconcile
reconcile-told_example =
    reconcile-told plans nobody (λ key routes e. absurd (ground (arith, e))) refl refl
