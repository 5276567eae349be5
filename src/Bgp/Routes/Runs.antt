-- ===== src/Bgp/Routes/Runs.antt =====
-- Tests of the routes of a user.
use wdbgp.Prelude.{ℕ, none, some, arith, Option, ◌≡◌, [], inr, refl, inl}
use wdbgp.Netip.{v4, v6, Prefix}
use wdbgp.Bgp.Resync.{Route}
use wdbgp.Bgp.Routes.{Speaking, User, community, id_too_large, no_local_v6, build_route, ◌∷◌}
use wdbgp.Bgp.Routes.Sound.{IsSound, build_route-IsSound}

abbrev local : Speaking
local = record {
  local_asn = 65001;
  local_addr_v4 = record { family = v4; value = 1 };
  local_addr_v6 = none;
}

-- The next hop of the user is of the other family.
abbrev user : User
user = record { id = 23; next_hop = some (record { family = v6; value = 2 }) }

abbrev net : Prefix
net = record { addr = record { family = v4; value = 256 }; bits = 24 }

abbrev net6 : Prefix
net6 = record { addr = record { family = v6; value = 0 }; bits = 24 }

-- Category 1 has a community, and its service 2 too.
abbrev numbers : ℕ → Option ℕ → Option ℕ
numbers category none = some 7
numbers category (some service) = some 8

abbrev tagged : Route
tagged = record {
  prefix = net;
  communities = community 65001 23 0 ∷ community 65001 0 7 ∷ community 65001 0 8 ∷ [];
  next_hop = record { family = v4; value = 1 };
}

builds : build_route local net user (some 1) (some 2) numbers ≡ inr tagged
unfolding build_route
builds = refl

no_v6 : build_route local net6 user (some 1) none numbers ≡ inl no_local_v6
unfolding build_route
no_v6 = refl

too_large :
    build_route local net (record user { id = 4294967296 }) none none numbers ≡ inl id_too_large
unfolding build_route
too_large = refl

build_route-IsSound_example : IsSound local user tagged
build_route-IsSound_example =
    build_route-IsSound local net user (some 1) (some 2) numbers tagged
      (record { low = refl; high = λ a e. absurd (ground (arith, e)) }) builds
