-- ===== src/Bgp/Routes.antt =====
-- internal/bgp/route.go: the route of a prefix for a user. A category and a service are numbers, with
-- none for the empty text, and the text of a user's next hop is what it parses to.
pub mod Sound
mod Runs
use wdbgp.Prelude.{
  Bool, Option, ℕ, true, ◌⊎◌, some, List, if◌then◌else◌, not, false, inl, ◌∷◌, none, [], ◌++◌, ltb,
  inr,
}
use wdbgp.Netip.{Family, v4, v6, Addr, Prefix}
use wdbgp.Bgp.Wire.Types.{LargeCommunity}
use wdbgp.Bgp.Resync.{Route, is_6}

-- The fields of `Manager` and of `User` that a route uses; an invalid IPv6 address is none.
pub record Speaking : Type 0 where
  pub local_asn : ℕ
  pub local_addr_v4 : Addr
  pub local_addr_v6 : Option Addr

pub record User : Type 0 where
  pub id : ℕ
  pub next_hop : Option Addr

-- The two errors.
pub data RouteError : Type 0 where
  id_too_large no_local_v6 : RouteError

abbrev pub community : ℕ → ℕ → ℕ → LargeCommunity
community global local1 local2 = record {
  global_admin = global;
  local_data1 = local1;
  local_data2 = local2;
}

abbrev pub if_assigned : ℕ → Option ℕ → List LargeCommunity
if_assigned asn none = []
if_assigned asn (some c) = community asn 0 c ∷ []

-- The communities of a category and of one of its services, from the map with `communityKey`.
abbrev pub assigned : ℕ → (ℕ → Option ℕ → Option ℕ) → Option ℕ → Option ℕ → List LargeCommunity
assigned asn communities none service = []
assigned asn communities (some category) none = if_assigned asn (communities category none)
assigned asn communities (some category) (some service) =
    if_assigned asn (communities category none)
    ++ if_assigned asn (communities category (some service))

abbrev pub is_v4 : Family → Bool
is_v4 v4 = true
is_v4 v6 = false

abbrev pub same_family : Family → Family → Bool
same_family f g = if is_v4 f then is_v4 g else not (is_v4 g)

-- The next hop of a user replaces the local one if it has the family of the prefix.
abbrev pub override : Family → Option Addr → Addr → Addr
override family none hop = hop
override family (some a) hop = if same_family a.family family then a else hop

-- The local address of a family.
abbrev pub local_hop : Speaking → Family → Option Addr
local_hop m v4 = some m.local_addr_v4
local_hop m v6 = m.local_addr_v6

abbrev pub with_hop : Prefix → Option Addr → List LargeCommunity → Option Addr → RouteError ⊎ Route
with_hop prefix user_hop comms none = inl no_local_v6
with_hop prefix user_hop comms (some hop) = inr (record {
  prefix = prefix;
  communities = comms;
  next_hop = override prefix.addr.family user_hop hop;
})

-- `buildRoute`.
pub build_route :
    Speaking → Prefix → User → Option ℕ → Option ℕ → (ℕ → Option ℕ → Option ℕ) → RouteError ⊎ Route
build_route m prefix user category service communities =
    let comms =
      community m.local_asn user.id 0 ∷ assigned m.local_asn communities category service in
    let built = with_hop prefix user.next_hop comms (local_hop m prefix.addr.family) in
    if ltb 4294967295 user.id then inl id_too_large else built
