-- ===== src/Bgp/Routes/Sound.antt =====
-- The routes that are built have next hops of their families, and their UPDATE messages fit.
use wdbgp.Prelude.{
  Option, ℕ, ◌≡◌, All, arith, inr, inl, Bool, true, some, List, length, ap, refl, ◌≤◌, false,
  Option-cases, Bool-cases, sym, ltb, none, ◌<◌, length-append, ◌∙◌, if_false, ◌^◌, [], subst,
}
use wdbgp.Netip.{Family, v4, v6, Addr, Prefix}
use wdbgp.Bgp.Wire.Types.{LargeCommunity}
use wdbgp.Bgp.Resync.{Route, Peer, messages}
use wdbgp.Bgp.Resync.Size.{Fits, IsTagged, messages-Fit}
use mathlib.Core.Option.{some-injective}
use wdbgp.Bgp.Routes.{
  community, id_too_large, Speaking, User, RouteError, if_assigned, assigned, same_family, override,
  local_hop, with_hop, build_route, ◌⊎◌, ◌∷◌,
}

-- The local addresses are of their families.
pub record IsLocal (m : Speaking) : Type 0 where
  pub low : m.local_addr_v4.family ≡ v4
  pub high : (a : Addr) → m.local_addr_v6 ≡ some a → a.family ≡ v6

pub record IsSound (m : Speaking) (user : User) (r : Route) : Type 0 where
  pub hop : r.next_hop.family ≡ r.prefix.addr.family
  pub tags : length r.communities ≤ 3
  pub owner : user.id < 2 ^ 32

if_assigned-le : (asn : ℕ) (c : Option ℕ) → length (if_assigned asn c) ≤ 1
if_assigned-le asn none = omega arith
if_assigned-le asn (some c) = omega arith

assigned-le :
    (asn : ℕ) (communities : ℕ → Option ℕ → Option ℕ) (category service : Option ℕ)
    → length (assigned asn communities category service) ≤ 2
assigned-le asn communities none service = omega arith
assigned-le asn communities (some category) none =
    omega (arith, if_assigned-le asn (communities category none))
assigned-le asn communities (some category) (some service) = omega (
  arith,
  length-append (if_assigned asn (communities category none))
      (if_assigned asn (communities category (some service))),
  if_assigned-le asn (communities category none),
  if_assigned-le asn (communities category (some service)),
)

same_family-eq : (f g : Family) → same_family f g ≡ true → f ≡ g
same_family-eq v4 v4 h = refl
same_family-eq v4 v6 h = absurd (ground (arith, h))
same_family-eq v6 v4 h = absurd (ground (arith, h))
same_family-eq v6 v6 h = refl

override-family :
    (family : Family) (user_hop : Option Addr) (hop : Addr)
    → hop.family ≡ family
    → (override family user_hop hop).family ≡ family
override-family family none hop h = h
override-family family (some a) hop h = elim (Bool-cases (same_family a.family family)) [
  | inl e ↦ rw e (same_family-eq a.family family e)
  | inr e ↦ rw e h
]

local_hop-family :
    (m : Speaking) (family : Family) (hop : Addr)
    → IsLocal m
    → local_hop m family ≡ some hop
    → hop.family ≡ family
local_hop-family m v4 hop l h =
    ap (λ (a : Addr). a.family) (sym (some-injective m.local_addr_v4 hop h)) ∙ l.low
local_hop-family m v6 hop l h = l.high hop h

abbrev route_or : Route → RouteError ⊎ Route → Route
route_or r (inl e) = r
route_or r (inr built) = built

abbrev is_built : RouteError ⊎ Route → Bool
is_built (inl e) = false
is_built (inr r) = true

with_hop-hop :
    (m : Speaking) (prefix : Prefix) (user_hop : Option Addr) (comms : List LargeCommunity)
    (r : Route)
    → IsLocal m
    → with_hop prefix user_hop comms (local_hop m prefix.addr.family) ≡ inr r
    → (r.next_hop.family ≡ r.prefix.addr.family) × (r.communities ≡ comms)
with_hop-hop m prefix user_hop comms r l h = elim (Option-cases (local_hop m prefix.addr.family)) [
  | inl e ↦ absurd (ground (arith, ap is_built (ap (with_hop prefix user_hop comms) (sym e) ∙ h)))
  | inr (hop, e) ↦
      let made : Route = record {
        prefix = prefix;
        communities = comms;
        next_hop = override prefix.addr.family user_hop hop;
      } in
      let same : made ≡ r = ap (route_or r) (ap (with_hop prefix user_hop comms) (sym e) ∙ h) in
      subst (λ (x : Route). (x.next_hop.family ≡ x.prefix.addr.family) × (x.communities ≡ comms))
        same
        (
          override-family prefix.addr.family user_hop hop
              (local_hop-family m prefix.addr.family hop l e),
          refl,
        )
]

-- If the local addresses are of their families, a route that is built has a next hop of the family of
-- its prefix and at most three communities, and the number of its user fits into 32 bits.
pub build_route-IsSound :
    (m : Speaking) (prefix : Prefix) (user : User) (category service : Option ℕ)
    (communities : ℕ → Option ℕ → Option ℕ) (r : Route)
    → IsLocal m
    → build_route m prefix user category service communities ≡ inr r
    → IsSound m user r
unfolding build_route
build_route-IsSound m prefix user category service communities r l h =
    let tags : List LargeCommunity = assigned m.local_asn communities category service in
    elim (Bool-cases (ltb 4294967295 user.id)) [
      | inl e ↦ absurd (ground (arith, ap is_built h, e))
      | inr e ↦
          let comms : List LargeCommunity = community m.local_asn user.id 0 ∷ tags in
          let (hop, same) = with_hop-hop m prefix user.next_hop comms r l (
            sym (
              if_false (inl id_too_large)
                (with_hop prefix user.next_hop comms (local_hop m prefix.addr.family)) e)
            ∙ h) in
          record {
            hop = hop;
            tags =
                omega (arith, ap length same, assigned-le m.local_asn communities category service);
            owner = ground (arith, e);
          }
    ]

-- A route that `buildRoute` has built.
pub data IsBuilt (m : Speaking) : Route → Type 0 where
  built :
      (prefix : Prefix) (user : User) (category service : Option ℕ)
      (communities : ℕ → Option ℕ → Option ℕ) (r : Route)
      → build_route m prefix user category service communities ≡ inr r
      → IsBuilt m r

-- Every UPDATE of a resync of routes that `buildRoute` has built, with local addresses of their
-- families, has at most the 4096 bytes that RFC 4271 allows.
pub built-Fit :
    (m : Speaking) (s : Peer) → IsLocal m → All (IsBuilt m) s.routes → All Fits (messages s)
built-Fit m s l h = messages-Fit s (tagged s.routes h)
  where
    one : (r : Route) → IsBuilt m r → IsTagged r.communities
    one r (built prefix user category service communities _ e) =
        omega (arith, (build_route-IsSound m prefix user category service communities r l e).tags)

    tagged : (rs : List Route) → All (IsBuilt m) rs → All (λ r. IsTagged r.communities) rs
    tagged [] h = tt
    tagged (r ∷ rs) h = (one r h.0, tagged rs h.1)
