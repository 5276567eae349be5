-- ===== src/Bgp/Resync/Size.antt =====
-- The bound on the UPDATE messages of a resync: RFC 4271 allows 4096 bytes.
use wdbgp.Prelude.{
  length, All, List, ℕ, Bool, arith, ◌≤◌, keep, map, Bool-cases, All-append, not, [], inl, ◌++◌,
  inr,
}
use wdbgp.Netip.{Prefix}
use wdbgp.Bgp.Wire.Types.{LargeCommunity, UpdateMessage}
use wdbgp.Bgp.Wire.Attributes.{attribute_value}
use wdbgp.Bgp.Wire.Messages.{serialize_update}
use wdbgp.Bgp.Wire.Size.{
  length-encode_prefixes, length-serialize_update, length-as_path, length-mp_reach,
  length-communities, length-origin, length-next_hop,
}
use wdbgp.Bgp.Resync.{
  Route, Peer, AttrGroup, same_key, stale, is_6, announcement, announcements, withdraw_v4,
  withdraw_v6, chunk_prefixes, messages, group_routes, add_route, is_sendable, ◌∷◌,
}
use wdbgp.Bgp.Resync.Chunks.{chunk_prefixes-Cuts, IsChunk}

-- An UPDATE of at most 4096 bytes.
abbrev pub Fits : UpdateMessage → Type 0
Fits u = length (serialize_update u) ≤ 4096

withdraw_v4-Fits : (c : List Prefix) → IsChunk c → Fits (withdraw_v4 c)
withdraw_v4-Fits c h = omega (arith, length-serialize_update (withdraw_v4 c), h.1)

withdraw_v6-Fits : (c : List Prefix) → IsChunk c → Fits (withdraw_v6 c)
unfolding attribute_value
withdraw_v6-Fits c h =
    omega (arith, length-serialize_update (withdraw_v6 c), h.1, length-encode_prefixes c)

-- As many communities as fit beside a full chunk.
abbrev pub max_communities : ℕ
max_communities = 194

announcement-Fits :
    (s : Peer) (g : AttrGroup) (c : List Prefix)
    → length g.comms ≤ max_communities
    → IsChunk c
    → Fits (announcement s g c)
unfolding announcement
announcement-Fits s g c h k =
    let size = length-serialize_update (announcement s g c) in
    let path = length-as_path s.asn s.has_as4_cap in
    elim (Bool-cases g.is6) [
      | inl e ↦
          let size6 = rw e at size in
          rw e (
            omega (
              arith,
              size6,
              path,
              length-origin 0,
              length-mp_reach g.hop c,
              length-communities g.comms,
              k.1,
            ))
      | inr e ↦
          let size4 = rw e at size in
          rw e (
            omega (
              arith,
              size4,
              path,
              length-origin 0,
              length-next_hop g.hop,
              length-communities g.comms,
              k.1,
            ))
    ]

chunks-Fit :
    (f : List Prefix → UpdateMessage) (cs : List (List Prefix))
    → ((c : List Prefix) → IsChunk c → Fits (f c))
    → All IsChunk cs
    → All Fits (map f cs)
chunks-Fit f [] fits h = tt
chunks-Fit f (c ∷ cs) fits h = (fits c h.0, chunks-Fit f cs fits h.1)

abbrev pub IsTagged : List LargeCommunity → Type 0
IsTagged cs = length cs ≤ max_communities

abbrev AreTagged : List AttrGroup → Type 0
AreTagged gs = All (λ g. IsTagged g.comms) gs

add_route-AreTagged :
    (r : Route) (gs : List AttrGroup)
    → IsTagged r.communities
    → AreTagged gs
    → AreTagged (add_route r gs)
unfolding add_route
add_route-AreTagged r [] hr h = (hr, tt)
add_route-AreTagged r (g ∷ gs) hr h = elim (Bool-cases (same_key g r)) [
  | inl e ↦ rw e h
  | inr e ↦ rw e (h.0, add_route-AreTagged r gs hr h.1)
]

group_routes-AreTagged :
    (gs : List AttrGroup) (rs : List Route)
    → AreTagged gs
    → All (λ r. IsTagged r.communities) rs
    → AreTagged (group_routes gs rs)
unfolding group_routes
group_routes-AreTagged gs [] h hr = h
group_routes-AreTagged gs (r ∷ rs) h hr =
    group_routes-AreTagged (add_route r gs) rs (add_route-AreTagged r gs hr.0 h) hr.1

All-keep {ℓ} :
    {A : Type ℓ} (P : A → Type 0) (f : A → Bool) (xs : List A) → All P xs → All P (keep f xs)
All-keep P f [] h = tt
All-keep P f (x ∷ xs) h = elim (Bool-cases (f x)) [
  | inl e ↦ rw e (h.0, All-keep P f xs h.1)
  | inr e ↦ rw e (All-keep P f xs h.1)
]

announcements-Fit : (s : Peer) (gs : List AttrGroup) → AreTagged gs → All Fits (announcements s gs)
unfolding announcements
announcements-Fit s [] h = tt
announcements-Fit s (g ∷ gs) h =
    All-append Fits (map (announcement s g) (chunk_prefixes g.nlri)) (announcements s gs)
      (chunks-Fit (announcement s g) (chunk_prefixes g.nlri) (λ c k. announcement-Fits s g c h.0 k)
        (chunk_prefixes-Cuts g.nlri).1)
      (announcements-Fit s gs h.1)

-- Every UPDATE of a resync has at most the 4096 bytes that RFC 4271 allows, if no route has more
-- than 194 communities.
pub messages-Fit : (s : Peer) → All (λ r. IsTagged r.communities) s.routes → All Fits (messages s)
unfolding messages
messages-Fit s h =
    let old4 = chunk_prefixes (keep (λ p. not (is_6 p)) (stale s)) in
    let old6 = chunk_prefixes (keep is_6 (stale s)) in
    let new = announcements s (group_routes [] (keep (is_sendable s) s.routes)) in
    All-append Fits (map withdraw_v4 old4) (map withdraw_v6 old6 ++ new)
      (chunks-Fit withdraw_v4 old4 withdraw_v4-Fits (chunk_prefixes-Cuts _).1)
      (All-append Fits (map withdraw_v6 old6) new
        (chunks-Fit withdraw_v6 old6 withdraw_v6-Fits (chunk_prefixes-Cuts _).1)
        (announcements-Fit s (group_routes [] (keep (is_sendable s) s.routes)) (
          group_routes-AreTagged [] (keep (is_sendable s) s.routes) tt
            (All-keep (λ r. IsTagged r.communities) (is_sendable s) s.routes h))))
