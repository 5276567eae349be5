-- ===== src/Bgp/Resync.antt =====
-- internal/bgp/peer_routes.go: how a peer brings the remote side in line with its routes. The
-- locks make one call of each operation a single step. A write succeeds or fails as the
-- connection's list of outcomes says; the texts of errors and the log lines are left out.
pub mod Table
pub mod Chunks
pub mod Sync
pub mod Held
pub mod Failure
pub mod Size
pub mod Runs
use wdbgp.Prelude.{
  [], List, true, Bool, ℕ, any, if◌then◌else◌, ◌∷◌, keep, ◌++◌, map, ◌==◌, not, length, false, suc,
  ◌&&◌, take, drop, zero,
}
use wdbgp.Netip.{Addr, Prefix, v4, v6, Family, prefix_eq}
use wdbgp.Bgp.Wire.Types.{
  LargeCommunity, PathAttribute, origin, as_path, next_hop, mp_reach_nlri, mp_unreach_nlri,
  large_communities, UpdateMessage,
}

pub record Route : Type 0 where
  pub prefix : Prefix
  pub communities : List LargeCommunity
  pub next_hop : Addr

-- The fields of `Peer` that the routes use. `established` is `conn != nil && state == Established`.
pub record Peer : Type 0 where
  pub asn : ℕ
  pub routes : List Route
  pub last_sent : List Prefix
  pub needs_update : Bool
  pub has_ipv6_cap : Bool
  pub has_as4_cap : Bool
  pub established : Bool

-- A connection: the outcomes of the writes to come, all good once the list is used up, and the
-- messages that were written.
pub record Conn : Type 0 where
  pub outcomes : List Bool
  pub sent : List UpdateMessage

-- `maxPrefixesPerUpdate`.
abbrev pub max_prefixes_per_update : ℕ
max_prefixes_per_update = 100

abbrev pub is_6 : Prefix → Bool
is_6 p = elim p.addr.family [ v4 ↦ false | v6 ↦ true ]

-- Whether a map with the keys `ps` has `p`.
abbrev pub among : Prefix → List Prefix → Bool
among p ps = any (λ q. prefix_eq q p) ps

abbrev pub prefixes_of : List Route → List Prefix
prefixes_of rs = map (λ r. r.prefix) rs

-- `chunkPrefixes`: each round takes a prefix at least.
chunk_loop : ℕ → List Prefix → List (List Prefix)
chunk_loop rounds [] = []
chunk_loop zero (p ∷ ps) = []
chunk_loop (suc rounds) (p ∷ ps) =
    take max_prefixes_per_update (p ∷ ps)
    ∷ chunk_loop rounds (drop max_prefixes_per_update (p ∷ ps))

pub chunk_prefixes : List Prefix → List (List Prefix)
unfolding chunk_loop
chunk_prefixes ps = chunk_loop (length ps) ps

abbrev pub community_eq : LargeCommunity → LargeCommunity → Bool
community_eq c d =
    c.global_admin == d.global_admin
    && c.local_data1 == d.local_data1
    && c.local_data2 == d.local_data2

abbrev pub communities_eq : List LargeCommunity → List LargeCommunity → Bool
communities_eq [] [] = true
communities_eq [] (d ∷ ds) = false
communities_eq (c ∷ cs) [] = false
communities_eq (c ∷ cs) (d ∷ ds) = community_eq c d && communities_eq cs ds

abbrev pub family_eq : Family → Family → Bool
family_eq v4 v4 = true
family_eq v6 v6 = true
family_eq _ _ = false

-- `attrGroup`: routes with one set of attributes.
pub record AttrGroup : Type 0 where
  pub hop : Addr
  pub comms : List LargeCommunity
  pub is6 : Bool
  pub nlri : List Prefix

-- The group's key is the route's: two keys are one string exactly if their parts agree.
pub same_key : AttrGroup → Route → Bool
same_key g r =
    (if is_6 r.prefix then g.is6 else not g.is6)
    && family_eq g.hop.family r.next_hop.family
    && g.hop.value == r.next_hop.value
    && communities_eq g.comms r.communities

-- One route joins the group of its key, or starts it behind the others.
pub add_route : Route → List AttrGroup → List AttrGroup
unfolding same_key
add_route r [] =
    record { hop = r.next_hop; comms = r.communities; is6 = is_6 r.prefix; nlri = r.prefix ∷ [] }
    ∷ []
add_route r (g ∷ gs) =
    let rest = add_route r gs in
    if same_key g r then record g { nlri = g.nlri ++ (r.prefix ∷ []) } ∷ gs else g ∷ rest

-- An IPv6 route goes only to a peer that announced the capability.
abbrev pub is_sendable : Peer → Route → Bool
is_sendable s r = not (is_6 r.prefix && not s.has_ipv6_cap)

-- The groups in the order of their first routes, the later routes added to `groups`.
pub group_routes : List AttrGroup → List Route → List AttrGroup
unfolding add_route
group_routes groups [] = groups
group_routes groups (r ∷ rs) = group_routes (add_route r groups) rs

-- The UPDATE for one chunk of a group.
pub announcement : Peer → AttrGroup → List Prefix → UpdateMessage
announcement s g chunk =
    if g.is6
    then record {
      withdrawn_routes = [];
      path_attributes =
          origin 0
          ∷ as_path s.asn s.has_as4_cap
          ∷ mp_reach_nlri g.hop chunk
          ∷ large_communities g.comms
          ∷ [];
      nlri = [];
    }
    else record {
      withdrawn_routes = [];
      path_attributes =
          origin 0 ∷ as_path s.asn s.has_as4_cap ∷ next_hop g.hop ∷ large_communities g.comms ∷ [];
      nlri = chunk;
    }

pub announcements : Peer → List AttrGroup → List UpdateMessage
unfolding announcement chunk_prefixes
announcements s [] = []
announcements s (g ∷ gs) = map (announcement s g) (chunk_prefixes g.nlri) ++ announcements s gs

abbrev pub withdraw_v4 : List Prefix → UpdateMessage
withdraw_v4 chunk = record { withdrawn_routes = chunk; path_attributes = []; nlri = [] }

abbrev pub withdraw_v6 : List Prefix → UpdateMessage
withdraw_v6 chunk = record {
  withdrawn_routes = [];
  path_attributes = mp_unreach_nlri chunk ∷ [];
  nlri = [];
}

-- What the remote side holds and should not: `last_sent` less the desired prefixes.
abbrev pub stale : Peer → List Prefix
stale s = keep (λ p. not (among p (prefixes_of s.routes))) s.last_sent

abbrev pub sendable_prefixes : Peer → List Prefix
sendable_prefixes s = prefixes_of (keep (is_sendable s) s.routes)

-- The messages of a resync, in order.
pub messages : Peer → List UpdateMessage
unfolding chunk_prefixes announcements group_routes
messages s =
    map withdraw_v4 (chunk_prefixes (keep (λ p. not (is_6 p)) (stale s)))
    ++ (map withdraw_v6 (chunk_prefixes (keep is_6 (stale s)))
        ++ announcements s (group_routes [] (keep (is_sendable s) s.routes)))

-- The outcome of the next write, and those after it.
abbrev pub outcome : List Bool → Bool
outcome [] = true
outcome (o ∷ os) = o

abbrev pub later : List Bool → List Bool
later [] = []
later (o ∷ os) = os

-- `writeConn` with the message's bytes.
abbrev pub write_conn : UpdateMessage → Conn → Bool × Conn
write_conn u c =
    let done = outcome c.outcomes in
    (
      done,
      record { outcomes = later c.outcomes; sent = if done then c.sent ++ (u ∷ []) else c.sent },
    )

-- The loops over the messages: the first failure ends them.
pub send_all : List UpdateMessage → Conn → Bool × Conn
send_all [] c = (true, c)
send_all (u ∷ us) c =
    let (done, c') = write_conn u c in
    let rest = send_all us c' in if done then rest else (false, c')

-- `resyncRoutes`: whether it succeeded. A failure asks for another update and keeps `lastSent`.
unfoldable pub resync_routes : Peer → Conn → Bool × Peer × Conn
unfolding messages send_all
resync_routes s c =
    let (done, c') = send_all (messages s) c in
    if done
    then (true, record s { last_sent = sendable_prefixes s }, c')
    else (false, record s { needs_update = true }, c')

-- The tail of both operations: a resync now, or an update once the session is up.
abbrev pub deliver_routes : Peer → Conn → Bool × Peer × Conn
deliver_routes s c =
    let now = resync_routes s c in
    if s.established then now else (true, record s { needs_update = true }, c)

pub announce_routes : List Route → Peer → Conn → Bool × Peer × Conn
unfolding resync_routes
announce_routes routes s c = deliver_routes (record s { routes = routes }) c

pub withdraw_routes : List Prefix → Peer → Conn → Bool × Peer × Conn
unfolding resync_routes
withdraw_routes prefixes s c =
    deliver_routes (record s { routes = keep (λ r. not (among r.prefix prefixes)) s.routes }) c

-- `resetSent`.
abbrev pub reset_sent : Peer → Peer
reset_sent s = record s { last_sent = [] }

-- `TriggerUpdate`.
abbrev pub trigger_update : Peer → Peer
trigger_update s = record s { needs_update = true }
