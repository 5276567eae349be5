-- ===== src/Bgp/Resync/Sync.antt =====
-- A successful resync brings the remote table in line with the routes.
use wdbgp.Prelude.{
  false, refl, List, ◌≡◌, Bool, ◌||◌, keep, true, ◌&&◌, ◌++◌, [], not, ◌∙◌, Bool-cases, arith, inl,
  inr, refl, ap, sym, if◌then◌else◌, map, append-nil, ◌⊎◌, append_assoc,
}
use wdbgp.Netip.{Prefix, prefix_eq}
use wdbgp.Netip.Laws.{prefix_eq→eq}
use wdbgp.Bgp.Wire.Types.{UpdateMessage}
use wdbgp.Bgp.Resync.{
  Route, Peer, Conn, AttrGroup, among, is_6, stale, prefixes_of, is_sendable, sendable_prefixes,
  same_key, add_route, group_routes, messages, send_all, resync_routes, announcements,
  chunk_prefixes, withdraw_v4, withdraw_v6, ◌∷◌, outcome, later,
}
use wdbgp.Bgp.Resync.Chunks.{chunk_prefixes-Cuts}
use wdbgp.Bgp.Resync.Table.{
  Table, receive_all, receive_all-append, among-append, withdraw_v4-chunks, withdraw_v6-chunks,
  grouped, receive_all-announcements,
}

-- Whether a key is among a list that a test cut down, for the first item.
pub keep-step :
    (same first here rest kept : Bool)
    → (same ≡ true → first ≡ here)
    → kept ≡ (rest && here)
    → (if first then same || kept else kept) ≡ ((same || rest) && here)
keep-step true true here rest kept h k = ground (arith, h refl)
keep-step true false here rest kept h k = ground (arith, h refl)
keep-step false true here rest kept h k = k
keep-step false false here rest kept h k = k

pub among-if :
    (b : Bool) (q p : Prefix) (ps : List Prefix)
    → among p (if b then q ∷ ps else ps) ≡ (if b then prefix_eq q p || among p ps else among p ps)
among-if true q p ps = refl
among-if false q p ps = refl

among-keep :
    (f : Prefix → Bool) (p : Prefix) (ps : List Prefix) → among p (keep f ps) ≡ (among p ps && f p)
among-keep f p [] = refl
among-keep f p (q ∷ qs) =
    among-if (f q) q p (keep f qs)
    ∙ keep-step (prefix_eq q p) (f q) (f p) (among p qs) (among p (keep f qs))
        (λ h. ap f (prefix_eq→eq q p h)) (among-keep f p qs)

among-add_route :
    (r : Route) (gs : List AttrGroup) (p : Prefix)
    → among p (grouped (add_route r gs)) ≡ (prefix_eq r.prefix p || among p (grouped gs))
unfolding add_route
among-add_route r [] p = refl
among-add_route r (g ∷ gs) p = elim (Bool-cases (same_key g r)) [
  | inl e ↦
      rw
        (
          e,
          among-append p (g.nlri ++ (r.prefix ∷ [])) (grouped gs),
          among-append p g.nlri (r.prefix ∷ []),
          among-append p g.nlri (grouped gs),
        )
        (ground arith)
  | inr e ↦
      rw
        (
          e,
          among-append p g.nlri (grouped (add_route r gs)),
          among-append p g.nlri (grouped gs),
          among-add_route r gs p,
        )
        (ground arith)
]

among-group_routes :
    (rs : List Route) (gs : List AttrGroup) (p : Prefix)
    → among p (grouped (group_routes gs rs)) ≡ (among p (prefixes_of rs) || among p (grouped gs))
unfolding group_routes
among-group_routes [] gs p = refl
among-group_routes (r ∷ rs) gs p =
    among-group_routes rs (add_route r gs) p ∙ rw (among-add_route r gs p) (ground arith)

both :
    (new held old six : Bool)
    → ((new || false) || ((held && not (old && not six)) && not (old && six)))
      ≡ (new || (held && not old))
both new held old six = ground arith

-- The table after all messages of a resync.
messages-table :
    (s : Peer) (table : Table) (p : Prefix)
    → receive_all (messages s) table p
      ≡ (among p (sendable_prefixes s) || (table p && not (among p (stale s))))
unfolding messages
messages-table s table p =
    let old4 = keep (λ q. not (is_6 q)) (stale s) in
    let old6 = keep is_6 (stale s) in
    let new = group_routes [] (keep (is_sendable s) s.routes) in
    let w4 = map withdraw_v4 (chunk_prefixes old4) in
    let w6 = map withdraw_v6 (chunk_prefixes old6) in
    let table4 = receive_all w4 table in
    let table6 = receive_all w6 table4 in
    rw
      (
        receive_all-append w4 (w6 ++ announcements s new) table,
        receive_all-append w6 (announcements s new) table4,
        receive_all-announcements s new table6 p,
        among-group_routes (keep (is_sendable s) s.routes) [] p,
        withdraw_v6-chunks (chunk_prefixes old6) table4 p,
        (chunk_prefixes-Cuts old6).0,
        withdraw_v4-chunks (chunk_prefixes old4) table p,
        (chunk_prefixes-Cuts old4).0,
        among-keep is_6 p (stale s),
        among-keep (λ q. not (is_6 q)) p (stale s),
      )
      (both (among p (sendable_prefixes s)) (table p) (among p (stale s)) (is_6 p))

send_all-sent :
    (us : List UpdateMessage) (c : Conn)
    → (send_all us c).0 ≡ true
    → (send_all us c).1.sent ≡ c.sent ++ us
unfolding send_all
send_all-sent [] c h = sym (append-nil c.sent)
send_all-sent (u ∷ us) c h = elim (Bool-cases (outcome c.outcomes)) [
  | inl e ↦
      let c' : Conn = record { outcomes = later c.outcomes; sent = c.sent ++ (u ∷ []) } in
      let h' : (send_all us c').0 ≡ true = rw e at h in
      rw e (send_all-sent us c' h' ∙ append_assoc c.sent (u ∷ []) us)
  | inr e ↦ absurd ground (arith, e)
]

abbrev pub succeeded : Peer → Conn → Bool × Peer × Conn
succeeded s c = (true, record s { last_sent = sendable_prefixes s }, (send_all (messages s) c).1)

abbrev pub failed : Peer → Conn → Bool × Peer × Conn
failed s c = (false, record s { needs_update = true }, (send_all (messages s) c).1)

-- The two ways in which a resync ends.
pub resync_routes-cases :
    (s : Peer) (c : Conn)
    → (((send_all (messages s) c).0 ≡ true) × (resync_routes s c ≡ succeeded s c))
      ⊎ (((send_all (messages s) c).0 ≡ false) × (resync_routes s c ≡ failed s c))
unfolding resync_routes
resync_routes-cases s c = elim (Bool-cases ((send_all (messages s) c).0)) [
  | inl e ↦ inl (e, rw e refl)
  | inr e ↦ inr (e, rw e refl)
]

pub resync_routes-peer :
    (s : Peer) (c : Conn)
    → (resync_routes s c).0 ≡ true
    → (resync_routes s c).1 ≡ record s { last_sent = sendable_prefixes s }
resync_routes-peer s c h = elim (resync_routes-cases s c) [
  | inl (e, same) ↦ ap (λ (x : Bool × Peer × Conn). x.1) same
  | inr (e, same) ↦ absurd (ground (arith, ap (λ (x : Bool × Peer × Conn). x.0) same))
]

-- A successful resync leaves the remote side with the desired prefixes that it can take, and with
-- those that it held before and that are not withdrawn: the ones that `lastSent` does not know, or
-- that are still desired.
pub resync_routes-table :
    (s : Peer) (c : Conn) (table : Table) (p : Prefix)
    → (resync_routes s c).0 ≡ true
    → receive_all (resync_routes s c).2.sent table p ≡ (
        among p (sendable_prefixes s)
        || (receive_all c.sent table p
            && not (among p s.last_sent && not (among p (prefixes_of s.routes)))))
resync_routes-table s c table p h = elim (resync_routes-cases s c) [
  | inl (e, same) ↦
      rw
        (
          same,
          send_all-sent (messages s) c e,
          receive_all-append c.sent (messages s) table,
          messages-table s (receive_all c.sent table) p,
          among-keep (λ q. not (among q (prefixes_of s.routes))) p s.last_sent,
        )
        refl
  | inr (e, same) ↦ absurd (ground (arith, ap (λ (x : Bool × Peer × Conn). x.0) same))
]

-- A prefix that the remote side holds and that `lastSent` does not know survives every successful
-- resync, whether it is desired or not.
pub resync_routes_keeps_unknown :
    (s : Peer) (c : Conn) (table : Table) (p : Prefix)
    → (resync_routes s c).0 ≡ true
    → receive_all c.sent table p ≡ true
    → among p s.last_sent ≡ false
    → receive_all (resync_routes s c).2.sent table p ≡ true
resync_routes_keeps_unknown s c table p h held unknown =
    resync_routes-table s c table p h ∙ rw (held, unknown) (ground arith)
