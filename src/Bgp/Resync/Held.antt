-- ===== src/Bgp/Resync/Held.antt =====
-- `AnnounceRoutes` and `WithdrawRoutes` on an established session: the remote table is the desired
-- set as long as every call succeeds.
use wdbgp.Prelude.{
  false, ◌≡◌, Bool, List, keep, not, true, ◌&&◌, ◌∙◌, ap, [], refl, if◌then◌else◌, sym, ◌||◌, arith,
  subst,
}
use wdbgp.Netip.{Prefix, prefix_eq}
use wdbgp.Netip.Laws.{prefix_eq→eq}
use wdbgp.Bgp.Resync.{
  Route, Peer, Conn, among, is_6, prefixes_of, sendable_prefixes, resync_routes, announce_routes,
  withdraw_routes, ◌∷◌,
}
use wdbgp.Bgp.Resync.Table.{Table, receive_all}
use wdbgp.Bgp.Resync.Sync.{keep-step, resync_routes-table, resync_routes-peer}

-- The peer takes IPv6 routes, or this is none.
abbrev pub is_taken : Peer → Prefix → Bool
is_taken s p = not (is_6 p && not s.has_ipv6_cap)

-- `lastSent` is what the remote side holds.
pub record IsInSync (s : Peer) (table : Table) : Type 0 where
  pub held : (p : Prefix) → table p ≡ among p s.last_sent
  pub taken : (p : Prefix) → among p s.last_sent ≡ true → is_taken s p ≡ true

among-route-if :
    (b : Bool) (r : Route) (p : Prefix) (rs : List Route)
    → among p (prefixes_of (if b then r ∷ rs else rs))
      ≡ (if b then prefix_eq r.prefix p || among p (prefixes_of rs) else among p (prefixes_of rs))
among-route-if true r p rs = refl
among-route-if false r p rs = refl

among-prefixes_of :
    (f : Prefix → Bool) (rs : List Route) (p : Prefix)
    → among p (prefixes_of (keep (λ r. f r.prefix) rs)) ≡ (among p (prefixes_of rs) && f p)
among-prefixes_of f [] p = refl
among-prefixes_of f (r ∷ rs) p =
    among-route-if (f r.prefix) r p (keep (λ r'. f r'.prefix) rs)
    ∙ keep-step (prefix_eq r.prefix p) (f r.prefix) (f p) (among p (prefixes_of rs))
        (among p (prefixes_of (keep (λ r'. f r'.prefix) rs)))
        (λ h. ap f (prefix_eq→eq r.prefix p h)) (among-prefixes_of f rs p)

-- What the remote side is to hold of these routes.
abbrev pub wanted : Peer → List Route → Table
wanted s routes p = among p (prefixes_of routes) && is_taken s p

settle :
    (desired can last : Bool)
    → (last ≡ true → can ≡ true)
    → ((desired && can) || (last && not (last && not desired))) ≡ (desired && can)
settle desired can true h = ground (arith, h refl)
settle desired can false h = ground arith

and-right : (a b : Bool) → (a && b) ≡ true → b ≡ true
and-right a b h = ground arith

pub resync_routes-IsInSync :
    (s : Peer) (c : Conn) (table : Table)
    → IsInSync s (receive_all c.sent table)
    → (resync_routes s c).0 ≡ true
    → IsInSync (resync_routes s c).1 (receive_all (resync_routes s c).2.sent table)
      × ((p : Prefix) → receive_all (resync_routes s c).2.sent table p ≡ wanted s s.routes p)
resync_routes-IsInSync s c table sync h =
    let sendable = among-prefixes_of (is_taken s) s.routes in
    let exact : (p : Prefix)
        → receive_all (resync_routes s c).2.sent table p ≡ wanted s s.routes p =
      λ p.
        resync_routes-table s c table p h
        ∙ rw (sync.held p, sendable p)
            (settle (among p (prefixes_of s.routes)) (is_taken s p) (among p s.last_sent)
              (sync.taken p)) in
    let after : IsInSync (record s { last_sent = sendable_prefixes s })
        (receive_all (resync_routes s c).2.sent table) =
      record {
        held = λ p. exact p ∙ sym (sendable p);
        taken =
            λ p m. and-right (among p (prefixes_of s.routes)) (is_taken s p) (sym (sendable p) ∙ m);
      } in
    (
      subst (λ (s' : Peer). IsInSync s' (receive_all (resync_routes s c).2.sent table))
          (sym (resync_routes-peer s c h)) after,
      exact,
    )

-- A resync of a session in sync, reached in one step.
abbrev Settles : Peer → Table → Table → Bool × Peer × Conn → Type 0
Settles s table goal x =
    IsInSync x.1 (receive_all x.2.sent table)
    × ((p : Prefix) → receive_all x.2.sent table p ≡ goal p)

with_routes-Settles :
    (s : Peer) (c : Conn) (table : Table) (routes : List Route) (x : Bool × Peer × Conn)
    → x ≡ resync_routes (record s { routes = routes }) c
    → IsInSync s (receive_all c.sent table)
    → x.0 ≡ true
    → Settles s table (wanted s routes) x
with_routes-Settles s c table routes x now sync h =
    subst (Settles s table (wanted s routes)) (sym now) (
      resync_routes-IsInSync (record s { routes = routes }) c table
        (record { held = sync.held; taken = sync.taken })
        (ap (λ (y : Bool × Peer × Conn). y.0) (sym now) ∙ h))

pub announce_now :
    (s : Peer) (c : Conn) (routes : List Route)
    → s.established ≡ true
    → announce_routes routes s c ≡ resync_routes (record s { routes = routes }) c
unfolding announce_routes
announce_now s c routes up = rw up refl

-- The routes that `WithdrawRoutes` keeps.
abbrev kept : List Prefix → List Route → List Route
kept prefixes routes = keep (λ r. not (among r.prefix prefixes)) routes

withdraw_now :
    (s : Peer) (c : Conn) (prefixes : List Prefix)
    → s.established ≡ true
    → withdraw_routes prefixes s c ≡ resync_routes (record s { routes = kept prefixes s.routes }) c
unfolding withdraw_routes
withdraw_now s c prefixes up = rw up refl

module _ (s : Peer) (c : Conn) (table : Table) where
  -- Announcing routes on an established session in sync keeps it in sync if it succeeds, and the
  -- remote side then holds exactly the prefixes of these routes that it takes.
  pub announce_routes-IsInSync :
      (routes : List Route)
      → s.established ≡ true
      → IsInSync s (receive_all c.sent table)
      → let (done, s', c') = announce_routes routes s c in
        done ≡ true
        → IsInSync s' (receive_all c'.sent table)
          × ((p : Prefix) → receive_all c'.sent table p ≡ wanted s routes p)
  announce_routes-IsInSync routes up sync h =
      with_routes-Settles s c table routes (announce_routes routes s c) (announce_now s c routes up)
        sync h

  -- Withdrawing prefixes on an established session in sync keeps it in sync if it succeeds, and the
  -- remote side then holds the prefixes that it takes of the other routes, and none of these.
  pub withdraw_routes-IsInSync :
      (prefixes : List Prefix)
      → s.established ≡ true
      → IsInSync s (receive_all c.sent table)
      → let (done, s', c') = withdraw_routes prefixes s c in
        done ≡ true
        → IsInSync s' (receive_all c'.sent table)
          × ((p : Prefix)
              → receive_all c'.sent table p ≡ (wanted s s.routes p && not (among p prefixes)))
  withdraw_routes-IsInSync prefixes up sync h =
      let (after, holds) =
        with_routes-Settles s c table (kept prefixes s.routes) (withdraw_routes prefixes s c)
          (withdraw_now s c prefixes up) sync h in
      (
        after,
        λ p.
            holds p
            ∙ rw (among-prefixes_of (λ q. not (among q prefixes)) s.routes p) (ground arith),
      )
