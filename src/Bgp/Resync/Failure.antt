-- ===== src/Bgp/Resync/Failure.antt =====
-- A resync that fails: what it wrote, and what it keeps.
use wdbgp.Prelude.{
  refl, List, Bool, ◌≡◌, false, true, Bool-cases, ℕ, ◌<◌, inl, length, inr, ◌++◌, take, arith, [],
  suc, ◌∙◌, append_assoc, sym, append-nil, ap, subst,
}
use wdbgp.Bgp.Wire.Types.{UpdateMessage}
use wdbgp.Bgp.Resync.{Route, Peer, Conn, outcome, later, messages, send_all, announce_routes, ◌∷◌}
use wdbgp.Bgp.Resync.Held.{announce_now}
use wdbgp.Bgp.Resync.Sync.{resync_routes-cases}

-- The messages up to the one that fails are written.
send_all-take :
    (us : List UpdateMessage) (c : Conn)
    → (send_all us c).0 ≡ false
    → (k : ℕ) × (k < length us) × ((send_all us c).1.sent ≡ c.sent ++ take k us)
unfolding send_all
send_all-take [] c h = absurd (ground (arith, h))
send_all-take (u ∷ us) c h = elim (Bool-cases (outcome c.outcomes)) [
  | inl e ↦
      let c' : Conn = record { outcomes = later c.outcomes; sent = c.sent ++ (u ∷ []) } in
      let h' : (send_all us c').0 ≡ false = rw e at h in
      let (k, less, same) = send_all-take us c' h' in
      (suc k, omega (arith, less), rw e (same ∙ append_assoc c.sent (u ∷ []) (take k us)))
  | inr e ↦ (0, omega arith, rw e (sym (append-nil c.sent)))
]

-- What `AnnounceRoutes` leaves when it fails.
pub record Refused (s : Peer) (routes : List Route) (c : Conn) (x : Bool × Peer × Conn)
    : Type 0 where
  pub was_up : s.established ≡ true
  pub peer : x.1 ≡ record s { routes = routes; needs_update = true }
  pub written :
      let us = messages (record s { routes = routes }) in
      (k : ℕ) × (k < length us) × (x.2.sent ≡ c.sent ++ take k us)

abbrev first : Bool × Peer × Conn → Bool
first x = x.0

-- Without a session the routes wait for it.
announce_later :
    (s : Peer) (routes : List Route) (c : Conn)
    → s.established ≡ false
    → announce_routes routes s c ≡ (true, record s { routes = routes; needs_update = true }, c)
unfolding announce_routes
announce_later s routes c down = rw down refl

-- `AnnounceRoutes` fails only on an established session. It then stores the routes, asks for another
-- update and leaves `lastSent` as it is, and the messages before the failed one were written.
pub announce_routes-Refused :
    (s : Peer) (routes : List Route) (c : Conn)
    → (announce_routes routes s c).0 ≡ false
    → Refused s routes c (announce_routes routes s c)
announce_routes-Refused s routes c h = elim (Bool-cases s.established) [
  | inl up ↦ elim (resync_routes-cases (record s { routes = routes }) c) [
    | inl (e, same) ↦ absurd (ground (arith, ap first (announce_now s c routes up ∙ same)))
    | inr (e, same) ↦ subst (Refused s routes c) (sym (announce_now s c routes up ∙ same)) (record {
      was_up = up;
      peer = refl;
      written = send_all-take (messages (record s { routes = routes })) c e;
    })
  ]
  | inr down ↦ absurd (ground (arith, ap first (announce_later s routes c down)))
]
