-- ===== src/Bgp/Resync/Table.antt =====
-- The table of the remote side: which prefixes it holds after the UPDATE messages that it received,
-- by RFC 4271 section 3.1 and RFC 4760.
use wdbgp.Prelude.{
  List, Bool, ◌||◌, ◌&&◌, ◌++◌, ◌≡◌, map, Bool-cases, not, any-append, ◌∙◌, [], inl, arith, inr,
  refl,
}
use wdbgp.Netip.{Prefix}
use wdbgp.Bgp.Wire.Types.{PathAttribute, mp_reach_nlri, mp_unreach_nlri, UpdateMessage}
use wdbgp.Bgp.Resync.{
  among, withdraw_v4, withdraw_v6, announcement, announcements, chunk_prefixes, AttrGroup, Peer,
  ◌∷◌, prefix_eq,
}
use wdbgp.Bgp.Resync.Chunks.{joined, chunk_prefixes-Cuts}

abbrev pub Table : Type 0
Table = Prefix → Bool

abbrev reached : List PathAttribute → List Prefix
reached [] = []
reached (mp_reach_nlri _ ps ∷ as') = ps ++ reached as'
reached (_ ∷ as') = reached as'

abbrev unreached : List PathAttribute → List Prefix
unreached [] = []
unreached (mp_unreach_nlri ps ∷ as') = ps ++ unreached as'
unreached (_ ∷ as') = unreached as'

-- What is withdrawn goes, and what is announced is there.
abbrev pub receive : UpdateMessage → Table → Table
receive u table p =
    (among p u.nlri || among p (reached u.path_attributes))
    || (table p && not (among p u.withdrawn_routes || among p (unreached u.path_attributes)))

abbrev pub receive_all : List UpdateMessage → Table → Table
receive_all [] table = table
receive_all (u ∷ us) table = receive_all us (receive u table)

pub receive_all-append :
    (us ws : List UpdateMessage) (table : Table)
    → receive_all (us ++ ws) table ≡ receive_all ws (receive_all us table)
receive_all-append [] ws table = refl
receive_all-append (u ∷ us) ws table = receive_all-append us ws (receive u table)

pub among-append :
    (p : Prefix) (ps qs : List Prefix) → among p (ps ++ qs) ≡ (among p ps || among p qs)
among-append p ps qs = any-append (λ q. prefix_eq q p) ps qs

pub withdraw_v4-chunks :
    (cs : List (List Prefix)) (table : Table) (p : Prefix)
    → receive_all (map withdraw_v4 cs) table p ≡ (table p && not (among p (joined cs)))
withdraw_v4-chunks [] table p = ground arith
withdraw_v4-chunks (c ∷ cs) table p =
    withdraw_v4-chunks cs (receive (withdraw_v4 c) table) p
    ∙ rw (among-append p c (joined cs)) (ground arith)

pub withdraw_v6-chunks :
    (cs : List (List Prefix)) (table : Table) (p : Prefix)
    → receive_all (map withdraw_v6 cs) table p ≡ (table p && not (among p (joined cs)))
withdraw_v6-chunks [] table p = ground arith
withdraw_v6-chunks (c ∷ cs) table p =
    withdraw_v6-chunks cs (receive (withdraw_v6 c) table) p
    ∙ rw (among-append p c (joined cs), among-append p c []) (ground arith)

receive-announcement :
    (s : Peer) (g : AttrGroup) (c : List Prefix) (table : Table) (p : Prefix)
    → receive (announcement s g c) table p ≡ (among p c || table p)
unfolding announcement
receive-announcement s g c table p = elim (Bool-cases g.is6) [
  | inl e ↦ rw (e, among-append p c []) (ground arith)
  | inr e ↦ rw e (ground arith)
]

group-chunks :
    (s : Peer) (g : AttrGroup) (cs : List (List Prefix)) (table : Table) (p : Prefix)
    → receive_all (map (announcement s g) cs) table p ≡ (among p (joined cs) || table p)
group-chunks s g [] table p = refl
group-chunks s g (c ∷ cs) table p =
    group-chunks s g cs (receive (announcement s g c) table) p
    ∙ rw (receive-announcement s g c table p, among-append p c (joined cs)) (ground arith)

-- The prefixes of all groups.
abbrev pub grouped : List AttrGroup → List Prefix
grouped [] = []
grouped (g ∷ gs) = g.nlri ++ grouped gs

pub receive_all-announcements :
    (s : Peer) (gs : List AttrGroup) (table : Table) (p : Prefix)
    → receive_all (announcements s gs) table p ≡ (among p (grouped gs) || table p)
unfolding announcements
receive_all-announcements s [] table p = refl
receive_all-announcements s (g ∷ gs) table p =
    let us = map (announcement s g) (chunk_prefixes g.nlri) in
    rw (receive_all-append us (announcements s gs) table) (
      receive_all-announcements s gs (receive_all us table) p
      ∙ rw
          (
            group-chunks s g (chunk_prefixes g.nlri) table p,
            (chunk_prefixes-Cuts g.nlri).0,
            among-append p g.nlri (grouped gs),
          )
          (ground arith))
