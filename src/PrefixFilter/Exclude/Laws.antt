-- ===== src/PrefixFilter/Exclude/Laws.antt =====
-- `ExcludeSet.Subtract` as an operation on sets of addresses.
use wdbgp.Prelude.{
  List, ℕ, All, take, ◌≡◌, ◌||◌, suc, ◌<◌, [], ◌≤◌, arith, zero, false, true, ◌∙◌, Bool-cases, sym,
  inl, inr, refl, ap, Bool,
}
use wdbgp.Netip.{Addr, Prefix, bit_len, contains, addr_less}
use wdbgp.Netip.Cover.{covered, IsBlock}
use wdbgp.PrefixFilter.Exclude.{search_after, reverse_onto, ◌∷◌}
use wdbgp.PrefixFilter.Exclude.Ranges.{block-between}
use wdbgp.PrefixFilter.Exclude.Order.{IsOf, Pairwise, Starts, Ends}
use wdbgp.PrefixFilter.Exclude.Punch.{EndsBefore}

pub covered-reverse_onto :
    (done ps : List Prefix) (x : Addr)
    → covered (reverse_onto done ps) x ≡ (covered done x || covered ps x)
covered-reverse_onto done [] x = ground arith
covered-reverse_onto done (p ∷ ps) x = covered-reverse_onto (p ∷ done) ps x ∙ ground arith

pub All-reverse_onto :
    (P : Prefix → Type 0) (done ps : List Prefix)
    → All P done
    → All P ps
    → All P (reverse_onto done ps)
All-reverse_onto P done [] hd hp = hd
All-reverse_onto P done (p ∷ ps) hd hp = All-reverse_onto P (p ∷ done) ps (hp.0, hd) hp.1

-- Everything that was done ends before everything that is left.
pub reverse_onto-EndsBefore :
    (done ps : List Prefix)
    → Pairwise EndsBefore done
    → Pairwise Ends ps
    → All (λ p. All (EndsBefore p) done) ps
    → Pairwise EndsBefore (reverse_onto done ps)
reverse_onto-EndsBefore done [] d e h = d
reverse_onto-EndsBefore done (p ∷ ps) d e h =
    reverse_onto-EndsBefore (p ∷ done) ps (h.0, d) e.1 (both p done ps e.0 h.1)
  where
    both :
        (p : Prefix) (done ps : List Prefix)
        → All (Ends p) ps
        → All (λ q. All (EndsBefore q) done) ps
        → All (λ q. All (EndsBefore q) (p ∷ done)) ps
    both p done [] e h = tt
    both p done (q ∷ qs) e h = ((e.0, h.0), both p done qs e.1 h.1)

pub All-take : (P : Prefix → Type 0) (n : ℕ) (ps : List Prefix) → All P ps → All P (take n ps)
All-take P zero ps h = tt
All-take P (suc n) [] h = tt
All-take P (suc n) (p ∷ ps) h = (h.0, All-take P n ps h.1)

pub Pairwise-take :
    (R : Prefix → Prefix → Type 0) (n : ℕ) (ps : List Prefix)
    → Pairwise R ps
    → Pairwise R (take n ps)
Pairwise-take R zero ps h = tt
Pairwise-take R (suc n) [] h = tt
Pairwise-take R (suc n) (p ∷ ps) h = (All-take (R p) n ps h.0, Pairwise-take R n ps h.1)

pub none_done : (ps : List Prefix) → All (λ p. All (EndsBefore p) []) ps
none_done [] = tt
none_done (p ∷ ps) = (tt, none_done ps)

-- What starts behind an address does not contain it.
above-covered :
    (bits : ℕ) (low : ℕ) (es : List Prefix) (x : Addr)
    → All IsBlock es
    → All (IsOf bits) es
    → bit_len x ≡ bits
    → x.value < low
    → All (λ e. low ≤ e.addr.value) es
    → covered es x ≡ false
above-covered bits low [] x bs fs fx lt hs = refl
above-covered bits low (e ∷ es) x bs fs fx lt hs =
    let rest = above-covered bits low es x bs.1 fs.1 fx lt hs.1 in
    ground (arith, rest, block-between e x bs.0 (fs.0 ∙ sym fx), hs.0, lt)

-- The excludes before the index are all that matter up to `end`.
pub take-covered :
    (bits : ℕ) (end : Addr) (es : List Prefix) (x : Addr)
    → All IsBlock es
    → All (IsOf bits) es
    → Pairwise Starts es
    → bit_len end ≡ bits
    → bit_len x ≡ bits
    → x.value ≤ end.value
    → covered (take (search_after end es) es) x ≡ covered es x
unfolding search_after addr_less
take-covered bits end [] x bs fs ss fe fx le = refl
take-covered bits end (e ∷ es) x bs fs ss fe fx le = elim (Bool-cases (addr_less end e.addr)) [
  | inl behind ↦
      let lt : x.value < e.addr.value = far end e.addr fe fs.0 behind (omega arith) in
      let no : covered (e ∷ es) x ≡ false =
        above-covered bits e.addr.value (e ∷ es) x bs fs fx lt (omega arith, ss.0) in
      rw behind (sym no)
  | inr before ↦
      rw before
        (ap (λ (b : Bool). contains e x || b) (take-covered bits end es x bs.1 fs.1 ss.1 fe fx le))
]
  where
    far :
        (a b : Addr)
        → bit_len a ≡ bits
        → bit_len b ≡ bits
        → addr_less a b ≡ true
        → end.value ≤ a.value
        → x.value < b.value
    far a b fa fb h l = ground (arith, h, fa, fb, l, le)
