-- ===== src/PrefixFilter/Exclude/Order.antt =====
-- The excludes of one family, sorted: blocks that share no address end in the order in which they
-- start.
use wdbgp.Prelude.{
  ℕ, ◌<◌, ◌≤◌, List, ◌≡◌, All, ◌∙◌, [], arith, true, false, Bool-cases, inl, sym, ap, inr,
  if◌then◌else◌, suc, refl,
}
use wdbgp.Netip.{Addr, Prefix, bit_len, contains, addr_less}
use wdbgp.Netip.Laws.{contains_self}
use wdbgp.Netip.Cover.{hits, IsBlock}
use wdbgp.PrefixFilter.Exclude.{insert_by_addr, sort_by_addr, last_addr, ◌∷◌}
use wdbgp.PrefixFilter.Exclude.Ranges.{block-between, last-after}

abbrev pub IsOf : ℕ → Prefix → Type 0
IsOf bits p = bit_len p.addr ≡ bits

-- Each prefix is related to all that follow it.
abbrev pub Pairwise : (Prefix → Prefix → Type 0) → List Prefix → Type 0
Pairwise R [] = Unit
Pairwise R (p ∷ ps) = All (R p) ps × Pairwise R ps

abbrev pub Starts : Prefix → Prefix → Type 0
Starts p q = p.addr.value ≤ q.addr.value

abbrev pub Ends : Prefix → Prefix → Type 0
Ends p q = (last_addr p).value < (last_addr q).value

All-insert_by_addr :
    (P : Prefix → Type 0) (p : Prefix) (qs : List Prefix)
    → P p
    → All P qs
    → All P (insert_by_addr p qs)
unfolding insert_by_addr
All-insert_by_addr P p [] h hs = (h, tt)
All-insert_by_addr P p (q ∷ qs) h hs = elim (Bool-cases (addr_less q.addr p.addr)) [
  | inl e ↦ rw e (hs.0, All-insert_by_addr P p qs h hs.1)
  | inr e ↦ rw e (h, hs)
]

pub All-sort_by_addr : (P : Prefix → Type 0) (ps : List Prefix) → All P ps → All P (sort_by_addr ps)
unfolding sort_by_addr
All-sort_by_addr P [] h = tt
All-sort_by_addr P (p ∷ ps) h =
    All-insert_by_addr P p (sort_by_addr ps) h.0 (All-sort_by_addr P ps h.1)

hits-insert_by_addr :
    (p : Prefix) (qs : List Prefix) (x : Addr) → hits (insert_by_addr p qs) x ≡ hits (p ∷ qs) x
unfolding insert_by_addr
hits-insert_by_addr p [] x = refl
hits-insert_by_addr p (q ∷ qs) x = elim (Bool-cases (addr_less q.addr p.addr)) [
  | inl e ↦ rw (e, hits-insert_by_addr p qs x) (ground arith)
  | inr e ↦ rw e refl
]

pub hits-sort_by_addr : (ps : List Prefix) (x : Addr) → hits (sort_by_addr ps) x ≡ hits ps x
unfolding sort_by_addr
hits-sort_by_addr [] x = refl
hits-sort_by_addr (p ∷ ps) x =
    hits-insert_by_addr p (sort_by_addr ps) x
    ∙ ap (λ (n : ℕ). if contains p x then suc n else n) (hits-sort_by_addr ps x)

low_start_trans :
    (p q : Prefix) (rs : List Prefix) → Starts p q → All (Starts q) rs → All (Starts p) rs
low_start_trans p q [] h hs = tt
low_start_trans p q (r ∷ rs) h hs = (omega (arith, hs.0), low_start_trans p q rs h hs.1)

insert_by_addr-Starts :
    (bits : ℕ) (p : Prefix) (qs : List Prefix)
    → IsOf bits p
    → All (IsOf bits) qs
    → Pairwise Starts qs
    → Pairwise Starts (insert_by_addr p qs)
unfolding insert_by_addr addr_less
insert_by_addr-Starts bits p [] f fs h = (tt, tt)
insert_by_addr-Starts bits p (q ∷ qs) f fs h = elim (Bool-cases (addr_less q.addr p.addr)) [
  | inl e ↦ rw e (
    All-insert_by_addr (Starts q) p qs (ground (arith, e)) h.0,
    insert_by_addr-Starts bits p qs f fs.1 h.1,
  )
  | inr e ↦
      let le : Starts p q = ground (arith, e, f, fs.0) in
      rw e ((le, low_start_trans p q qs le h.0), h)
]

sort_by_addr-Starts :
    (bits : ℕ) (ps : List Prefix) → All (IsOf bits) ps → Pairwise Starts (sort_by_addr ps)
unfolding sort_by_addr
sort_by_addr-Starts bits [] f = tt
sort_by_addr-Starts bits (p ∷ ps) f =
    insert_by_addr-Starts bits p (sort_by_addr ps) f.0 (All-sort_by_addr (IsOf bits) ps f.1)
      (sort_by_addr-Starts bits ps f.1)

-- A block that starts no earlier than another one, and not in it, ends behind it.
block_order :
    (bits : ℕ) (p q : Prefix)
    → IsBlock p
    → IsBlock q
    → IsOf bits p
    → IsOf bits q
    → Starts p q
    → contains p q.addr ≡ false
    → Ends p q
block_order bits p q bp bq fp fq le out =
    ground (arith, block-between p q.addr bp (fp ∙ sym fq), out, le, last-after q bq)

-- No other prefix of a list without overlaps starts in its first one.
block_order_all :
    (bits : ℕ) (p : Prefix) (qs : List Prefix)
    → IsBlock p
    → IsOf bits p
    → All IsBlock qs
    → All (IsOf bits) qs
    → All (Starts p) qs
    → ((x : Addr) → contains p x ≡ true → hits qs x ≡ 0)
    → All (Ends p) qs
block_order_all bits p [] bp fp bs fs ss out = tt
block_order_all bits p (q ∷ qs) bp fp bs fs ss out = (
  block_order bits p q bp bs.0 fp fs.0 ss.0 (elim (Bool-cases (contains p q.addr)) [
    | inl e ↦ absurd (ground (arith, out q.addr e, contains_self q bs.0.valid))
    | inr e ↦ e
  ]),
  block_order_all bits p qs bp fp bs.1 fs.1 ss.1 (λ x e. ground (arith, out x e)),
)

Pairwise-Ends :
    (bits : ℕ) (ps : List Prefix)
    → All IsBlock ps
    → All (IsOf bits) ps
    → Pairwise Starts ps
    → ((x : Addr) → hits ps x ≤ 1)
    → Pairwise Ends ps
Pairwise-Ends bits [] bs fs ss h = tt
Pairwise-Ends bits (p ∷ ps) bs fs ss h = (
  block_order_all bits p ps bs.0 fs.0 bs.1 fs.1 ss.0 (λ x e. ground (arith, h x, e)),
  Pairwise-Ends bits ps bs.1 fs.1 ss.1 (λ x. ground (arith, h x)),
)

-- The excludes of one family, ready for the cut.
pub record IsReady (bits : ℕ) (es : List Prefix) : Type 0 where
  pub blocks : All IsBlock es
  pub family : All (IsOf bits) es
  pub starts : Pairwise Starts es
  pub ends : Pairwise Ends es

pub sort_by_addr-IsReady :
    (bits : ℕ) (ps : List Prefix)
    → All IsBlock ps
    → All (IsOf bits) ps
    → ((x : Addr) → hits ps x ≤ 1)
    → IsReady bits (sort_by_addr ps)
sort_by_addr-IsReady bits ps b f h =
    let blocks = All-sort_by_addr IsBlock ps b in
    let family = All-sort_by_addr (IsOf bits) ps f in
    let starts = sort_by_addr-Starts bits ps f in
    record {
      blocks = blocks;
      family = family;
      starts = starts;
      ends =
          Pairwise-Ends bits (sort_by_addr ps) blocks family starts
            (λ x. omega (arith, hits-sort_by_addr ps x, h x));
    }
