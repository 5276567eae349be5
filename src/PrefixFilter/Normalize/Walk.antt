-- ===== src/PrefixFilter/Normalize/Walk.antt =====
-- The binary trie of `normalizeWithTrie` (internal/prefixfilter/filter.go) answers as a scan of the
-- inserted prefixes does.
use wdbgp.Prelude.{
  ℕ, ◌/◌, ◌<◌, ◌≡◌, Bool, ◌||◌, ◌+◌, arith, ◌^◌, not, ◌-◌, ◌%◌, leb, ◌==◌, ◌&&◌, if◌then◌else◌, ◌≤◌,
  true, sym, ◌≢◌, ◌∙◌, false, Bool-cases, inl, inr, some,
}
use wdbgp.Prelude.{refl, zero, suc, Bool-cases, inl, inr, some}
use wdbgp.Prelude.Pow.{div-pow2-suc, div-pow2_mono}
use wdbgp.Netip.{Prefix, Addr, contains, bit_len}
use wdbgp.Netip.Laws.{contains→IsIn, IsIn→contains}
use wdbgp.PrefixFilter.Normalize.{
  Trie, nil, node, bit_at, stored_covers, trie_covers, stored_in, left_of, right_of, trie_insert,
}
use wdbgp.PrefixFilter.Normalize.Select.{covers}

-- One step of the walk, at a null pointer too.
abbrev walk : (t : Trie) (d : ℕ) (p : Prefix) → Bool
walk t d p =
    stored_covers (stored_in t) p
    || (not (leb p.bits d)
        && (if bit_at p.addr d
            then trie_covers (right_of t) (d + 1) p
            else trie_covers (left_of t) (d + 1) p))

trie_covers-walk : (t : Trie) (d : ℕ) (p : Prefix) → trie_covers t d p ≡ walk t d p
unfolding trie_covers stored_in left_of right_of
trie_covers-walk nil d p = ground arith
trie_covers-walk (node s l r) d p = ground arith

-- The first `d` bits of two addresses of one family agree.
abbrev pub Agree : ℕ → Addr → Addr → Type 0
Agree d a b = a.value / 2 ^ (bit_len a - d) ≡ b.value / 2 ^ (bit_len a - d)

bit_at_lem :
    (a : Addr) (d w : ℕ)
    → bit_len a ≡ w
    → d < w
    → bit_at a d ≡ (a.value / 2 ^ (w - (d + 1)) % 2 == 1)
unfolding bit_at
bit_at_lem a d w e h =
    let shift : bit_len a - 1 - d ≡ w - (d + 1) = omega arith in rw shift (ground arith)

upper :
    (a : Addr) (d : ℕ) (x : ℕ)
    → d < bit_len a
    → x / 2 ^ (bit_len a - d) ≡ x / 2 ^ (bit_len a - (d + 1)) / 2
upper a d x h =
    let e : bit_len a - d ≡ suc (bit_len a - (d + 1)) = omega arith in
    rw e (div-pow2-suc x (bit_len a - (d + 1)))

-- Agreement on one bit more is agreement and the same next bit.
Agree-next :
    (d : ℕ) (a b : Addr)
    → bit_len a ≡ bit_len b
    → d < bit_len a
    → Agree d a b
    → bit_at a d ≡ bit_at b d
    → Agree (d + 1) a b
Agree-next d a b w h g e = ground (
  arith,
  upper a d a.value h,
  upper a d b.value h,
  bit_at_lem a d (bit_len a) refl h,
  bit_at_lem b d (bit_len a) (sym w) h,
)

Agree-bit :
    (d : ℕ) (a b : Addr)
    → bit_len a ≡ bit_len b
    → d < bit_len a
    → Agree (d + 1) a b
    → bit_at a d ≡ bit_at b d
Agree-bit d a b w h g =
    bit_at_lem a d (bit_len a) refl h ∙ rw g (sym (bit_at_lem b d (bit_len a) (sym w) h))

-- The address of `q` begins with the path that the insertion follows.
pub record OnPath (n d : ℕ) (q p : Prefix) : Type 0 where
  pub same : bit_len p.addr ≡ bit_len q.addr
  pub agree : Agree d p.addr q.addr
  pub left : d + n ≡ q.bits
  pub q_fits : q.bits ≤ bit_len q.addr
  pub p_fits : p.bits ≤ bit_len p.addr
  pub deep : d ≤ p.bits

-- At the end of the path the stored prefix covers whatever comes there.
covers_end : (d : ℕ) (q p : Prefix) → OnPath 0 d q p → covers q p ≡ true
covers_end d q p o =
    let e : d ≡ q.bits = omega (arith, o.left) in
    let here : contains q p.addr ≡ true =
      IsIn→contains q p.addr
        (record { fits = o.q_fits; same = sym o.same; block = rw (← e, ← o.same) o.agree }) in
    ground (arith, here, o.deep, e)

covers_short : (n d : ℕ) (q p : Prefix) → OnPath (suc n) d q p → p.bits ≤ d → covers q p ≡ false
covers_short n d q p o h = ground (arith, o.left)

-- A prefix that leaves the path is not covered.
covers_off :
    (n d : ℕ) (q p : Prefix)
    → OnPath (suc n) d q p
    → bit_at p.addr d ≢ bit_at q.addr d
    → covers q p ≡ false
covers_off n d q p o ne = elim (Bool-cases (contains q p.addr)) [
  | inl e ↦
      let block = (contains→IsIn q p.addr e).block in
      let agree : Agree (d + 1) p.addr q.addr = rw o.same (
        div-pow2_mono p.addr.value q.addr.value (bit_len q.addr - q.bits) (bit_len q.addr - (d + 1))
          (omega (arith, o.left)) block) in
      absurd (ne (Agree-bit d p.addr q.addr o.same (omega (arith, o.left, o.q_fits, o.same)) agree))
  | inr e ↦ ground arith
]

OnPath-next :
    (n d : ℕ) (q p : Prefix)
    → OnPath (suc n) d q p
    → d < p.bits
    → bit_at p.addr d ≡ bit_at q.addr d
    → OnPath n (d + 1) q p
OnPath-next n d q p o h e = record {
  same = o.same;
  agree = Agree-next d p.addr q.addr o.same (omega (arith, o.p_fits)) o.agree e;
  left = omega (arith, o.left);
  q_fits = o.q_fits;
  p_fits = o.p_fits;
  deep = omega arith;
}

trie_insert-zero :
    (d : ℕ) (q : Prefix) (t : Trie) → trie_insert 0 d q t ≡ node (some q) (left_of t) (right_of t)
unfolding trie_insert
trie_insert-zero d q t = refl

module _ (n d : ℕ) (q : Prefix) (t : Trie) where
  insert_right :
      bit_at q.addr d ≡ true
      → trie_insert (suc n) d q t
        ≡ node (stored_in t) (left_of t) (trie_insert n (d + 1) q (right_of t))
  unfolding trie_insert
  insert_right e = ground arith

  insert_left :
      bit_at q.addr d ≡ false
      → trie_insert (suc n) d q t
        ≡ node (stored_in t) (trie_insert n (d + 1) q (left_of t)) (right_of t)
  unfolding trie_insert
  insert_left e = ground arith

-- After the insertion of `q` the walk finds what it found before, and `q`.
pub trie_covers-insert :
    (n d : ℕ) (q p : Prefix) (t : Trie)
    → OnPath n d q p
    → trie_covers (trie_insert n d q t) d p ≡ (trie_covers t d p || covers q p)
unfolding stored_in left_of right_of stored_covers
trie_covers-insert zero d q p t o =
    rw (trie_insert-zero d q t, trie_covers-walk (node (some q) (left_of t) (right_of t)) d p)
      (ground (arith, covers_end d q p o))
trie_covers-insert (suc n) d q p t o = elim (Bool-cases (bit_at q.addr d)) [
  | inl e ↦
      rw
        (
          insert_right n d q t e,
          trie_covers-walk t d p,
          trie_covers-walk (node (stored_in t) (left_of t) (trie_insert n (d + 1) q (right_of t))) d
              p,
        )
        (ground (
          arith,
          covers_short n d q p o,
          covers_off n d q p o,
          trie_covers-insert n (d + 1) q p (right_of t),
          OnPath-next n d q p o,
        ))
  | inr e ↦
      rw
        (
          insert_left n d q t e,
          trie_covers-walk t d p,
          trie_covers-walk (node (stored_in t) (trie_insert n (d + 1) q (left_of t)) (right_of t)) d
              p,
        )
        (ground (
          arith,
          covers_short n d q p o,
          covers_off n d q p o,
          trie_covers-insert n (d + 1) q p (left_of t),
          OnPath-next n d q p o,
        ))
]
