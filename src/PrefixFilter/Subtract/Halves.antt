-- ===== src/PrefixFilter/Subtract/Halves.antt =====
-- `children` of internal/prefixfilter/filter.go cuts a block into its two halves.
use wdbgp.Prelude.{
  ℕ, suc, ◌+◌, ◌-◌, ◌/◌, ◌%◌, ◌^◌, ◌<◌, ◌≡◌, refl, true, false, ◌&&◌, ◌||◌, ◌==◌, arith,
}
use wdbgp.Prelude.Pow.{
  pow2_pos, pow2-suc, div-pow2-suc, div-add-pow2, aligned-half, aligned_low, aligned_high,
  aligned_room,
}
use wdbgp.Netip.{Prefix, Addr, bit_len, contains, IsPrefix, IsMasked}
use wdbgp.Netip.Laws.{masked_of_IsMasked}
use wdbgp.PrefixFilter.Subtract.{children}

-- `contains` with the number of host bits given by an equation.
contains_at :
    (p : Prefix) (x : Addr) (k : ℕ)
    → IsPrefix p
    → bit_len p.addr - p.bits ≡ k
    → contains p x ≡ (bit_len p.addr == bit_len x && x.value / 2 ^ k == p.addr.value / 2 ^ k)
unfolding contains
contains_at p x k h e = rw (← e) (ground arith)

-- `left` and `right` are the halves of `p`.
pub record AreHalves (p left right : Prefix) : Type 0 where
  pub left_bits : left.bits ≡ p.bits + 1
  pub right_bits : right.bits ≡ p.bits + 1
  pub left_IsPrefix : IsPrefix left
  pub right_IsPrefix : IsPrefix right
  pub left_IsMasked : IsMasked left
  pub right_IsMasked : IsMasked right
  pub cover : (x : Addr) → contains p x ≡ (contains left x || contains right x)
  pub apart : (x : Addr) → contains left x ≡ true → contains right x ≡ false

-- The halves of a block of 2 ^ (j + 1) addresses, in plain arithmetic.
abbrev low_half : Prefix → Prefix
low_half p = record { addr = p.addr; bits = p.bits + 1 }

abbrev high_half : Prefix → ℕ → Prefix
high_half p j = record {
  addr = record { family = p.addr.family; value = p.addr.value + 2 ^ j };
  bits = p.bits + 1;
}

module _ (p : Prefix) (j : ℕ) (h : IsPrefix p) (m : p.addr.value % 2 ^ suc j ≡ 0)
    (w : bit_len p.addr ≡ p.bits + suc j) where
  low_IsPrefix : IsPrefix (low_half p)
  low_IsPrefix = record { fits = omega arith; in_range = h.in_range }

  high_IsPrefix : IsPrefix (high_half p j)
  high_IsPrefix =
      let room = aligned_room p.addr.value (suc j) (bit_len p.addr) (omega arith) m h.in_range in
      record { fits = omega arith; in_range = omega (arith, pow2-suc j, pow2_pos j, room) }

  host_bits : bit_len p.addr - (p.bits + 1) ≡ j
  host_bits = omega arith

  low_IsMasked : IsMasked (low_half p)
  low_IsMasked = rw host_bits (aligned_low p.addr.value j m)

  high_IsMasked : IsMasked (high_half p j)
  high_IsMasked = rw host_bits (aligned_high p.addr.value j m)

  halves-cover : (x : Addr) → contains p x ≡ (contains (low_half p) x || contains (high_half p j) x)
  halves-cover x =
      rw
        (
          contains_at p x (suc j) h (omega arith),
          contains_at (low_half p) x j low_IsPrefix host_bits,
          contains_at (high_half p j) x j high_IsPrefix host_bits,
          div-pow2-suc x.value j,
          div-pow2-suc p.addr.value j,
          div-add-pow2 p.addr.value j,
        )
        (ground (arith, aligned-half p.addr.value j m))

  halves-apart : (x : Addr) → contains (low_half p) x ≡ true → contains (high_half p j) x ≡ false
  halves-apart x e =
      rw (contains_at (high_half p j) x j high_IsPrefix host_bits, div-add-pow2 p.addr.value j)
        (ground (arith, rw (contains_at (low_half p) x j low_IsPrefix host_bits) at e))

  halves_at : AreHalves p (low_half p) (high_half p j)
  halves_at = record {
    left_bits = refl;
    right_bits = refl;
    left_IsPrefix = low_IsPrefix;
    right_IsPrefix = high_IsPrefix;
    left_IsMasked = low_IsMasked;
    right_IsMasked = high_IsMasked;
    cover = halves-cover;
    apart = halves-apart;
  }

children_of_masked :
    (p : Prefix)
    → IsMasked p
    → p.bits < bit_len p.addr
    → children p ≡ (low_half p, high_half p (bit_len p.addr - 1 - p.bits))
unfolding children
children_of_masked p m lt =
    let j = bit_len p.addr - 1 - p.bits in
    let e : bit_len p.addr - p.bits ≡ suc j = omega arith in
    rw (masked_of_IsMasked p m) (ground (arith, aligned-half p.addr.value j (rw e at m)))

-- `children` cuts a masked valid block that is no single address into two masked valid halves, each
-- one bit longer, that have its addresses between them and none in common.
pub children-AreHalves :
    (p : Prefix)
    → IsPrefix p
    → IsMasked p
    → p.bits < bit_len p.addr
    → AreHalves p (children p).0 (children p).1
children-AreHalves p h m lt =
    let j = bit_len p.addr - 1 - p.bits in
    let e : bit_len p.addr - p.bits ≡ suc j = omega arith in
    rw (children_of_masked p m lt) (halves_at p j h (rw e at m) (omega arith))
