-- ===== src/PrefixFilter/Exclude/Ranges.antt =====
-- The first and the last address of a prefix.
use wdbgp.Prelude.{
  ◌≡◌, ℕ, ◌≤◌, arith, leb, ◌-◌, ◌%◌, ◌^◌, ◌&&◌, suc, ◌/◌, ◌==◌, false, ◌∙◌, zero, refl,
}
use wdbgp.Netip.{Addr, Prefix, bit_len, contains, block_size}
use wdbgp.Netip.Laws.{masked_of_IsMasked}
use wdbgp.Netip.Cover.{IsBlock}
use wdbgp.Prelude.Pow.{pow2_pos, pow2-suc, aligned-half, aligned_high}
use wdbgp.PrefixFilter.Aggregate.Blocks.{same_block}
use wdbgp.PrefixFilter.Exclude.{set_host_bits, last_addr, ◌+◌}

set_host_bits-end : (bits v : ℕ) → v % 2 ^ bits ≡ 0 → set_host_bits bits v + 1 ≡ v + 2 ^ bits
unfolding set_host_bits
set_host_bits-end zero v h = refl
set_host_bits-end (suc bits) v h =
    let even : (v / 2 ^ bits % 2 == 1) ≡ false = ground (arith, aligned-half v bits h) in
    rw even
      (set_host_bits-end bits (v + 2 ^ bits) (aligned_high v bits h) ∙ omega (arith, pow2-suc bits))

-- The last address of a block.
last_of : (p : Prefix) → IsBlock p → (last_addr p).value + 1 ≡ p.addr.value + block_size p
unfolding last_addr
last_of p b =
    rw (masked_of_IsMasked p b.masked)
      (set_host_bits-end (bit_len p.addr - p.bits) p.addr.value b.masked)

-- A block contains the addresses of its family from its first to its last one.
pub block-between :
    (p : Prefix) (x : Addr)
    → IsBlock p
    → bit_len p.addr ≡ bit_len x
    → contains p x ≡ (leb p.addr.value x.value && leb x.value (last_addr p).value)
unfolding contains
block-between p x b e =
    let pos = pow2_pos (bit_len p.addr - p.bits) in
    let block = same_block p.addr.value x.value (block_size p) pos b.masked in
    ground (arith, block, e, last_of p b, b.valid.fits, pos)

pub last-after : (p : Prefix) → IsBlock p → p.addr.value ≤ (last_addr p).value
last-after p b = omega (arith, last_of p b, pow2_pos (bit_len p.addr - p.bits))
