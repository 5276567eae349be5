-- ===== src/PrefixFilter/Aggregate.antt =====
-- internal/prefixfilter/aggregate.go: the blocks that cover the addresses of a list. A `big.Int` is a
-- natural number here: none of them is negative, but for the gap of two ranges, which is compared
-- without the subtraction.
pub mod Blocks
pub mod Merge
pub mod Laws
mod Runs
use wdbgp.Prelude.{
  ◌+◌, ℕ, List, Bool, suc, ◌==◌, ◌∷◌, if◌then◌else◌, map, ◌^◌, ◌-◌, [], leb, ltb, ◌++◌, keep, ◌/◌,
  ◌%◌, zero,
}
use wdbgp.Netip.{Family, v4, v6, width, Addr, Prefix, bit_len, masked, is_valid}

-- `addrRange`, whose last address belongs to it.
pub record AddrRange : Type 0 where
  pub start : ℕ
  pub end : ℕ

-- `prefixToRange`.
abbrev pub prefix_to_range : Prefix → AddrRange
prefix_to_range p = record {
  start = p.addr.value;
  end = p.addr.value + 2 ^ (bit_len p.addr - p.bits) - 1;
}

-- The loop of `trailingZeroBits`: `rounds` bits from bit `i` on are left.
pub zero_bits_from : ℕ → ℕ → ℕ → ℕ
zero_bits_from zero i v = i
zero_bits_from (suc rounds) i v =
    let rest = zero_bits_from rounds (i + 1) v in if v / 2 ^ i % 2 == 1 then i else rest

-- `trailingZeroBits`.
abbrev pub trailing_zero_bits : ℕ → ℕ → ℕ
trailing_zero_bits v bits = zero_bits_from bits 0 v

-- `BitLen() - 1` of a number from one to 2 ^ bits: the largest power of two in it.
pub log_below : ℕ → ℕ → ℕ
log_below zero n = 0
log_below (suc k) n = let rest = log_below k n in if leb (2 ^ suc k) n then suc k else rest

abbrev pub align_bits : ℕ → ℕ → ℕ
align_bits bits cur = if cur == 0 then bits else trailing_zero_bits cur bits

abbrev pub fit_bits : ℕ → ℕ → ℕ → ℕ
fit_bits bits cur end = log_below bits (end - cur + 1)

-- `blockHostBits`.
abbrev pub block_host_bits : ℕ → ℕ → ℕ → ℕ
block_host_bits bits cur end =
    if ltb (fit_bits bits cur end) (align_bits bits cur)
    then (fit_bits bits cur end)
    else align_bits bits cur

-- The loop of `rangeToPrefixes`. Each round takes at least one address, so that as many rounds as
-- the range has addresses are enough.
pub range_loop : ℕ → Family → ℕ → ℕ → List Prefix
unfolding zero_bits_from log_below
range_loop zero family cur end = []
range_loop (suc rounds) family cur end =
    let host = block_host_bits (width family) cur end in
    let rest = range_loop rounds family (cur + 2 ^ host) end in
    if leb cur end
    then record { addr = record { family = family; value = cur }; bits = width family - host }
      ∷ rest
    else []

-- `rangeToPrefixes`.
abbrev pub range_to_prefixes : Family → AddrRange → List Prefix
range_to_prefixes family r = range_loop (r.end + 1 - r.start) family r.start r.end

pub insert_range : AddrRange → List AddrRange → List AddrRange
insert_range r [] = r ∷ []
insert_range r (s ∷ ss) = if ltb s.start r.start then s ∷ insert_range r ss else r ∷ s ∷ ss

-- `sort.Slice` by the start. The merge does not depend on the order of ranges with the same start.
pub sort_ranges : List AddrRange → List AddrRange
unfolding insert_range
sort_ranges [] = []
sort_ranges (r ∷ rs) = insert_range r (sort_ranges rs)

-- The merge loop with `last`, the last merged range.
pub merge_loop : AddrRange → List AddrRange → List AddrRange
merge_loop last [] = last ∷ []
merge_loop last (r ∷ rs) =
    let wider = merge_loop (if ltb last.end r.end then record last { end = r.end } else last) rs in
    let apart = merge_loop r rs in if leb r.start (last.end + 1) then wider else last ∷ apart

abbrev pub merge_ranges : List AddrRange → List AddrRange
merge_ranges [] = []
merge_ranges (r ∷ rs) = merge_loop r rs

-- The blocks of the merged ranges.
abbrev pub blocks_of : Family → List AddrRange → List Prefix
blocks_of family [] = []
blocks_of family (r ∷ rs) = range_to_prefixes family r ++ blocks_of family rs

-- `aggregateFamily`.
pub aggregate_family : Family → List Prefix → List Prefix
unfolding range_loop sort_ranges merge_loop
aggregate_family family prefixes =
    blocks_of family (merge_ranges (sort_ranges (map prefix_to_range prefixes)))

abbrev pub is_family : Family → Prefix → Bool
is_family family p = bit_len p.addr == width family

-- `Aggregate`.
pub aggregate : List Prefix → List Prefix
unfolding aggregate_family
aggregate prefixes =
    let blocks = map masked (keep is_valid prefixes) in
    aggregate_family v4 (keep (is_family v4) blocks)
    ++ aggregate_family v6 (keep (is_family v6) blocks)
