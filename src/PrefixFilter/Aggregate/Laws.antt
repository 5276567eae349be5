-- ===== src/PrefixFilter/Aggregate/Laws.antt =====
-- `Aggregate` as an operation on sets of addresses.
use wdbgp.Prelude.{
  false, List, ◌≡◌, true, if◌then◌else◌, ◌==◌, ◌+◌, ℕ, map, ◌%◌, arith, ◌∙◌, ◌-◌, ap, [], Bool,
  ◌&&◌, keep, refl, ◌⊎◌, inl, Bool-cases, inr,
}
use wdbgp.Netip.{
  Family, v4, v6, width, Addr, Prefix, bit_len, contains, masked, is_valid, block_size,
}
use wdbgp.Netip.Laws.{contains-masked, masked-IsMasked, bit_len-masked}
use wdbgp.Netip.Cover.{hits-append, hits, once, covered}
use wdbgp.Prelude.Pow.{pow2_pos}
use wdbgp.PrefixFilter.Aggregate.{
  AddrRange, prefix_to_range, range_to_prefixes, merge_ranges, sort_ranges, blocks_of, is_family,
  aggregate_family, aggregate, ◌∷◌,
}
use wdbgp.PrefixFilter.Aggregate.Merge.{is_in, in_any, range_hits, merge_ranges-hits}
use wdbgp.PrefixFilter.Aggregate.Blocks.{range_to_prefixes-hits, same_block}

blocks_of-hits :
    (family : Family) (rs : List AddrRange) (x : Addr)
    → hits (blocks_of family rs) x
      ≡ (if width family == bit_len x then range_hits rs x.value else 0)
blocks_of-hits family [] x = ground arith
blocks_of-hits family (r ∷ rs) x =
    hits-append (range_to_prefixes family r) (blocks_of family rs) x
    ∙ rw (range_to_prefixes-hits family r x, blocks_of-hits family rs x)
        (sum (width family == bit_len x) (is_in r x.value) (range_hits rs x.value))
  where
    sum :
        (same inside : Bool) (n : ℕ)
        → once (same && inside) + (if same then n else 0) ≡ (if same then once inside + n else 0)
    sum true inside n = refl
    sum false inside n = refl

aggregate_family-hits :
    (family : Family) (ps : List Prefix) (x : Addr)
    → hits (aggregate_family family ps) x
      ≡ (if width family == bit_len x then once (in_any (map prefix_to_range ps) x.value) else 0)
unfolding aggregate_family
aggregate_family-hits family ps x =
    blocks_of-hits family (merge_ranges (sort_ranges (map prefix_to_range ps))) x
    ∙ ap (λ (n : ℕ). if width family == bit_len x then n else 0)
        (merge_ranges-hits (map prefix_to_range ps) x.value)

-- The range of a prefix has its addresses.
is_in-masked :
    (p : Prefix) (x : Addr)
    → is_valid p ≡ true
    → bit_len p.addr ≡ bit_len x
    → is_in (prefix_to_range (masked p)) x.value ≡ contains p x
unfolding masked contains
is_in-masked p x valid same =
    let m = block_size p in
    let start : ℕ = (masked p).addr.value in
    let aligned : start % m ≡ 0 = masked-IsMasked p in
    let block = same_block start x.value m (pow2_pos (bit_len p.addr - p.bits)) aligned in
    ground (arith, block, valid, same, pow2_pos (bit_len p.addr - p.bits)) ∙ contains-masked p x

contains-invalid : (p : Prefix) (x : Addr) → is_valid p ≡ false → contains p x ≡ false
unfolding contains
contains-invalid p x h = rw h refl

contains-other :
    (p : Prefix) (x : Addr) → (bit_len p.addr == bit_len x) ≡ false → contains p x ≡ false
unfolding contains
contains-other p x h = ground (arith, h)

-- The ranges that `Aggregate` makes of the prefixes of one family.
in_any-kept :
    (family : Family) (ps : List Prefix) (x : Addr)
    → width family ≡ bit_len x
    → in_any (map prefix_to_range (keep (is_family family) (map masked (keep is_valid ps)))) x.value
      ≡ covered ps x
in_any-kept family [] x e = refl
in_any-kept family (p ∷ ps) x e =
    let rest = in_any-kept family ps x e in
    elim (Bool-cases (is_valid p)) [
      | inr bad ↦ let out : contains p x ≡ false = contains-invalid p x bad in rw (bad, out) rest
      | inl good ↦ elim (Bool-cases (is_family family (masked p))) [
        | inl same ↦
            let inside = is_in-masked p x good (ground (arith, same, e, bit_len-masked p)) in
            rw (good, same, inside, rest) refl
        | inr other ↦
            let out : contains p x ≡ false =
              contains-other p x (ground (arith, other, e, bit_len-masked p)) in
            rw (good, other, out) rest
      ]
    ]

family_of : (x : Addr) → (width v4 ≡ bit_len x) ⊎ (width v6 ≡ bit_len x)
family_of x = go x.family
  where
    go : (f : Family) → (32 ≡ width f) ⊎ (128 ≡ width f)
    go v4 = inl refl
    go v6 = inr refl

-- `Aggregate` keeps exactly the addresses that the list covers, and each of them is in one of its
-- blocks; invalid prefixes cover none.
pub aggregate-hits : (ps : List Prefix) (x : Addr) → hits (aggregate ps) x ≡ once (covered ps x)
unfolding aggregate
aggregate-hits ps x =
    let blocks : List Prefix = map masked (keep is_valid ps) in
    let low = aggregate_family-hits v4 (keep (is_family v4) blocks) x in
    let high = aggregate_family-hits v6 (keep (is_family v6) blocks) x in
    hits-append (aggregate_family v4 (keep (is_family v4) blocks))
      (aggregate_family v6 (keep (is_family v6) blocks)) x
    ∙ elim (family_of x) [
      | inl e ↦ let all = in_any-kept v4 ps x e in ground (arith, low, high, e, ap once all)
      | inr e ↦ let all = in_any-kept v6 ps x e in ground (arith, low, high, e, ap once all)
    ]
