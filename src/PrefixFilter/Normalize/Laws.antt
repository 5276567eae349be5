-- ===== src/PrefixFilter/Normalize/Laws.antt =====
-- `normalize` of internal/prefixfilter/filter.go as an operation on sets of addresses.
use wdbgp.Prelude.{
  ◌<◌, List, ◌^◌, [], All, map, leb, ◌≡◌, keep, length, ◌≤◌, arith, ◌∙◌, true, Bool-cases, sym, inl,
  leb→le, inr, refl,
}
use wdbgp.Netip.{Prefix, Addr, contains, masked, is_valid, bit_len, IsPrefix}
use wdbgp.Netip.Laws.{
  contains→IsIn, contains-masked, masked-IsMasked, masked-IsPrefix, masked_of_IsMasked,
}
use wdbgp.Netip.Cover.{covered, hits, IsBlock}
use wdbgp.PrefixFilter.Normalize.{member, unique, sort_prefixes, normalize, ◌∷◌}
use wdbgp.PrefixFilter.Normalize.Select.{
  select, select-covered, select-hits, IsSorted, Before-nil, All-select, length-select, select-nil,
}
use wdbgp.PrefixFilter.Normalize.Refine.{drop_covered-select, select_one}
use wdbgp.PrefixFilter.Normalize.Sorted.{
  sort_prefixes-IsSorted, any-sort_prefixes, All-sort_prefixes, length-sort_prefixes,
}
use wdbgp.PrefixFilter.Normalize.Keys.{unique-Distinct, any-unique, All-unique, length-unique}

-- The address is one of its family. Every `netip.Prefix` is such.
abbrev pub InRange : Prefix → Type 0
InRange p = p.addr.value < 2 ^ bit_len p.addr

-- The keys of the map, valid and masked.
abbrev keys_of : List Prefix → List Prefix
keys_of ps = unique [] (map masked (keep is_valid ps))

masked_valid-IsBlock :
    (ps : List Prefix) → All InRange ps → All IsBlock (map masked (keep is_valid ps))
masked_valid-IsBlock [] h = tt
masked_valid-IsBlock (p ∷ ps) h = elim (Bool-cases (is_valid p)) [
  | inl e ↦
      let valid : IsPrefix p = record { fits = leb→le _ _ e; in_range = h.0 } in
      rw e (
        record { valid = masked-IsPrefix p valid; masked = masked-IsMasked p },
        masked_valid-IsBlock ps h.1,
      )
  | inr e ↦ rw e (masked_valid-IsBlock ps h.1)
]

masked_valid-covered :
    (ps : List Prefix) (x : Addr) → covered (map masked (keep is_valid ps)) x ≡ covered ps x
masked_valid-covered [] x = refl
masked_valid-covered (p ∷ ps) x = elim (Bool-cases (is_valid p)) [
  | inl e ↦ rw (e, contains-masked p x) (ground (arith, masked_valid-covered ps x))
  | inr e ↦ rw e (ground (arith, masked_valid-covered ps x, contains→IsIn p x))
]

keys_of-IsBlock : (ps : List Prefix) → All InRange ps → All IsBlock (keys_of ps)
keys_of-IsBlock ps h =
    All-unique IsBlock [] (map masked (keep is_valid ps)) tt (masked_valid-IsBlock ps h)

IsSorted-keys : (ps : List Prefix) → IsSorted (sort_prefixes (keys_of ps))
IsSorted-keys ps = sort_prefixes-IsSorted (keys_of ps) (unique-Distinct [] _ tt)

-- A list of at most one key is its own selection.
select_short : (ps : List Prefix) → leb (length ps) 1 ≡ true → ps ≡ select [] (sort_prefixes ps)
unfolding sort_prefixes
select_short [] h = sym (select-nil [])
select_short (p ∷ []) h = sym (select_one p)
select_short (p ∷ q ∷ ps) h = ground arith

-- `normalize` is the reference selection from the sorted keys.
pub normalize-select :
    (ps : List Prefix) → All InRange ps → normalize ps ≡ select [] (sort_prefixes (keys_of ps))
unfolding normalize
normalize-select ps h = ground (
  arith,
  select_short (keys_of ps),
  drop_covered-select (sort_prefixes (keys_of ps)) (IsSorted-keys ps)
      (All-sort_prefixes IsBlock (keys_of ps) (keys_of-IsBlock ps h)),
)

-- `normalize` keeps exactly the addresses that the list covers, if each address of the list is one
-- of its family.
pub normalize-covered :
    (ps : List Prefix) (x : Addr) → All InRange ps → covered (normalize ps) x ≡ covered ps x
normalize-covered ps x h = rw (normalize-select ps h) (
    select-covered [] (sort_prefixes (keys_of ps)) x
    ∙ any-sort_prefixes (λ p. contains p x) (keys_of ps)
    ∙ any-unique (λ p. contains p x) [] (map masked (keep is_valid ps))
    ∙ masked_valid-covered ps x)

-- No address is in two prefixes of a normalized list, if each address of the list is one of its
-- family.
pub normalize-hits : (ps : List Prefix) (x : Addr) → All InRange ps → hits (normalize ps) x ≤ 1
normalize-hits ps x h =
    let sorted = sort_prefixes (keys_of ps) in
    rw (normalize-select ps h)
      (omega (arith, select-hits [] sorted x (IsSorted-keys ps) (Before-nil sorted) (omega arith)))

pub normalize-IsBlock : (ps : List Prefix) → All InRange ps → All IsBlock (normalize ps)
normalize-IsBlock ps h = rw (normalize-select ps h) (
    All-select IsBlock [] (sort_prefixes (keys_of ps))
      (All-sort_prefixes IsBlock (keys_of ps) (keys_of-IsBlock ps h)))

-- A single block is left alone.
pub normalize_one : (p : Prefix) → IsBlock p → normalize (p ∷ []) ≡ p ∷ []
unfolding normalize unique member
normalize_one p h =
    let valid : leb p.bits (bit_len p.addr) ≡ true = ground (arith, h.valid.fits) in
    ground (arith, masked_of_IsMasked p h.masked)

length_masked_valid : (ps : List Prefix) → length (map masked (keep is_valid ps)) ≤ length ps
length_masked_valid [] = omega arith
length_masked_valid (p ∷ ps) = elim (Bool-cases (is_valid p)) [
  | inl e ↦ rw e (omega (arith, length_masked_valid ps))
  | inr e ↦ rw e (omega (arith, length_masked_valid ps))
]

-- `normalize` never makes a list longer.
pub length-normalize : (ps : List Prefix) → All InRange ps → length (normalize ps) ≤ length ps
length-normalize ps h = rw (normalize-select ps h) (
    omega (
      arith,
      length-select [] (sort_prefixes (keys_of ps)),
      length-sort_prefixes (keys_of ps),
      length-unique [] (map masked (keep is_valid ps)),
      length_masked_valid ps,
    ))
