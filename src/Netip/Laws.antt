-- ===== src/Netip/Laws.antt =====
-- Prefixes as blocks of addresses: two blocks are nested or disjoint, and `masked` names the block.
use native.Mathlib.Nat.{mod-add-div'}
use wdbgp.Prelude.{◌-◌, ◌/◌, ◌≤◌, ◌≡◌, refl, sym, ◌∙◌, true, arith, ◌<◌, ◌%◌, ap, ◌*◌}
use wdbgp.Prelude.Pow.{pow2_pos, div-pow2_mono, round_down_div, round_down_mod}
use wdbgp.Netip.{
  prefix_eq, Addr, Prefix, bit_len, block_size, masked, contains, IsPrefix, IsMasked, ℕ,
}

-- What `contains` says, in parts.
pub record IsIn (p : Prefix) (a : Addr) : Type 0 where
  pub fits : p.bits ≤ bit_len p.addr
  pub same : bit_len p.addr ≡ bit_len a
  pub block : a.value / block_size p ≡ p.addr.value / block_size p

pub contains→IsIn : (p : Prefix) (a : Addr) → contains p a ≡ true → IsIn p a
unfolding contains
contains→IsIn p a h = ground arith

pub IsIn→contains : (p : Prefix) (a : Addr) → IsIn p a → contains p a ≡ true
unfolding contains
IsIn→contains p a h = ground arith

-- A block inside another one.
pub contains_trans :
    (p q : Prefix) (a : Addr)
    → contains p q.addr ≡ true
    → p.bits ≤ q.bits
    → contains q a ≡ true
    → contains p a ≡ true
contains_trans p q a h le k =
    let i = contains→IsIn p q.addr h in
    let j = contains→IsIn q a k in
    let up =
      div-pow2_mono a.value q.addr.value (bit_len q.addr - q.bits) (bit_len p.addr - p.bits)
        (omega arith) j.block in
    IsIn→contains p a (record { fits = i.fits; same = i.same ∙ j.same; block = up ∙ i.block })

-- Blocks that share an address are nested.
pub contains_overlap :
    (p q : Prefix) (a : Addr)
    → contains p a ≡ true
    → contains q a ≡ true
    → p.bits ≤ q.bits
    → contains p q.addr ≡ true
contains_overlap p q a h k le =
    let i = contains→IsIn p a h in
    let j = contains→IsIn q a k in
    let up =
      div-pow2_mono a.value q.addr.value (bit_len q.addr - q.bits) (bit_len p.addr - p.bits)
        (omega arith) j.block in
    IsIn→contains p q.addr
      (record { fits = i.fits; same = i.same ∙ sym j.same; block = sym up ∙ i.block })

pub contains-masked : (p : Prefix) (a : Addr) → contains (masked p) a ≡ contains p a
unfolding contains masked
contains-masked p a = ground (arith, round_down_div p.addr.value (block_size p) (pow2_pos _))

pub masked-IsMasked : (p : Prefix) → IsMasked (masked p)
unfolding masked
masked-IsMasked p = round_down_mod p.addr.value (block_size p) (pow2_pos _)

pub masked-IsPrefix : (p : Prefix) → IsPrefix p → IsPrefix (masked p)
unfolding masked
masked-IsPrefix p h = ground arith

-- A prefix contains its own address.
pub contains_self : (p : Prefix) → IsPrefix p → contains p p.addr ≡ true
unfolding contains
contains_self p h = ground arith

pub masked_of_IsMasked : (p : Prefix) → IsMasked p → masked p ≡ p
unfolding masked
masked_of_IsMasked p h = ground arith

pub bits-masked : (p : Prefix) → (masked p).bits ≡ p.bits
unfolding masked
bits-masked p = refl

pub bit_len-masked : (p : Prefix) → bit_len (masked p).addr ≡ bit_len p.addr
unfolding masked
bit_len-masked p = refl

-- Of blocks with no host bit set, the number of the block gives back the address.
pub value_of_block : (a b m : ℕ) → 0 < m → a % m ≡ 0 → a / m ≡ b / m → a ≡ b - b % m
value_of_block a b m h z e =
    omega (arith, mod-add-div' a m, mod-add-div' b m, ap (λ (t : ℕ). t * m) e)

-- A block is determined by its length and any one of its addresses.
pub IsBlock-unique :
    (p q : Prefix)
    → IsMasked p
    → IsMasked q
    → p.bits ≡ q.bits
    → contains p q.addr ≡ true
    → p.addr.value ≡ q.addr.value
IsBlock-unique p q hp hq e h =
    let i = contains→IsIn p q.addr h in
    let same : block_size q ≡ block_size p = rw (i.same, e) in
    let z : q.addr.value % block_size p ≡ 0 = rw same at hq in
    omega (
      arith,
      z,
      value_of_block p.addr.value q.addr.value (block_size p) (pow2_pos _) hp (sym i.block),
    )

pub prefix_eq_sym : (p q : Prefix) → prefix_eq p q ≡ prefix_eq q p
unfolding prefix_eq
prefix_eq_sym p q = ground arith

pub prefix_eq→eq : (p q : Prefix) → prefix_eq p q ≡ true → p ≡ q
unfolding prefix_eq
prefix_eq→eq p q h = ground arith

pub prefix_eq_refl : (p : Prefix) → prefix_eq p p ≡ true
unfolding prefix_eq
prefix_eq_refl p = ground arith
