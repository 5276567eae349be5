-- ===== src/Netip.antt =====
-- net/netip of the Go standard library, as far as the repository uses it: addresses and prefixes.
pub mod Laws
pub mod Cover
pub mod Samples
use wdbgp.Prelude.{ℕ, ◌+◌, ◌-◌, ◌/◌, ◌%◌, ◌^◌, ◌≡◌, Bool, ◌&&◌, ◌||◌, ◌≤◌, ◌<◌, leb, ltb, ◌==◌}

pub data Family : Type 0 where
  v4 v6 : Family

-- `BitLen`: 32 for an IPv4 address, 128 for an IPv6 address (an IPv4-mapped one included).
abbrev pub width : Family → ℕ
width v4 = 32
width v6 = 128

-- An address is its bytes read as one big-endian number. A zone has no counterpart.
pub record Addr : Type 0 where
  pub family : Family
  pub value : ℕ

pub record Prefix : Type 0 where
  pub addr : Addr
  pub bits : ℕ

abbrev pub bit_len : Addr → ℕ
bit_len a = width a.family

-- `IsValid`: the length fits the family.
abbrev pub is_valid : Prefix → Bool
is_valid p = leb p.bits (bit_len p.addr)

-- The size of the block of addresses that a prefix stands for.
abbrev pub block_size : Prefix → ℕ
block_size p = 2 ^ (bit_len p.addr - p.bits)

-- `Masked`: the same prefix with its host bits cleared.
unfoldable pub masked : Prefix → Prefix
masked p = record p {
  addr = record { family = p.addr.family; value = p.addr.value - p.addr.value % block_size p };
}

-- `Contains`: an address of the other family is never contained.
unfoldable pub contains : Prefix → Addr → Bool
contains p a =
    is_valid p
    && bit_len p.addr == bit_len a
    && a.value / block_size p == p.addr.value / block_size p

-- `Addr.Less`: IPv4 before IPv6, then by number.
unfoldable pub addr_less : Addr → Addr → Bool
addr_less a b = ltb (bit_len a) (bit_len b) || (bit_len a == bit_len b && ltb a.value b.value)

-- `==` on prefixes, as keys of a map.
unfoldable pub prefix_eq : Prefix → Prefix → Bool
prefix_eq p q = bit_len p.addr == bit_len q.addr && p.addr.value == q.addr.value && p.bits == q.bits

-- A prefix as Go builds it: a valid length and an address of its family.
pub record IsPrefix (p : Prefix) : Type 0 where
  pub fits : p.bits ≤ bit_len p.addr
  pub in_range : p.addr.value < 2 ^ bit_len p.addr

-- No host bit is set.
abbrev pub IsMasked : Prefix → Type 0
IsMasked p = p.addr.value % block_size p ≡ 0
