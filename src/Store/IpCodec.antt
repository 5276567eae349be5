-- ===== src/Store/IpCodec.antt =====
-- internal/store/ipcodec.go: addresses and prefixes as columns.
use wdbgp.Prelude.{
  ◌<◌, Option, List, ◌≡◌, ℕ, ◌^◌, ◌↔◌, some, if◌then◌else◌, ap, true, none, length, sym, ◌==◌,
  arith, ◌∙◌, if_true,
}
use native.Mathlib.Nat.{mod-eq_of_lt}
use mathlib.Core.Option.{some-injective}
use wdbgp.Netip.{Family, v4, v6, width, Addr, Prefix, masked, is_valid, bit_len, IsPrefix}
use wdbgp.Netip.Laws.{masked-IsPrefix}
use wdbgp.Bgp.Wire.Bytes.{as_slice, be, be-put_be}

-- `EncodeAddr`.
abbrev pub encode_addr : Addr → List ℕ
encode_addr a = as_slice a

-- `DecodeAddr`, with the numbers of bytes that `AddrFromSlice` takes.
unfoldable pub decode_addr : List ℕ → Option Addr
decode_addr ip =
    if length ip == 4
    then some (record { family = v4; value = be ip })
    else if length ip == 16
    then some (record { family = v6; value = be ip })
    else none

-- `EncodePrefix`: the columns `ip` and `bits`.
unfoldable pub encode_prefix : Prefix → List ℕ × ℕ
encode_prefix prefix = let m = masked prefix in (as_slice m.addr, m.bits)

-- The test at the end of `DecodePrefix`.
abbrev pub if_valid : Prefix → Option Prefix
if_valid p = if is_valid p then some p else none

abbrev pub with_bits : ℕ → Option Addr → Option Prefix
with_bits bits none = none
with_bits bits (some addr) = if_valid (record { addr = addr; bits = bits })

-- `DecodePrefix`.
pub decode_prefix : List ℕ → ℕ → Option Prefix
unfolding decode_addr
decode_prefix ip bits = with_bits bits (decode_addr ip)

abbrev addr_of : Family → ℕ → Addr
addr_of family value = record { family = family; value = value }

decode_addr-encode : (a : Addr) → a.value < 2 ^ bit_len a → decode_addr (encode_addr a) ≡ some a
unfolding decode_addr
decode_addr-encode a h = go a.family a.value h
  where
    go :
        (f : Family) (v : ℕ)
        → v < 2 ^ width f
        → decode_addr (encode_addr (record { family = f; value = v }))
          ≡ some (record { family = f; value = v })
    go v4 v h = ap (λ (n : ℕ). some (addr_of v4 n)) (be-put_be 4 v ∙ mod-eq_of_lt h)
    go v6 v h = ap (λ (n : ℕ). some (addr_of v6 n)) (be-put_be 16 v ∙ mod-eq_of_lt h)

-- A prefix whose address is one of its family and whose length fits is read back from its columns
-- with its host bits cleared.
pub decode_prefix-encode :
    (p : Prefix)
    → IsPrefix p
    → decode_prefix (encode_prefix p).0 (encode_prefix p).1 ≡ some (masked p)
unfolding decode_prefix encode_prefix
decode_prefix-encode p h =
    let m : IsPrefix (masked p) = masked-IsPrefix p h in
    let valid : is_valid (masked p) ≡ true = ground (arith, m.fits) in
    ap (with_bits (masked p).bits) (decode_addr-encode (masked p).addr m.in_range)
    ∙ if_true (some (masked p)) none valid

-- Two prefixes whose addresses are of their families and whose lengths fit have the same columns
-- exactly if they are the same with their host bits cleared.
pub encode_prefix-same :
    (p q : Prefix)
    → IsPrefix p
    → IsPrefix q
    → (encode_prefix p ≡ encode_prefix q) ↔ (masked p ≡ masked q)
unfolding encode_prefix
encode_prefix-same p q hp hq = (
  λ e. some-injective (masked p) (masked q) (
      sym (decode_prefix-encode p hp)
      ∙ ap (λ (c : List ℕ × ℕ). decode_prefix c.0 c.1) e
      ∙ decode_prefix-encode q hq),
  λ e. ap (λ (m : Prefix). (as_slice m.addr, m.bits)) e,
)
