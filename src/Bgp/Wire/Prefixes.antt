-- ===== src/Bgp/Wire/Prefixes.antt =====
-- `encodePrefixes` and `decodePrefixes` of internal/bgp/wire_encode.go and wire_decode.go.
pub mod RoundTrip
pub mod Rounds
use wdbgp.Prelude.{
  ℕ, List, if◌then◌else◌, ◌+◌, length, ◌∷◌, ltb, ◌%◌, ◌==◌, suc, ◌++◌, take, ◌/◌, not, [], drop,
  zero,
}
use wdbgp.Netip.{Family, v4, v6, Addr, Prefix, is_valid}
use wdbgp.Bgp.Wire.Bytes.{as_slice, addr_from}
use wdbgp.Bgp.Wire.Types.{
  Result, ok, err, ◌>>=◌, ◌>>◌, fail_if, prefix_truncated, invalid_prefix, stuck,
}

-- `(bits + 7) / 8`.
abbrev pub bytes_needed : ℕ → ℕ
bytes_needed bits = (bits + 7) / 8

-- One prefix: its length in a byte, and the bytes that it needs.
unfoldable pub encode_prefix : Prefix → List ℕ
encode_prefix p = (p.bits % 256) ∷ take (bytes_needed p.bits) (as_slice p.addr)

unfoldable pub encode_prefixes : List Prefix → List ℕ
unfolding encode_prefix
encode_prefixes [] = []
encode_prefixes (p ∷ ps) = encode_prefix p ++ encode_prefixes ps

-- The AFI decides the family: 2 is IPv6, all else IPv4.
abbrev pub family_of : ℕ → Family
family_of afi = if afi == 2 then v6 else v4

-- One round of the loop of `decodePrefixes`: a prefix, and the bytes behind it.
pub decode_prefix : Family → ℕ → List ℕ → Result (Prefix × List ℕ)
decode_prefix family prefix_len bytes = do
  fail_if (ltb (length bytes) (bytes_needed prefix_len)) prefix_truncated
  let prefix : Prefix = record {
    addr = addr_from family (take (bytes_needed prefix_len) bytes);
    bits = prefix_len;
  }
  fail_if (not (is_valid prefix)) invalid_prefix
  ok (prefix, drop (bytes_needed prefix_len) bytes)

-- Each round takes a byte at least, so `length bytes` rounds are enough.
decode_loop : ℕ → Family → List ℕ → Result (List Prefix)
unfolding decode_prefix
decode_loop rounds family [] = ok []
decode_loop zero family (b ∷ bs) = err stuck
decode_loop (suc rounds) family (b ∷ bs) = do
  (p, rest) ← decode_prefix family b bs
  ps ← decode_loop rounds family rest
  ok (p ∷ ps)

pub decode_prefixes : List ℕ → ℕ → Result (List Prefix)
unfolding decode_loop
decode_prefixes bytes afi = decode_loop (length bytes) (family_of afi) bytes
