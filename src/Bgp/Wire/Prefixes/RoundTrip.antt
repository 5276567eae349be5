-- ===== src/Bgp/Wire/Prefixes/RoundTrip.antt =====
-- `decodePrefixes` reads back what `encodePrefixes` writes.
use wdbgp.Prelude.{
  refl, ◌*◌, take, ◌≡◌, ℕ, ◌-◌, ◌+◌, arith, ◌^◌, ◌%◌, List, length, ◌++◌, length-take-le, ◌∙◌, All,
  ◌≤◌, ap, ltb, false, suc, length-append, [], zero, leb, true, take-append, drop-append,
}
use wdbgp.Prelude.Pow.{aligned_mono, pow256-pow2}
use wdbgp.Netip.{Family, v4, v6, width, Addr, Prefix, bit_len, IsPrefix}
use wdbgp.Netip.Cover.{IsBlock}
use wdbgp.Bgp.Wire.Bytes.{
  as_slice, addr_from, byte_count, length-put_be, take-put_be, be-put_be_high,
}
use wdbgp.Bgp.Wire.Types.{ok}
use wdbgp.Bgp.Wire.Prefixes.{
  bytes_needed, encode_prefixes, family_of, decode_prefix, decode_loop, decode_prefixes, ◌∷◌,
}

byte_count-width : (f : Family) → byte_count f * 8 ≡ width f
byte_count-width v4 = refl
byte_count-width v6 = refl

width_le : (f : Family) → width f ≤ 128
width_le v4 = omega arith
width_le v6 = omega arith

-- The bytes that a block needs give back its address.
addr_from_block :
    (p : Prefix)
    → IsBlock p
    → addr_from p.addr.family (take (bytes_needed p.bits) (as_slice p.addr)) ≡ p.addr
addr_from_block p h = λ i. record { family = p.addr.family; value = same i }
  where
    n : ℕ
    n = bytes_needed p.bits

    m : ℕ
    m = byte_count p.addr.family - n

    total : byte_count p.addr.family ≡ n + m
    total = omega (arith, h.valid.fits, byte_count-width p.addr.family)

    size : 256 ^ (n + m) ≡ 2 ^ bit_len p.addr
    size = rw (← total, pow256-pow2 (byte_count p.addr.family), byte_count-width p.addr.family) refl

    low_zero : p.addr.value % 256 ^ m ≡ 0
    low_zero = rw (pow256-pow2 m) (
        aligned_mono p.addr.value (m * 8) (bit_len p.addr - p.bits)
          (omega (arith, byte_count-width p.addr.family)) h.masked)

    same : (addr_from p.addr.family (take n (as_slice p.addr))).value ≡ p.addr.value
    same = rw total (
        rw (take-put_be n m p.addr.value)
          (be-put_be_high n m p.addr.value (rw size h.valid.in_range) low_zero))

length-encoded :
    (p : Prefix)
    → IsPrefix p
    → length (take (bytes_needed p.bits) (as_slice p.addr)) ≡ bytes_needed p.bits
length-encoded p h = length-take-le (bytes_needed p.bits) (as_slice p.addr) (
    rw (length-put_be (byte_count p.addr.family) p.addr.value)
      (omega (arith, h.fits, byte_count-width p.addr.family)))

decode_prefix_ok :
    (f : Family) (n : ℕ) (bs rest : List ℕ)
    → length bs ≡ bytes_needed n
    → n ≤ width f
    → decode_prefix f n (bs ++ rest) ≡ ok (record { addr = addr_from f bs; bits = n }, rest)
unfolding decode_prefix
decode_prefix_ok f n bs rest len fits =
    let enough : ltb (length (bs ++ rest)) (length bs) ≡ false =
      rw (length-append bs rest) (ground arith) in
    let valid : leb n (width f) ≡ true = ground arith in
    rw (← len, enough, valid, take-append bs rest, drop-append bs rest) refl

-- One prefix is read back, and what follows it is left.
pub decode_prefix-encode_prefix :
    (p : Prefix) (rest : List ℕ)
    → IsBlock p
    → decode_prefix p.addr.family p.bits (take (bytes_needed p.bits) (as_slice p.addr) ++ rest)
      ≡ ok (p, rest)
decode_prefix-encode_prefix p rest h =
    decode_prefix_ok p.addr.family p.bits (take (bytes_needed p.bits) (as_slice p.addr)) rest
      (length-encoded p h.valid) h.valid.fits
    ∙ ap (λ (a : Addr). ok (record { addr = a; bits = p.bits }, rest)) (addr_from_block p h)

bits_byte : (p : Prefix) → IsPrefix p → p.bits % 256 ≡ p.bits
bits_byte p h = omega (arith, h.fits, width_le p.addr.family)

decode_loop-encode_prefixes :
    (rounds : ℕ) (f : Family) (ps : List Prefix)
    → All (λ p. IsBlock p × (p.addr.family ≡ f)) ps
    → length (encode_prefixes ps) ≤ rounds
    → decode_loop rounds f (encode_prefixes ps) ≡ ok ps
unfolding decode_loop encode_prefixes
decode_loop-encode_prefixes rounds f [] h l = refl
decode_loop-encode_prefixes zero f (p ∷ ps) h l = absurd (omega arith)
decode_loop-encode_prefixes (suc rounds) f (p ∷ ps) h l =
    let read = decode_prefix-encode_prefix p (encode_prefixes ps) h.0.0 in
    let shorter : length (encode_prefixes ps) ≤ rounds =
      omega (
        arith,
        length-append (take (bytes_needed p.bits) (as_slice p.addr)) (encode_prefixes ps),
      ) in
    rw
      (
        bits_byte p h.0.0.valid,
        ← h.0.1,
        read,
        h.0.1,
        decode_loop-encode_prefixes rounds f ps h.1 shorter,
      )
      refl

-- `decodePrefixes` reads back what `encodePrefixes` wrote for masked prefixes of the family.
pub decode_prefixes-encode_prefixes :
    (ps : List Prefix) (afi : ℕ)
    → All (λ p. IsBlock p × (p.addr.family ≡ family_of afi)) ps
    → decode_prefixes (encode_prefixes ps) afi ≡ ok ps
unfolding decode_prefixes
decode_prefixes-encode_prefixes ps afi h =
    decode_loop-encode_prefixes (length (encode_prefixes ps)) (family_of afi) ps h (omega arith)
