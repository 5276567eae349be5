-- ===== src/Bgp/Wire/Attributes.antt =====
-- The path attributes of internal/bgp/wire_encode.go and wire_decode.go.
pub mod Values
pub mod RoundTrip
pub mod Rounds
use wdbgp.Prelude.{
  List, Option, ℕ, if◌then◌else◌, ◌∷◌, ◌++◌, ◌%◌, [], ltb, length, some, ◌+◌, ◌==◌, ◌||◌, drop, not,
  suc, none, zero, ◌&&◌, take, ◌/◌, leb, ◌*◌, false,
}
use Prim.Native.Nat.{bit_and, bit_or}
use wdbgp.Netip.{v4, v6, Addr}
use wdbgp.Bgp.Wire.Bytes.{put_be, be, slice, byte_at, as_slice, addr_from}
use wdbgp.Bgp.Wire.Types.{
  LargeCommunity, PathAttribute, origin, as_path, next_hop, mp_reach_nlri, mp_unreach_nlri,
  large_communities, Result, ok, err, ◌>>=◌, ◌>>◌, fail_if, attr_flag_optional,
  attr_flag_transitive, attr_flag_extended_length, attribute_too_short, extended_too_short,
  attribute_truncated, origin_length, next_hop_length, communities_length, mp_reach_too_short,
  mp_reach_truncated, mp_reach_next_hop, mp_unreach_too_short, as_path_too_short, as_path_type,
  as_path_empty, as_path_truncated, stuck,
}
use wdbgp.Bgp.Wire.Prefixes.{encode_prefixes, decode_prefixes}

-- `encodePathAttribute`: the length takes two bytes if it does not fit one.
unfoldable pub encode_path_attribute : ℕ → ℕ → List ℕ → List ℕ
encode_path_attribute flags type_code value =
    if ltb 255 (length value)
    then bit_or flags attr_flag_extended_length ∷ type_code ∷ put_be 2 (length value) ++ value
    else flags ∷ type_code ∷ (length value % 256) ∷ value

unfoldable pub encode_community : LargeCommunity → List ℕ
encode_community c = put_be 4 c.global_admin ++ (put_be 4 c.local_data1 ++ put_be 4 c.local_data2)

unfoldable pub encode_communities : List LargeCommunity → List ℕ
unfolding encode_community
encode_communities [] = []
encode_communities (c ∷ cs) = encode_community c ++ encode_communities cs

-- The value of each kind of attribute, as its `Serialize` builds it. An attribute with an address
-- of the other family does not occur in an IPv4 next hop: `As4` would panic there.
unfoldable pub attribute_value : PathAttribute → List ℕ
unfolding encode_communities
attribute_value (origin o) = (o % 256) ∷ []
attribute_value (as_path asn four_octet) =
    if ltb 65535 asn || four_octet then 2 ∷ 1 ∷ put_be 4 asn else 2 ∷ 1 ∷ put_be 2 asn
attribute_value (next_hop a) = put_be 4 a.value
attribute_value (mp_reach_nlri nh nlri) =
    0 ∷ 2 ∷ 1 ∷ (length (as_slice nh) % 256) ∷ (as_slice nh ++ (0 ∷ encode_prefixes nlri))
attribute_value (mp_unreach_nlri nlri) = 0 ∷ 2 ∷ 1 ∷ encode_prefixes nlri
attribute_value (large_communities cs) = encode_communities cs

-- The flags that each `Serialize` gives.
abbrev pub attribute_flags : PathAttribute → ℕ
attribute_flags (origin _) = attr_flag_transitive
attribute_flags (as_path _ _) = attr_flag_transitive
attribute_flags (next_hop _) = attr_flag_transitive
attribute_flags (mp_reach_nlri _ _) = attr_flag_optional
attribute_flags (mp_unreach_nlri _) = attr_flag_optional
attribute_flags (large_communities _) = 0xc0

-- `TypeCode`.
abbrev pub type_code : PathAttribute → ℕ
type_code (origin _) = 1
type_code (as_path _ _) = 2
type_code (next_hop _) = 3
type_code (mp_reach_nlri _ _) = 14
type_code (mp_unreach_nlri _) = 15
type_code (large_communities _) = 32

unfoldable pub serialize_attribute : PathAttribute → List ℕ
unfolding encode_path_attribute attribute_value
serialize_attribute a = encode_path_attribute (attribute_flags a) (type_code a) (attribute_value a)

-- `encodePathAttributes`.
unfoldable pub encode_path_attributes : List PathAttribute → List ℕ
unfolding serialize_attribute
encode_path_attributes [] = []
encode_path_attributes (a ∷ as') = serialize_attribute a ++ encode_path_attributes as'

-- The next hop of `decodeMpReachNLRI`: 4, 16 or 32 bytes, of which the first 16 count.
pub decode_next_hop : ℕ → List ℕ → Result Addr
decode_next_hop nh_len bytes =
    if nh_len == 4
    then ok (addr_from v4 bytes)
    else if nh_len == 16
    then ok (addr_from v6 bytes)
    else if nh_len == 32
    then ok (addr_from v6 (take 16 bytes))
    else err mp_reach_next_hop

pub decode_mp_reach_nlri : List ℕ → Result PathAttribute
unfolding decode_next_hop
decode_mp_reach_nlri value = do
  fail_if (ltb (length value) 5) mp_reach_too_short
  let afi = be (slice value 0 2)
  let nh_len = byte_at value 3
  fail_if (ltb (length value) (4 + nh_len)) mp_reach_truncated
  nh ← decode_next_hop nh_len (slice value 4 (4 + nh_len))
  nlri ← decode_prefixes (drop (4 + nh_len + 1) value) afi
  ok (mp_reach_nlri nh nlri)

pub decode_mp_unreach_nlri : List ℕ → Result PathAttribute
decode_mp_unreach_nlri value = do
  fail_if (ltb (length value) 3) mp_unreach_too_short
  nlri ← decode_prefixes (drop 3 value) (be (slice value 0 2))
  ok (mp_unreach_nlri nlri)

-- Only the first ASN of the first segment is kept; the width is guessed from the length.
pub decode_as_path : List ℕ → Result PathAttribute
decode_as_path value = do
  fail_if (ltb (length value) 2) as_path_too_short
  let seg_type = byte_at value 0
  let seg_len = byte_at value 1
  fail_if (not (seg_type == 1) && not (seg_type == 2)) as_path_type
  fail_if (seg_len == 0) as_path_empty
  if leb (2 + seg_len * 4) (length value)
      then ok (as_path (be (slice value 2 6)) false)
      else if leb (2 + seg_len * 2) (length value)
      then ok (as_path (be (slice value 2 4)) false)
      else err as_path_truncated

-- `num` communities of 12 bytes.
pub decode_communities : ℕ → List ℕ → List LargeCommunity
decode_communities zero value = []
decode_communities (suc num) value =
    record {
      global_admin = be (slice value 0 4);
      local_data1 = be (slice value 4 8);
      local_data2 = be (slice value 8 12);
    }
    ∷ decode_communities num (drop 12 value)

-- `decodePathAttribute`; `none` is an attribute that is skipped.
pub decode_path_attribute : ℕ → List ℕ → Result (Option PathAttribute)
unfolding decode_mp_reach_nlri decode_mp_unreach_nlri decode_as_path decode_communities
decode_path_attribute type_code value =
    if type_code == 1
    then (do fail_if (not (length value == 1)) origin_length; ok (some (origin (byte_at value 0))))
    else if type_code == 2
    then (do a ← decode_as_path value; ok (some a))
    else if type_code == 3
    then (do
      fail_if (not (length value == 4)) next_hop_length
      ok (some (next_hop (addr_from v4 value))))
    else if type_code == 14
    then (do a ← decode_mp_reach_nlri value; ok (some a))
    else if type_code == 15
    then (do a ← decode_mp_unreach_nlri value; ok (some a))
    else if type_code == 32
    then (do
      fail_if (not (length value % 12 == 0)) communities_length
      ok (some (large_communities (decode_communities (length value / 12) value))))
    else ok none

abbrev pub add_attribute : Option PathAttribute → List PathAttribute → List PathAttribute
add_attribute none rest = rest
add_attribute (some a) rest = a ∷ rest

-- The header of one attribute: the lengths of the header and of the value.
pub attribute_header : List ℕ → Result (ℕ × ℕ)
attribute_header bytes =
    if not (bit_and (byte_at bytes 0) attr_flag_extended_length == 0)
    then (do fail_if (ltb (length bytes) 4) extended_too_short; ok (4, be (slice bytes 2 4)))
    else ok (3, byte_at bytes 2)

-- One round of `decodePathAttributes`: an attribute, and the bytes behind it.
pub decode_attribute : List ℕ → Result (Option PathAttribute × List ℕ)
unfolding attribute_header decode_path_attribute
decode_attribute bytes = do
  fail_if (ltb (length bytes) 3) attribute_too_short
  (hdr_len, attr_len) ← attribute_header bytes
  fail_if (ltb (length bytes) (hdr_len + attr_len)) attribute_truncated
  a ← decode_path_attribute (byte_at bytes 1) (slice bytes hdr_len (hdr_len + attr_len))
  ok (a, drop (hdr_len + attr_len) bytes)

-- Each round takes three bytes at least, so `length bytes` rounds are enough.
attributes_loop : ℕ → List ℕ → Result (List PathAttribute)
unfolding decode_attribute
attributes_loop rounds [] = ok []
attributes_loop zero (b ∷ bs) = err stuck
attributes_loop (suc rounds) (b ∷ bs) = do
  (a, rest) ← decode_attribute (b ∷ bs)
  as' ← attributes_loop rounds rest
  ok (add_attribute a as')

pub decode_path_attributes : List ℕ → Result (List PathAttribute)
unfolding attributes_loop
decode_path_attributes bytes = attributes_loop (length bytes) bytes
