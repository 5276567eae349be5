-- ===== src/Bgp/Wire/Size.antt =====
-- Bounds on what the encoders of wire_encode.go write.
use wdbgp.Prelude.{
  refl, ◌≤◌, length, ℕ, List, ◌∷◌, ◌+◌, arith, Bool, ◌≡◌, take, ◌*◌, [], suc, Bool-cases,
  length-append, ◌/◌, zero, ◌++◌, ltb, ◌||◌, inl, inr,
}
use wdbgp.Netip.{Addr, Prefix, v4, v6, Family}
use wdbgp.Bgp.Wire.Bytes.{put_be, as_slice, byte_count, length-put_be}
use wdbgp.Bgp.Wire.Types.{
  LargeCommunity, PathAttribute, origin, as_path, next_hop, mp_reach_nlri, large_communities,
  UpdateMessage,
}
use wdbgp.Bgp.Wire.Prefixes.{encode_prefix, encode_prefixes}
use wdbgp.Bgp.Wire.Attributes.{
  encode_path_attribute, encode_community, encode_communities, attribute_value, attribute_flags,
  type_code, serialize_attribute, encode_path_attributes,
}
use wdbgp.Bgp.Wire.Messages.{wrap_message, update_body, serialize_update}

byte_count-le : (f : Family) → byte_count f ≤ 16
byte_count-le v4 = omega arith
byte_count-le v6 = omega arith

length-as_slice : (a : Addr) → length (as_slice a) ≤ 16
length-as_slice a =
    omega (arith, length-put_be (byte_count a.family) a.value, byte_count-le a.family)

length-take-shorter : (n : ℕ) (bs : List ℕ) → length (take n bs) ≤ length bs
length-take-shorter zero bs = omega arith
length-take-shorter (suc n) [] = omega arith
length-take-shorter (suc n) (b ∷ bs) = omega (arith, length-take-shorter n bs)

pub length-encode_prefixes : (ps : List Prefix) → length (encode_prefixes ps) ≤ 17 * length ps
unfolding encode_prefixes encode_prefix
length-encode_prefixes [] = omega arith
length-encode_prefixes (p ∷ ps) =
    let bytes = take ((p.bits + 7) / 8) (as_slice p.addr) in
    omega (
      arith,
      length-append bytes (encode_prefixes ps),
      length-take-shorter ((p.bits + 7) / 8) (as_slice p.addr),
      length-as_slice p.addr,
      length-encode_prefixes ps,
    )

length-encode_communities :
    (cs : List LargeCommunity) → length (encode_communities cs) ≡ 12 * length cs
unfolding encode_communities encode_community
length-encode_communities [] = omega arith
length-encode_communities (c ∷ cs) = omega (arith, length-encode_communities cs)

length-encode_path_attribute :
    (flags code : ℕ) (value : List ℕ)
    → length (encode_path_attribute flags code value) ≤ 4 + length value
unfolding encode_path_attribute
length-encode_path_attribute flags code value = elim (Bool-cases (ltb 255 (length value))) [
  | inl e ↦ rw e (omega arith)
  | inr e ↦ rw e (omega arith)
]

-- Four bytes of header and the value, for each attribute.
abbrev pub total : List PathAttribute → ℕ
total [] = 0
total (a ∷ as') = 4 + length (attribute_value a) + total as'

length-encode_path_attributes :
    (as' : List PathAttribute) → length (encode_path_attributes as') ≤ total as'
unfolding encode_path_attributes serialize_attribute
length-encode_path_attributes [] = omega arith
length-encode_path_attributes (a ∷ as') = omega (
  arith,
  length-append (serialize_attribute a) (encode_path_attributes as'),
  length-encode_path_attribute (attribute_flags a) (type_code a) (attribute_value a),
  length-encode_path_attributes as',
)

pub length-serialize_update :
    (u : UpdateMessage)
    → length (serialize_update u)
      ≤ 23 + 17 * length u.withdrawn_routes + total u.path_attributes + 17 * length u.nlri
unfolding serialize_update wrap_message update_body
length-serialize_update u =
    let w = encode_prefixes u.withdrawn_routes in
    let a = encode_path_attributes u.path_attributes in
    let n = encode_prefixes u.nlri in
    omega (
      arith,
      length-append w (put_be 2 (length a) ++ (a ++ n)),
      length-append a n,
      length-encode_prefixes u.withdrawn_routes,
      length-encode_path_attributes u.path_attributes,
      length-encode_prefixes u.nlri,
    )

pub length-as_path : (asn : ℕ) (four : Bool) → length (attribute_value (as_path asn four)) ≤ 6
unfolding attribute_value
length-as_path asn four = elim (Bool-cases (ltb 65535 asn || four)) [
  | inl e ↦ rw e (omega arith)
  | inr e ↦ rw e (omega arith)
]

pub length-mp_reach :
    (nh : Addr) (ps : List Prefix)
    → length (attribute_value (mp_reach_nlri nh ps)) ≤ 21 + 17 * length ps
unfolding attribute_value
length-mp_reach nh ps = omega (
  arith,
  length-append (as_slice nh) (0 ∷ encode_prefixes ps),
  length-as_slice nh,
  length-encode_prefixes ps,
)

pub length-communities :
    (cs : List LargeCommunity) → length (attribute_value (large_communities cs)) ≡ 12 * length cs
unfolding attribute_value
length-communities cs = length-encode_communities cs

pub length-origin : (o : ℕ) → length (attribute_value (origin o)) ≡ 1
unfolding attribute_value
length-origin o = refl

pub length-next_hop : (a : Addr) → length (attribute_value (next_hop a)) ≡ 4
unfolding attribute_value
length-next_hop a = refl
