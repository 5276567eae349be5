-- ===== src/Bgp/Wire/Attributes/Values.antt =====
-- `decodePathAttribute` reads back the value of each kind of attribute.
use wdbgp.Prelude.{
  refl, false, ◌<◌, List, ℕ, length, All, ◌≤◌, ◌^◌, ◌≡◌, Bool, ◌*◌, Bool-cases, ◌%◌, ◌∙◌, ltb,
  arith, [], ◌||◌, inl, ap, inr, some, ◌++◌, drop, ◌+◌, ◌/◌, length-append, ◌-◌, suc, take-append,
  sym,
}
use native.Mathlib.Nat.{suc-add}
use wdbgp.Netip.{Family, v4, v6, width, Addr, Prefix, bit_len}
use wdbgp.Netip.Cover.{IsBlock}
use wdbgp.Bgp.Wire.Bytes.{put_be, be, as_slice, byte_count, length-put_be, be-put_be}
use wdbgp.Bgp.Wire.Types.{
  LargeCommunity, PathAttribute, origin, as_path, next_hop, mp_reach_nlri, mp_unreach_nlri,
  large_communities, ok, ◌>>=◌,
}
use wdbgp.Bgp.Wire.Prefixes.{encode_prefixes, decode_prefixes}
use wdbgp.Bgp.Wire.Prefixes.RoundTrip.{decode_prefixes-encode_prefixes}
use wdbgp.Bgp.Wire.Attributes.{
  encode_community, encode_communities, attribute_value, type_code, decode_next_hop,
  decode_mp_reach_nlri, decode_mp_unreach_nlri, decode_as_path, decode_communities,
  decode_path_attribute, ◌∷◌, slice,
}

abbrev pub IsU32 : ℕ → Type 0
IsU32 n = n < 2 ^ 32

-- Masked IPv6 prefixes, as the MP attributes carry them.
abbrev pub AreV6 : List Prefix → Type 0
AreV6 ps = All (λ p. IsBlock p × (p.addr.family ≡ v6)) ps

-- The attribute's numbers fit their fields.
abbrev pub Encodable : PathAttribute → Type 0
Encodable (origin o) = o < 256
Encodable (as_path asn _) = IsU32 asn
Encodable (next_hop a) = (a.family ≡ v4) × IsU32 a.value
Encodable (mp_reach_nlri nh nlri) = (nh.value < 2 ^ bit_len nh) × AreV6 nlri
Encodable (mp_unreach_nlri nlri) = AreV6 nlri
Encodable (large_communities cs) =
    All (λ c. IsU32 c.global_admin × IsU32 c.local_data1 × IsU32 c.local_data2) cs

-- What the receiver has: the flag for four octets is not on the wire.
abbrev pub received : PathAttribute → PathAttribute
received (as_path asn _) = as_path asn false
received a = a

pub be_u32 : (v : ℕ) → IsU32 v → be (put_be 4 v) ≡ v
be_u32 v h = be-put_be 4 v ∙ omega arith

pub be_u16 : (v : ℕ) → v ≤ 65535 → be (put_be 2 v) ≡ v
be_u16 v h = be-put_be 2 v ∙ omega arith

as_path_value :
    (asn : ℕ) (four : Bool)
    → IsU32 asn
    → decode_as_path (attribute_value (as_path asn four)) ≡ ok (as_path asn false)
unfolding decode_as_path attribute_value
as_path_value asn four h = elim (Bool-cases (ltb 65535 asn || four)) [
  | inl e ↦ rw e (ap (λ (n : ℕ). ok (as_path n false)) (be_u32 asn h))
  | inr e ↦ rw e (ap (λ (n : ℕ). ok (as_path n false)) (be_u16 asn (ground arith)))
]

communities_value :
    (cs : List LargeCommunity)
    → Encodable (large_communities cs)
    → (decode_communities (length cs) (encode_communities cs) ≡ cs)
      × (length (encode_communities cs) ≡ 12 * length cs)
unfolding decode_communities encode_communities encode_community
communities_value [] h = (refl, refl)
communities_value (c ∷ cs) h =
    let (g, a, b) = h.0 in
    let (rest, size) = communities_value cs h.1 in
    (
      λ i.
          record {
            global_admin = be_u32 c.global_admin g i;
            local_data1 = be_u32 c.local_data1 a i;
            local_data2 = be_u32 c.local_data2 b i;
          }
          ∷ rest i,
      omega (arith, size),
    )

-- An address in the bytes of its family.
next_hop_at :
    (f : Family) (v : ℕ)
    → v < 2 ^ width f
    → let a : Addr = record { family = f; value = v } in
      decode_next_hop (byte_count f) (as_slice a) ≡ ok a
unfolding decode_next_hop
next_hop_at v4 v h =
    ap (λ (n : ℕ). ok (record { family = v4; value = n })) (be-put_be 4 v ∙ omega arith)
next_hop_at v6 v h =
    ap (λ (n : ℕ). ok (record { family = v6; value = n })) (be-put_be 16 v ∙ omega arith)

byte_count_mod : (f : Family) → byte_count f % 256 ≡ byte_count f
byte_count_mod v4 = refl
byte_count_mod v6 = refl

drop-past : (as' : List ℕ) (b : ℕ) (rest : List ℕ) → drop (length as' + 1) (as' ++ b ∷ rest) ≡ rest
drop-past [] b rest = refl
drop-past (x ∷ as') b rest = rw (suc-add (length as') 1) (drop-past as' b rest)

take-next_hop :
    (as' rest : List ℕ) → slice (0 ∷ 2 ∷ 1 ∷ length as' ∷ (as' ++ rest)) 4 (4 + length as') ≡ as'
take-next_hop as' rest =
    let four : 4 + length as' - 4 ≡ length as' = omega arith in rw four (take-append as' rest)

-- The parts of an MP_REACH_NLRI value.
decode_mp_reach_parts :
    (as' rest : List ℕ)
    → decode_mp_reach_nlri (0 ∷ 2 ∷ 1 ∷ length as' ∷ (as' ++ 0 ∷ rest)) ≡ (do
      nh ← decode_next_hop (length as') as'
      nlri ← decode_prefixes rest 2
      ok (mp_reach_nlri nh nlri))
unfolding decode_mp_reach_nlri
decode_mp_reach_parts as' rest =
    let value = 0 ∷ 2 ∷ 1 ∷ length as' ∷ (as' ++ 0 ∷ rest) in
    let long : ltb (length value) 5 ≡ false = rw (length-append as' (0 ∷ rest)) (ground arith) in
    let whole : ltb (length value) (4 + length as') ≡ false =
      rw (length-append as' (0 ∷ rest)) (ground arith) in
    let past : drop (4 + length as' + 1) value ≡ rest =
      let five : 4 + length as' + 1 ≡ suc (suc (suc (suc (length as' + 1)))) = omega arith in
      rw five (drop-past as' 0 rest) in
    rw (long, whole, take-next_hop as' (0 ∷ rest))
      (ap
        (λ (t : List ℕ). do
          nh ← decode_next_hop (length as') as'
          nlri ← decode_prefixes t 2
          ok (mp_reach_nlri nh nlri))
        past)

mp_reach_value :
    (nh : Addr) (nlri : List Prefix)
    → Encodable (mp_reach_nlri nh nlri)
    → decode_mp_reach_nlri (attribute_value (mp_reach_nlri nh nlri)) ≡ ok (mp_reach_nlri nh nlri)
unfolding attribute_value
mp_reach_value nh nlri h =
    let size = length-put_be (byte_count nh.family) nh.value in
    let small : length (as_slice nh) % 256 ≡ length (as_slice nh) =
      rw size (byte_count_mod nh.family) in
    rw
      (
        small,
        decode_mp_reach_parts (as_slice nh) (encode_prefixes nlri),
        size,
        next_hop_at nh.family nh.value h.0,
        decode_prefixes-encode_prefixes nlri 2 h.1,
      )
      refl

mp_unreach_value :
    (nlri : List Prefix)
    → AreV6 nlri
    → decode_mp_unreach_nlri (attribute_value (mp_unreach_nlri nlri)) ≡ ok (mp_unreach_nlri nlri)
unfolding decode_mp_unreach_nlri attribute_value
mp_unreach_value nlri h =
    let short : ltb (length (attribute_value (mp_unreach_nlri nlri))) 3 ≡ false = ground arith in
    rw (short, decode_prefixes-encode_prefixes nlri 2 h) refl

next_hop_value :
    (a : Addr)
    → Encodable (next_hop a)
    → decode_path_attribute 3 (put_be 4 a.value) ≡ ok (some (next_hop a))
unfolding decode_path_attribute
next_hop_value a h =
    λ i. ok (some (next_hop (record { family = sym h.0 i; value = be_u32 a.value h.1 i })))

-- The value of each kind of attribute is read back.
pub attribute_value_lem :
    (a : PathAttribute)
    → Encodable a
    → decode_path_attribute (type_code a) (attribute_value a) ≡ ok (some (received a))
unfolding decode_path_attribute
attribute_value_lem (origin o) h =
    unfold attribute_value in ap (λ (n : ℕ). ok (some (origin n))) (omega arith)
attribute_value_lem (as_path asn four) h = rw (as_path_value asn four h) refl
attribute_value_lem (next_hop a) h = unfold attribute_value in next_hop_value a h
attribute_value_lem (mp_reach_nlri nh nlri) h = rw (mp_reach_value nh nlri h) refl
attribute_value_lem (mp_unreach_nlri nlri) h = rw (mp_unreach_value nlri h) refl
attribute_value_lem (large_communities cs) h =
    let (same, size) = communities_value cs h in
    let whole : length (encode_communities cs) % 12 ≡ 0 = omega (arith, size) in
    let num : length (encode_communities cs) / 12 ≡ length cs = omega (arith, size) in
    unfold attribute_value in rw (whole, num, same) refl
