-- ===== src/Bgp/Wire/Attributes/RoundTrip.antt =====
-- `decodePathAttributes` reads back what `encodePathAttributes` writes.
use wdbgp.Prelude.{
  ℕ, List, Option, ◌==◌, ◌≡◌, true, false, length, ◌∷◌, ◌++◌, ◌<◌, ltb, length-append, arith, ◌≤◌,
  refl, Bool-cases, ◌∙◌, All, ap, map, inl, inr, [], ◌+◌, ◌%◌, ◌-◌, drop, suc, append_assoc, some,
  drop-append, subst, zero, take-append,
}
use wdbgp.Bgp.Wire.Bytes.{put_be, be, be-put_be}
use wdbgp.Bgp.Wire.Types.{
  PathAttribute, origin, as_path, next_hop, mp_reach_nlri, mp_unreach_nlri, large_communities,
  Result, ok, ◌>>=◌,
}
use wdbgp.Bgp.Wire.Attributes.{
  attribute_header, attribute_value, attribute_flags, type_code, encode_path_attribute,
  serialize_attribute, encode_path_attributes, decode_path_attribute, decode_attribute,
  attributes_loop, decode_path_attributes, byte_at,
}
use wdbgp.Bgp.Wire.Attributes.Values.{Encodable, received, attribute_value_lem}
use Prim.Native.Nat.{bit_and, bit_or}

-- What a round gives for an attribute of this type and value.
abbrev Reads : ℕ → List ℕ → List ℕ → Result (Option PathAttribute × List ℕ)
Reads code value rest = do a ← decode_path_attribute code value; ok (a, rest)

-- A round on a header that gives the length of the value behind it.
round :
    (hdr value rest : List ℕ) (code : ℕ)
    → let bytes = hdr ++ (value ++ rest) in
      3 ≤ length hdr
      → byte_at bytes 1 ≡ code
      → attribute_header bytes ≡ ok (length hdr, length value)
      → decode_attribute bytes ≡ Reads code value rest
unfolding decode_attribute
round hdr value rest code three at header =
    let bytes = hdr ++ (value ++ rest) in
    let total : length bytes ≡ length hdr + (length value + length rest) =
      omega (arith, length-append hdr (value ++ rest), length-append value rest) in
    let long : ltb (length bytes) 3 ≡ false = ground arith in
    let whole : ltb (length bytes) (length hdr + length value) ≡ false = ground arith in
    let size : length hdr + length value - length hdr ≡ length value = omega arith in
    let behind : drop (length hdr + length value) bytes ≡ rest =
      rw (← length-append hdr value, ← append_assoc hdr value rest)
        (drop-append (hdr ++ value) rest) in
    rw
      (
        long,
        header,
        whole,
        at,
        behind,
        size,
        drop-append hdr (value ++ rest),
        take-append value rest,
      )
      refl

short_header :
    (flags code n : ℕ) (xs : List ℕ)
    → (bit_and flags 16 == 0) ≡ true
    → attribute_header (flags ∷ code ∷ n ∷ xs) ≡ ok (3, n)
unfolding attribute_header
short_header flags code n xs h = rw h refl

extended_header :
    (flags code n : ℕ) (xs : List ℕ)
    → (bit_and flags 16 == 0) ≡ false
    → n < 65536
    → attribute_header (flags ∷ code ∷ (put_be 2 n ++ xs)) ≡ ok (4, n)
unfolding attribute_header
extended_header flags code n xs h l =
    let bytes = flags ∷ code ∷ (put_be 2 n ++ xs) in
    let long : ltb (length bytes) 4 ≡ false = ground arith in
    let same : be (put_be 2 n) ≡ n = be-put_be 2 n ∙ omega arith in
    rw (h, long) (ap (λ (m : ℕ). ok (4, m)) same)

-- One attribute is read back, if its flags leave the bit for the extended length to the encoder.
decode_attribute-encode :
    (flags code : ℕ) (value rest : List ℕ)
    → (bit_and flags 16 == 0) ≡ true
    → (bit_and (bit_or flags 16) 16 == 0) ≡ false
    → length value < 65536
    → decode_attribute (encode_path_attribute flags code value ++ rest) ≡ Reads code value rest
unfolding encode_path_attribute
decode_attribute-encode flags code value rest clear set l =
    elim (Bool-cases (ltb 255 (length value))) [
      | inl e ↦ rw e (
          round (bit_or flags 16 ∷ code ∷ put_be 2 (length value)) value rest code (omega arith)
            refl (extended_header (bit_or flags 16) code (length value) (value ++ rest) set l))
      | inr e ↦
          let byte : length value % 256 ≡ length value = ground arith in
          rw (e, byte)
            (round (flags ∷ code ∷ length value ∷ []) value rest code (omega arith) refl
              (short_header flags code (length value) (value ++ rest) clear))
    ]

flags_clear : (a : PathAttribute) → (bit_and (attribute_flags a) 16 == 0) ≡ true
flags_clear (origin o) = refl
flags_clear (as_path asn four) = refl
flags_clear (next_hop a) = refl
flags_clear (mp_reach_nlri nh nlri) = refl
flags_clear (mp_unreach_nlri nlri) = refl
flags_clear (large_communities cs) = refl

flags_set : (a : PathAttribute) → (bit_and (bit_or (attribute_flags a) 16) 16 == 0) ≡ false
flags_set (origin o) = refl
flags_set (as_path asn four) = refl
flags_set (next_hop a) = refl
flags_set (mp_reach_nlri nh nlri) = refl
flags_set (mp_unreach_nlri nlri) = refl
flags_set (large_communities cs) = refl

-- The attribute's numbers fit their fields, and its value the two bytes of the length.
abbrev pub Writable : PathAttribute → Type 0
Writable a = Encodable a × (length (attribute_value a) < 65536)

serialize_attribute-read :
    (a : PathAttribute) (rest : List ℕ)
    → Writable a
    → decode_attribute (serialize_attribute a ++ rest) ≡ ok (some (received a), rest)
unfolding serialize_attribute
serialize_attribute-read a rest h =
    decode_attribute-encode (attribute_flags a) (type_code a) (attribute_value a) rest
      (flags_clear a) (flags_set a) h.1
    ∙ rw (attribute_value_lem a h.0) refl

serialize_attribute_head :
    (a : PathAttribute) → (b : ℕ) × (bs : List ℕ) × (serialize_attribute a ≡ b ∷ bs)
unfolding serialize_attribute encode_path_attribute
serialize_attribute_head a = elim (Bool-cases (ltb 255 (length (attribute_value a)))) [
  | inl e ↦ (
    bit_or (attribute_flags a) 16,
    type_code a ∷ (put_be 2 (length (attribute_value a)) ++ attribute_value a),
    rw e refl,
  )
  | inr e ↦ (
    attribute_flags a,
    type_code a ∷ (length (attribute_value a) % 256) ∷ attribute_value a,
    rw e refl,
  )
]

attributes_loop-encode :
    (rounds : ℕ) (as' : List PathAttribute)
    → All Writable as'
    → length (encode_path_attributes as') ≤ rounds
    → attributes_loop rounds (encode_path_attributes as') ≡ ok (map received as')
unfolding attributes_loop encode_path_attributes
attributes_loop-encode rounds [] h l = refl
attributes_loop-encode zero (a ∷ as') h l =
    let (b, bs, e) = serialize_attribute_head a in
    absurd (
      omega (
        arith,
        length-append (serialize_attribute a) (encode_path_attributes as'),
        ap (λ (xs : List ℕ). length xs) e,
      ))
attributes_loop-encode (suc rounds) (a ∷ as') h l =
    let (b, bs, e) = serialize_attribute_head a in
    let read =
      subst
        (λ (xs : List ℕ).
          decode_attribute (xs ++ encode_path_attributes as')
          ≡ ok (some (received a), encode_path_attributes as'))
        e (serialize_attribute-read a (encode_path_attributes as') h.0) in
    let shorter : length (encode_path_attributes as') ≤ rounds = omega (
      arith,
      length-append (serialize_attribute a) (encode_path_attributes as'),
      ap (λ (xs : List ℕ). length xs) e,
    ) in
    rw (e, read, attributes_loop-encode rounds as' h.1 shorter) refl

-- `decodePathAttributes` reads back the attributes that `encodePathAttributes` wrote, but for the
-- flag that an AS path keeps of the session, if their numbers fit their fields.
pub decode_path_attributes-encode :
    (as' : List PathAttribute)
    → All Writable as'
    → decode_path_attributes (encode_path_attributes as') ≡ ok (map received as')
unfolding decode_path_attributes
decode_path_attributes-encode as' h =
    attributes_loop-encode (length (encode_path_attributes as')) as' h (omega arith)
