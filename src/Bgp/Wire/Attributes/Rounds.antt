-- ===== src/Bgp/Wire/Attributes/Rounds.antt =====
-- The loop of `decodePathAttributes` ends within the rounds that the model gives it.
use wdbgp.Prelude.{
  List, ℕ, ◌==◌, ◌∷◌, Option, drop, length, ◌≤◌, arith, suc, Bool-cases, not, [], inl, zero, inr,
  ◌+◌, length-drop, ltb,
}
use wdbgp.Bgp.Wire.Types.{ok, Result, ◌>>=◌, ◌>>◌, PathAttribute, fail_if, attribute_truncated}
use wdbgp.Bgp.Wire.Bytes.{slice, byte_at}
use wdbgp.Bgp.Wire.Decided.{
  decided_rules, IsDecided-ok, IsDecided, IsDecided-bind, Ends, Ends-then, Ends-fail, Ends-ok,
  Ends-bind, decided-Ends,
}
use wdbgp.Bgp.Wire.Prefixes.Rounds.{decode_prefixes-IsDecided}
use wdbgp.Bgp.Wire.Attributes.{
  attribute_header, decode_next_hop, decode_path_attribute, decode_mp_reach_nlri,
  decode_mp_unreach_nlri, decode_as_path, decode_attribute, attributes_loop, decode_path_attributes,
  bit_and, add_attribute,
}

decode_next_hop-IsDecided : (n : ℕ) (bs : List ℕ) → IsDecided (decode_next_hop n bs)
unfolding decode_next_hop
decode_next_hop-IsDecided n bs = search decided_rules

decode_mp_reach-IsDecided : (bs : List ℕ) → IsDecided (decode_mp_reach_nlri bs)
unfolding decode_mp_reach_nlri
decode_mp_reach-IsDecided bs =
    search (decided_rules, decode_next_hop-IsDecided, decode_prefixes-IsDecided)

decode_mp_unreach-IsDecided : (bs : List ℕ) → IsDecided (decode_mp_unreach_nlri bs)
unfolding decode_mp_unreach_nlri
decode_mp_unreach-IsDecided bs = search (decided_rules, decode_prefixes-IsDecided)

decode_as_path-IsDecided : (bs : List ℕ) → IsDecided (decode_as_path bs)
unfolding decode_as_path
decode_as_path-IsDecided bs = search decided_rules depth 12

decode_path_attribute-IsDecided :
    (code : ℕ) (bs : List ℕ) → IsDecided (decode_path_attribute code bs)
unfolding decode_path_attribute
decode_path_attribute-IsDecided code bs =
    search
      (
        decided_rules, decode_mp_reach-IsDecided, decode_mp_unreach-IsDecided,
        decode_as_path-IsDecided,
      )
      depth 12

attribute_header-Ends : (bs : List ℕ) → Ends (λ r. 3 ≤ r.0) (attribute_header bs)
unfolding attribute_header
attribute_header-Ends bs = elim (Bool-cases (not (bit_and (byte_at bs 0) 16 == 0))) [
  | inl e ↦ let four : 3 ≤ 4 = omega arith in rw e (search (Ends-fail, Ends-ok))
  | inr e ↦ let three : 3 ≤ 3 = omega arith in rw e (search Ends-ok)
]

past_header :
    (hdr_len attr_len b : ℕ) (bs : List ℕ)
    → 3 ≤ hdr_len
    → length (drop (hdr_len + attr_len) (b ∷ bs)) ≤ length bs
past_header hdr_len attr_len b bs h = omega (arith, length-drop (hdr_len + attr_len) (b ∷ bs))

-- What `decodePathAttributes` does behind an attribute's header.
abbrev behind_header : List ℕ → ℕ × ℕ → Result (Option PathAttribute × List ℕ)
behind_header bytes (hdr_len, attr_len) = do
  fail_if (ltb (length bytes) (hdr_len + attr_len)) attribute_truncated
  a ← decode_path_attribute (byte_at bytes 1) (slice bytes hdr_len (hdr_len + attr_len))
  ok (a, drop (hdr_len + attr_len) bytes)

abbrev IsShorter : List ℕ → Option PathAttribute × List ℕ → Type 0
IsShorter bs r = length r.1 ≤ length bs

behind_header-Ends :
    (hdr_len attr_len b : ℕ) (bs : List ℕ)
    → 3 ≤ hdr_len
    → Ends (IsShorter bs) (behind_header (b ∷ bs) (hdr_len, attr_len))
behind_header-Ends hdr_len attr_len b bs h =
    let bytes = b ∷ bs in
    let value = slice bytes hdr_len (hdr_len + attr_len) in
    let attribute = decode_path_attribute (byte_at bytes 1) value in
    let rest = drop (hdr_len + attr_len) bytes in
    let go : Ends (IsShorter bs) (attribute >>= λ a. ok (a, rest)) =
      Ends-bind {Q = IsShorter bs} attribute (λ a. ok (a, rest))
        (decided-Ends attribute (decode_path_attribute-IsDecided (byte_at bytes 1) value))
        (λ a _. Ends-ok (a, rest) (past_header hdr_len attr_len b bs h)) in
    search Ends-fail

-- A round leaves fewer bytes than it had.
decode_attribute-Ends : (b : ℕ) (bs : List ℕ) → Ends (IsShorter bs) (decode_attribute (b ∷ bs))
unfolding decode_attribute
decode_attribute-Ends b bs =
    let bytes = b ∷ bs in
    let go : Ends (IsShorter bs) (attribute_header bytes >>= behind_header bytes) =
      Ends-bind {Q = IsShorter bs} (attribute_header bytes) (behind_header bytes)
        (attribute_header-Ends bytes) (λ r h. behind_header-Ends r.0 r.1 b bs h) in
    search Ends-fail

attributes_loop-IsDecided :
    (rounds : ℕ) (bs : List ℕ) → length bs ≤ rounds → IsDecided (attributes_loop rounds bs)
unfolding attributes_loop
attributes_loop-IsDecided rounds [] l = IsDecided-ok []
attributes_loop-IsDecided zero (b ∷ bs) l = absurd (omega arith)
attributes_loop-IsDecided (suc rounds) (b ∷ bs) l =
    Ends-then (decode_attribute (b ∷ bs))
      (λ r. attributes_loop rounds r.1 >>= λ as'. ok (add_attribute r.0 as'))
      (decode_attribute-Ends b bs)
      (λ r h.
        IsDecided-bind (attributes_loop rounds r.1) (λ as'. ok (add_attribute r.0 as'))
          (attributes_loop-IsDecided rounds r.1 (omega arith))
          (λ as'. IsDecided-ok (add_attribute r.0 as')))

pub decode_path_attributes-IsDecided : (bs : List ℕ) → IsDecided (decode_path_attributes bs)
unfolding decode_path_attributes
decode_path_attributes-IsDecided bs = attributes_loop-IsDecided (length bs) bs (omega arith)
