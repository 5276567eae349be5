-- ===== src/Bgp/Wire/Messages/Rounds.antt =====
-- The loops of `ReadMessage` end within the rounds that the model gives them.
use wdbgp.Prelude.{
  false, ◌<◌, ℕ, List, length, suc, ◌≡◌, zero, drop, Bool, ◌+◌, arith, ltb, length-drop, ◌==◌,
  Bool-cases, ◌||◌, inl, inr,
}
use wdbgp.Bgp.Wire.Types.{OpenMessage, ok}
use wdbgp.Bgp.Wire.Bytes.{byte_at, slice}
use wdbgp.Bgp.Wire.Decided.{decided_rules, IsDecided, IsDecided-ok, IsDecided-bind, IsDecided-if}
use wdbgp.Bgp.Wire.Prefixes.Rounds.{decode_prefixes-IsDecided}
use wdbgp.Bgp.Wire.Attributes.Rounds.{decode_path_attributes-IsDecided}
use wdbgp.Bgp.Wire.Messages.{
  read_message, decode_header, decode_body, decode_open, decode_update, decode_notification,
  decode_route_refresh, capabilities_loop, parameters_loop, add_capability, add_parameter,
}

decode_update-IsDecided : (body : List ℕ) → IsDecided (decode_update body)
unfolding decode_update
decode_update-IsDecided body =
    search (decided_rules, decode_prefixes-IsDecided, decode_path_attributes-IsDecided) depth 20

-- A TLV is cut short, where both loops stop.
abbrev is_cut : List ℕ → Bool
is_cut d = ltb (length d) 2 || ltb (length d) (2 + byte_at d 1)

past_tlv :
    (n : ℕ) (d : List ℕ)
    → length d < suc n
    → is_cut d ≡ false
    → length (drop (2 + byte_at d 1) d) < n
past_tlv n d h whole = ground (arith, whole, length-drop (2 + byte_at d 1) d)

capabilities_loop-IsDecided :
    (n : ℕ) (cap_data : List ℕ) (o : OpenMessage)
    → length cap_data < n
    → IsDecided (capabilities_loop n cap_data o)
unfolding capabilities_loop
capabilities_loop-IsDecided zero cap_data o h = absurd (omega (arith, h))
capabilities_loop-IsDecided (suc n) cap_data o h = elim (Bool-cases (is_cut cap_data)) [
  | inl e ↦ rw e (IsDecided-ok o)
  | inr e ↦
      let cap_len = byte_at cap_data 1 in
      rw e (
        capabilities_loop-IsDecided n (drop (2 + cap_len) cap_data)
          (add_capability (byte_at cap_data 0) cap_len (slice cap_data 2 (2 + cap_len)) o)
          (past_tlv n cap_data h e))
]

add_parameter-IsDecided :
    (param_type : ℕ) (value : List ℕ) (o : OpenMessage)
    → IsDecided (add_parameter param_type value o)
unfolding add_parameter
add_parameter-IsDecided param_type value o =
    IsDecided-if (param_type == 2) (capabilities_loop (suc (length value)) value o) (ok o)
      (capabilities_loop-IsDecided (suc (length value)) value o (omega arith)) (IsDecided-ok o)

-- The loop over the optional parameters of an OPEN, with the loops over the capabilities inside it,
-- ends by itself within any number of rounds that is larger than the number of their bytes.
pub parameters_loop-IsDecided :
    (n : ℕ) (opts : List ℕ) (o : OpenMessage)
    → length opts < n
    → IsDecided (parameters_loop n opts o)
unfolding parameters_loop
parameters_loop-IsDecided zero opts o h = absurd (omega (arith, h))
parameters_loop-IsDecided (suc n) opts o h = elim (Bool-cases (is_cut opts)) [
  | inl e ↦ rw e (IsDecided-ok o)
  | inr e ↦
      let param_len = byte_at opts 1 in
      let here = add_parameter (byte_at opts 0) (slice opts 2 (2 + param_len)) o in
      rw e (
        IsDecided-bind here (λ o'. parameters_loop n (drop (2 + param_len) opts) o')
          (add_parameter-IsDecided (byte_at opts 0) (slice opts 2 (2 + param_len)) o)
          (λ o'. parameters_loop-IsDecided n (drop (2 + param_len) opts) o' (past_tlv n opts h e)))
]

enough_rounds :
    (opts : List ℕ) (o : OpenMessage) → IsDecided (parameters_loop (suc (length opts)) opts o)
enough_rounds opts o = parameters_loop-IsDecided (suc (length opts)) opts o (omega arith)

decode_open-IsDecided : (body : List ℕ) → IsDecided (decode_open body)
unfolding decode_open
decode_open-IsDecided body = search (decided_rules, enough_rounds) depth 12

decode_body-IsDecided : (msg_type : ℕ) (body : List ℕ) → IsDecided (decode_body msg_type body)
unfolding decode_body decode_notification decode_route_refresh
decode_body-IsDecided msg_type body =
    search (decided_rules, decode_update-IsDecided, decode_open-IsDecided) depth 20

decode_header-IsDecided : (bytes : List ℕ) → IsDecided (decode_header bytes)
unfolding decode_header
decode_header-IsDecided bytes = search decided_rules depth 12

-- `ReadMessage` ends on every input with a message or one of the errors of the decoder: no loop over
-- prefixes, path attributes, optional parameters or capabilities runs out of the rounds that the
-- model gives it.
pub read_message-IsDecided : (bytes : List ℕ) → IsDecided (read_message bytes)
unfolding read_message
read_message-IsDecided bytes =
    search (decided_rules, decode_header-IsDecided, decode_body-IsDecided) depth 20
