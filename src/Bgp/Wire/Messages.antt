-- ===== src/Bgp/Wire/Messages.antt =====
-- The messages of internal/bgp/wire_encode.go and wire_decode.go. A reader is the list of the
-- bytes that it still has.
use wdbgp.Prelude.{
  if◌then◌else◌, ℕ, List, length, ltb, ◌-◌, ◌∷◌, not, [], ◌==◌, replicate, ◌%◌, suc, ◌++◌, any,
  drop, take, ◌&&◌, false, ◌+◌, leb, ◌||◌, true, zero,
}
use wdbgp.Bgp.Wire.Types.{
  LargeCommunity, Message, OpenMessage, UpdateMessage, NotificationMessage, RouteRefreshMessage,
  open_message, update, keepalive, notification, route_refresh, Result, ok, err, ◌>>=◌, ◌>>◌,
  fail_if, header_len, read_header, read_body, header_too_short, invalid_marker, header_length,
  keepalive_body, unknown_type, route_refresh_length, open_too_short, unsupported_version,
  withdrawn_too_short, withdrawn_length, stuck, attributes_too_short, attributes_length,
  notification_too_short, WireError,
}
use wdbgp.Bgp.Wire.Bytes.{put_be, be, slice, byte_at}
use wdbgp.Bgp.Wire.Prefixes.{encode_prefixes, decode_prefixes}
use wdbgp.Bgp.Wire.Attributes.{encode_path_attributes, decode_path_attributes}
pub mod Bodies
pub mod RoundTrip
pub mod Rounds

-- `wrapMessage`.
unfoldable pub wrap_message : ℕ → List ℕ → List ℕ
wrap_message msg_type body =
    replicate 16 0xff ++ (put_be 2 (header_len + length body) ++ (msg_type ∷ body))

-- The capability parameter that `OpenMessage.Serialize` sends: IPv6 unicast, IPv4 unicast,
-- four-octet ASN and route refresh.
abbrev pub capabilities : ℕ → List ℕ
capabilities my_asn32 =
    2
    ∷ 20
    ∷ 1
    ∷ 4
    ∷ 0
    ∷ 2
    ∷ 0
    ∷ 1
    ∷ 1
    ∷ 4
    ∷ 0
    ∷ 1
    ∷ 0
    ∷ 1
    ∷ 65
    ∷ 4
    ∷ (put_be 4 my_asn32 ++ (2 ∷ 0 ∷ []))

-- What `Serialize` writes into the message before it encodes it: an ASN beyond two bytes is
-- announced as AS_TRANS.
abbrev pub with_my_asn : OpenMessage → OpenMessage
with_my_asn o = record o {
  opt_parm_len = 22;
  my_asn = if ltb 65535 o.my_asn32 then 23456 else o.my_asn32 % 65536;
}

unfoldable pub open_body : OpenMessage → List ℕ
open_body o =
    (o.version % 256)
    ∷ (put_be 2 o.my_asn
        ++ (put_be 2 o.hold_time
            ++ (put_be 4 o.bgp_id ++ (o.opt_parm_len ∷ capabilities o.my_asn32))))

unfoldable pub serialize_open : OpenMessage → List ℕ
unfolding open_body wrap_message
serialize_open o = wrap_message 1 (open_body (with_my_asn o))

unfoldable pub update_body : UpdateMessage → List ℕ
update_body u =
    let withdrawn = encode_prefixes u.withdrawn_routes in
    let attributes = encode_path_attributes u.path_attributes in
    put_be 2 (length withdrawn)
    ++ (withdrawn ++ (put_be 2 (length attributes) ++ (attributes ++ encode_prefixes u.nlri)))

unfoldable pub serialize_update : UpdateMessage → List ℕ
unfolding update_body wrap_message
serialize_update u = wrap_message 2 (update_body u)

pub serialize_keepalive : List ℕ
unfolding wrap_message
serialize_keepalive = wrap_message 4 []

pub serialize_notification : NotificationMessage → List ℕ
unfolding wrap_message
serialize_notification n =
    wrap_message 3 ((n.error_code % 256) ∷ (n.error_subcode % 256) ∷ n.content)

-- `decodeHeader`: the length and the type.
pub decode_header : List ℕ → Result (ℕ × ℕ)
decode_header bytes = do
  fail_if (ltb (length bytes) header_len) header_too_short
  let len = be (slice bytes 16 18)
  fail_if (any (λ b. not (b == 0xff)) (slice bytes 0 16)) invalid_marker
  fail_if (ltb len header_len) header_length
  ok (len, byte_at bytes 18)

pub decode_route_refresh : List ℕ → Result Message
decode_route_refresh body = do
  fail_if (not (length body == 4)) route_refresh_length
  ok (
      route_refresh
        (record { afi = be (slice body 0 2); subtype = byte_at body 2; safi = byte_at body 3 }))

-- One capability, in the order of the two tests.
abbrev pub add_capability : ℕ → ℕ → List ℕ → OpenMessage → OpenMessage
add_capability cap_code cap_len value o =
    if cap_code == 65 && cap_len == 4
    then record o { my_asn32 = be value; has_as4_cap = true }
    else if cap_code == 1 && cap_len == 4 && be (slice value 0 2) == 2 && byte_at value 3 == 1
    then record o { has_ipv6_unicast = true }
    else o

-- The loop over the capabilities of a parameter; it stops at one that is cut short. It moves on by two
-- bytes at least, so one round more than there are bytes is enough.
pub capabilities_loop : ℕ → List ℕ → OpenMessage → Result OpenMessage
capabilities_loop zero cap_data o = err stuck
capabilities_loop (suc rounds) cap_data o =
    let cap_len = byte_at cap_data 1 in
    let value = slice cap_data 2 (2 + cap_len) in
    let next =
      capabilities_loop rounds (drop (2 + cap_len) cap_data)
        (add_capability (byte_at cap_data 0) cap_len value o) in
    if ltb (length cap_data) 2 || ltb (length cap_data) (2 + cap_len) then ok o else next

-- What a parameter does; type 2 holds capabilities.
pub add_parameter : ℕ → List ℕ → OpenMessage → Result OpenMessage
unfolding capabilities_loop
add_parameter param_type value o =
    if param_type == 2 then capabilities_loop (suc (length value)) value o else ok o

-- The loop over the optional parameters.
pub parameters_loop : ℕ → List ℕ → OpenMessage → Result OpenMessage
unfolding add_parameter
parameters_loop zero opts o = err stuck
parameters_loop (suc rounds) opts o =
    let param_len = byte_at opts 1 in
    let here = add_parameter (byte_at opts 0) (slice opts 2 (2 + param_len)) o in
    let next = here >>= λ o'. parameters_loop rounds (drop (2 + param_len) opts) o' in
    if ltb (length opts) 2 || ltb (length opts) (2 + param_len) then ok o else next

pub decode_open : List ℕ → Result Message
unfolding parameters_loop
decode_open body = do
  fail_if (ltb (length body) 10) open_too_short
  let n = byte_at body 9
  let o : OpenMessage = record {
    version = byte_at body 0;
    my_asn = be (slice body 1 3);
    my_asn32 = 0;
    hold_time = be (slice body 3 5);
    bgp_id = be (slice body 5 9);
    opt_parm_len = n;
    has_ipv6_unicast = false;
    has_as4_cap = false;
  }
  fail_if (not (o.version == 4)) unsupported_version
  let opts = slice body 10 (10 + n)
  read ←
      if ltb 0 n && leb (10 + n) (length body)
      then parameters_loop (suc (length opts)) opts o
      else ok o
  ok (open_message read)

pub decode_update : List ℕ → Result Message
decode_update body = do
  fail_if (ltb (length body) 2) withdrawn_too_short
  let withdrawn_len = be (slice body 0 2)
  let body1 = drop 2 body
  fail_if (ltb (length body1) withdrawn_len) withdrawn_length
  withdrawn ← decode_prefixes (take withdrawn_len body1) 1
  let body2 = drop withdrawn_len body1
  fail_if (ltb (length body2) 2) attributes_too_short
  let attr_len = be (slice body2 0 2)
  let body3 = drop 2 body2
  fail_if (ltb (length body3) attr_len) attributes_length
  attributes ← decode_path_attributes (take attr_len body3)
  nlri ← decode_prefixes (drop attr_len body3) 1
  ok (update (record { withdrawn_routes = withdrawn; path_attributes = attributes; nlri = nlri }))

pub decode_notification : List ℕ → Result Message
decode_notification body = do
  fail_if (ltb (length body) 2) notification_too_short
  ok (
      notification (record {
        error_code = byte_at body 0;
        error_subcode = byte_at body 1;
        content = drop 2 body;
      }))

pub decode_body : ℕ → List ℕ → Result Message
unfolding decode_open decode_update decode_notification decode_route_refresh
decode_body msg_type body =
    if msg_type == 1
    then decode_open body
    else if msg_type == 2
    then decode_update body
    else if msg_type == 4
    then (do fail_if (not (length body == 0)) keepalive_body; ok keepalive)
    else if msg_type == 3
    then decode_notification body
    else if msg_type == 5
    then decode_route_refresh body
    else err unknown_type

-- `io.ReadFull`: the bytes and those that stay, or the error if the reader ends before.
abbrev pub read_full : ℕ → WireError → List ℕ → Result (List ℕ × List ℕ)
read_full n e bytes = fail_if (ltb (length bytes) n) e >> ok (take n bytes, drop n bytes)

-- `ReadMessage`: the message and what the reader still has.
pub read_message : List ℕ → Result (Message × List ℕ)
unfolding decode_header decode_body
read_message bytes = do
  (header, after) ← read_full header_len read_header bytes
  (len, msg_type) ← decode_header header
  (body, rest) ← read_full (len - header_len) read_body after
  m ← decode_body msg_type body
  ok (m, rest)
