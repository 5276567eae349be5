-- ===== src/Bgp/Wire/Messages/RoundTrip.antt =====
-- `ReadMessage` reads back what the `Serialize` methods of the messages write.
use wdbgp.Prelude.{
  ℕ, List, ◌≤◌, ◌+◌, replicate, ◌++◌, length, ◌≡◌, ◌∷◌, arith, [], ltb, false, refl, ◌-◌,
  length-append, take-append, drop-append, ◌∙◌, subst, ◌<◌, ◌%◌, suc,
}
use wdbgp.Bgp.Wire.Types.{
  OpenMessage, UpdateMessage, NotificationMessage, open_message, update, notification, keepalive,
  ok, ◌>>=◌,
}
use wdbgp.Bgp.Wire.Bytes.{put_be, be}
use wdbgp.Bgp.Wire.Attributes.Values.{be_u16}
use wdbgp.Bgp.Wire.Messages.{
  wrap_message, read_message, decode_header, decode_body, serialize_open, serialize_update,
  serialize_notification, serialize_keepalive, open_body, update_body, with_my_asn, WireError,
  decode_notification, read_full, read_header, read_body,
}
use wdbgp.Bgp.Wire.Messages.Bodies.{
  IsOpen, opened, decode_open-open_body, IsUpdate, updated, decode_update-update_body,
}

decode_header-header :
    (msg_type len : ℕ)
    → 19 ≤ len
    → len ≤ 65535
    → decode_header (replicate 16 255 ++ (put_be 2 len ++ (msg_type ∷ []))) ≡ ok (len, msg_type)
unfolding decode_header
decode_header-header msg_type len lo hi =
    let same : be (put_be 2 len) ≡ len = be_u16 len hi in
    let long : ltb len 19 ≡ false = ground arith in rw (same, long) refl

read_full_lem : (e : WireError) (xs ys : List ℕ) → read_full (length xs) e (xs ++ ys) ≡ ok (xs, ys)
read_full_lem e xs ys =
    let enough : ltb (length (xs ++ ys)) (length xs) ≡ false =
      rw (length-append xs ys) (ground arith) in
    rw (enough, take-append xs ys, drop-append xs ys) refl

read_message_parts :
    (header body rest : List ℕ) (msg_type : ℕ)
    → length header ≡ 19
    → decode_header header ≡ ok (19 + length body, msg_type)
    → read_message (header ++ (body ++ rest)) ≡ (do m ← decode_body msg_type body; ok (m, rest))
unfolding read_message
read_message_parts header body rest msg_type n e =
    let first =
      subst
        (λ (k : ℕ). read_full k read_header (header ++ (body ++ rest)) ≡ ok (header, body ++ rest))
        n (read_full_lem read_header header (body ++ rest)) in
    let size : 19 + length body - 19 ≡ length body = omega arith in
    rw (first, e, size, read_full_lem read_body body rest) refl

-- A wrapped body is decoded by its type, and the reader stands behind it.
pub read_message-wrap_message :
    (msg_type : ℕ) (body rest : List ℕ)
    → length body ≤ 65516
    → read_message (wrap_message msg_type body ++ rest)
      ≡ (do m ← decode_body msg_type body; ok (m, rest))
unfolding wrap_message
read_message-wrap_message msg_type body rest h =
    let len = 19 + length body in
    read_message_parts (replicate 16 255 ++ (put_be 2 len ++ (msg_type ∷ []))) body rest msg_type
      refl (decode_header-header msg_type len (omega arith) (omega arith))

-- An OPEN of version 4 whose numbers fit their fields is read back with the capabilities of this
-- speaker and AS_TRANS for a longer ASN, and no byte behind it is consumed.
pub read_message-serialize_open :
    (o : OpenMessage) (rest : List ℕ)
    → IsOpen o
    → read_message (serialize_open o ++ rest) ≡ ok (open_message (opened o), rest)
unfolding serialize_open decode_body
read_message-serialize_open o rest h =
    read_message-wrap_message 1 (open_body (with_my_asn o)) rest (unfold open_body in omega arith)
    ∙ rw (decode_open-open_body o h) refl

-- An UPDATE of masked prefixes whose parts fit their length fields and the message is read back, its
-- attributes as the receiver has them, and no byte behind it is consumed.
pub read_message-serialize_update :
    (u : UpdateMessage) (rest : List ℕ)
    → IsUpdate u
    → length (update_body u) ≤ 65516
    → read_message (serialize_update u ++ rest) ≡ ok (update (updated u), rest)
unfolding serialize_update decode_body
read_message-serialize_update u rest h l =
    read_message-wrap_message 2 (update_body u) rest l ∙ rw (decode_update-update_body u h) refl

pub read_message-serialize_keepalive :
    (rest : List ℕ) → read_message (serialize_keepalive ++ rest) ≡ ok (keepalive, rest)
unfolding serialize_keepalive decode_body
read_message-serialize_keepalive rest = read_message-wrap_message 4 [] rest (omega arith)

-- A NOTIFICATION whose codes are bytes and that fits a message is read back, and no byte behind it is
-- consumed.
pub read_message-serialize_notification :
    (n : NotificationMessage) (rest : List ℕ)
    → n.error_code < 256
    → n.error_subcode < 256
    → length n.content ≤ 65514
    → read_message (serialize_notification n ++ rest) ≡ ok (notification n, rest)
unfolding serialize_notification decode_body decode_notification
read_message-serialize_notification n rest hc hs l =
    let code : n.error_code % 256 ≡ n.error_code = omega arith in
    let sub : n.error_subcode % 256 ≡ n.error_subcode = omega arith in
    let long : ltb (suc (suc (length n.content))) 2 ≡ false = ground arith in
    read_message-wrap_message 3 ((n.error_code % 256) ∷ (n.error_subcode % 256) ∷ n.content) rest
      (omega arith)
    ∙ rw (long, code, sub) refl
