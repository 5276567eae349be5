-- ===== src/Bgp/Wire/Messages/Bodies.antt =====
-- The bodies of OPEN, UPDATE and NOTIFICATION are read back.
use wdbgp.Prelude.{
  List, ◌≤◌, ◌≡◌, true, ℕ, arith, length, ◌<◌, ◌++◌, ◌+◌, map, ◌%◌, All, refl, length-append, sym,
  ltb, false, take-append, drop-append,
}
use wdbgp.Netip.{Prefix, v4}
use wdbgp.Netip.Cover.{IsBlock}
use wdbgp.Bgp.Wire.Types.{OpenMessage, UpdateMessage, open_message, update, ok, ◌>>=◌}
use wdbgp.Bgp.Wire.Bytes.{put_be, be}
use wdbgp.Bgp.Wire.Prefixes.{encode_prefixes, decode_prefixes}
use wdbgp.Bgp.Wire.Prefixes.RoundTrip.{decode_prefixes-encode_prefixes}
use wdbgp.Bgp.Wire.Attributes.{encode_path_attributes, decode_path_attributes}
use wdbgp.Bgp.Wire.Attributes.Values.{IsU32, be_u32, be_u16, received}
use wdbgp.Bgp.Wire.Attributes.RoundTrip.{Writable, decode_path_attributes-encode}
use wdbgp.Bgp.Wire.Messages.{update_body, decode_update, open_body, with_my_asn, decode_open}

-- The three sections of an UPDATE.
decode_update_parts :
    (w a n : List ℕ)
    → length w < 65536
    → length a < 65536
    → decode_update (put_be 2 (length w) ++ (w ++ (put_be 2 (length a) ++ (a ++ n)))) ≡ (do
      withdrawn ← decode_prefixes w 1
      attributes ← decode_path_attributes a
      nlri ← decode_prefixes n 1
      ok (
          update
            (record { withdrawn_routes = withdrawn; path_attributes = attributes; nlri = nlri })))
unfolding decode_update
decode_update_parts w a n hw ha =
    let body3 = a ++ n in
    let body1 = w ++ (put_be 2 (length a) ++ body3) in
    let lw : be (put_be 2 (length w)) ≡ length w = be_u16 (length w) (omega arith) in
    let la : be (put_be 2 (length a)) ≡ length a = be_u16 (length a) (omega arith) in
    let body2 = put_be 2 (length a) ++ body3 in
    let size1 : length body1 ≡ length w + length body2 = length-append w body2 in
    let size3 : length body3 ≡ length a + length n = length-append a n in
    let long1 : ltb (length (put_be 2 (length w) ++ body1)) 2 ≡ false = ground arith in
    let whole1 : ltb (length body1) (length w) ≡ false = ground arith in
    let long2 : ltb (length body2) 2 ≡ false = ground arith in
    let whole3 : ltb (length body3) (length a) ≡ false = ground arith in
    rw
      (
        long1,
        lw,
        whole1,
        take-append w body2,
        drop-append w body2,
        long2,
        la,
        whole3,
        take-append a n,
        drop-append a n,
      )
      refl

-- The numbers of an OPEN fit their fields, and the version is the one that is spoken.
pub record IsOpen (o : OpenMessage) : Type 0 where
  pub version_4 : o.version ≡ 4
  pub asn : IsU32 o.my_asn32
  pub hold : o.hold_time ≤ 65535
  pub id : IsU32 o.bgp_id

-- An OPEN as the other side has it: this speaker's capabilities are all there.
abbrev pub opened : OpenMessage → OpenMessage
opened o = record (with_my_asn o) { has_ipv6_unicast = true; has_as4_cap = true }

my_asn_fits : (o : OpenMessage) → (with_my_asn o).my_asn ≤ 65535
my_asn_fits o = ground arith

pub decode_open-open_body :
    (o : OpenMessage)
    → IsOpen o
    → decode_open (open_body (with_my_asn o)) ≡ ok (open_message (opened o))
unfolding decode_open open_body
decode_open-open_body o h =
    let version : o.version % 256 ≡ 4 = omega (arith, h.version_4) in
    let sent = with_my_asn o in
    rw version (λ i. ok (
      open_message (record {
        version = sym h.version_4 i;
        my_asn = be_u16 sent.my_asn (my_asn_fits o) i;
        my_asn32 = be_u32 o.my_asn32 h.asn i;
        hold_time = be_u16 o.hold_time h.hold i;
        bgp_id = be_u32 o.bgp_id h.id i;
        opt_parm_len = 22;
        has_ipv6_unicast = true;
        has_as4_cap = true;
      })))

-- Masked IPv4 prefixes, as UPDATE carries them outside its attributes.
abbrev pub AreV4 : List Prefix → Type 0
AreV4 ps = All (λ p. IsBlock p × (p.addr.family ≡ v4)) ps

-- An UPDATE whose parts fit their length fields.
pub record IsUpdate (u : UpdateMessage) : Type 0 where
  pub withdrawn_v4 : AreV4 u.withdrawn_routes
  pub nlri_v4 : AreV4 u.nlri
  pub attributes : All Writable u.path_attributes
  pub withdrawn_size : length (encode_prefixes u.withdrawn_routes) < 65536
  pub attributes_size : length (encode_path_attributes u.path_attributes) < 65536

-- An UPDATE as the other side has it.
abbrev pub updated : UpdateMessage → UpdateMessage
updated u = record u { path_attributes = map received u.path_attributes }

pub decode_update-update_body :
    (u : UpdateMessage) → IsUpdate u → decode_update (update_body u) ≡ ok (update (updated u))
unfolding update_body
decode_update-update_body u h =
    rw
      (
        decode_update_parts (encode_prefixes u.withdrawn_routes)
            (encode_path_attributes u.path_attributes) (encode_prefixes u.nlri) h.withdrawn_size
            h.attributes_size,
        decode_prefixes-encode_prefixes u.withdrawn_routes 1 h.withdrawn_v4,
        decode_path_attributes-encode u.path_attributes h.attributes,
        decode_prefixes-encode_prefixes u.nlri 1 h.nlri_v4,
      )
      refl
