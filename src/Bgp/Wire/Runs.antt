-- ===== src/Bgp/Wire/Runs.antt =====
-- Concrete messages and their bytes, and the theorems of the codec at them.
use wdbgp.Prelude.{refl, false, ◌∷◌, length, ◌++◌, List, arith, All, ◌≡◌, [], ◌≤◌, true}
use wdbgp.Netip.{Prefix}
use wdbgp.Netip.Cover.{IsBlock}
use wdbgp.Netip.Samples.{ipv4, cidr, doc_v6}
use wdbgp.Bgp.Wire.Types.{
  LargeCommunity, PathAttribute, origin, as_path, next_hop, mp_reach_nlri, mp_unreach_nlri,
  large_communities, OpenMessage, UpdateMessage, open_message, update, ok,
}
use wdbgp.Bgp.Wire.Decided.{IsDecided}
use wdbgp.Bgp.Wire.Prefixes.{encode_prefix, encode_prefixes}
use wdbgp.Bgp.Wire.Attributes.{
  encode_path_attribute, encode_community, encode_communities, attribute_value, serialize_attribute,
  encode_path_attributes,
}
use wdbgp.Bgp.Wire.Attributes.RoundTrip.{Writable}
use wdbgp.Bgp.Wire.Messages.{
  update_body, serialize_update, serialize_open, read_message, parameters_loop,
}
use wdbgp.Bgp.Wire.Messages.Bodies.{opened, IsUpdate, updated}
use wdbgp.Bgp.Wire.Messages.RoundTrip.{read_message-serialize_open, read_message-serialize_update}
use wdbgp.Bgp.Wire.Messages.Rounds.{read_message-IsDecided, parameters_loop-IsDecided}

abbrev community : LargeCommunity
community = record { global_admin = 65001; local_data1 = 1; local_data2 = 4294967295 }

abbrev net24 : Prefix
net24 = cidr (ipv4 198 51 100 0) 24

abbrev net6 : Prefix
net6 = cidr doc_v6 32

net24-IsBlock : IsBlock net24
net24-IsBlock = record { valid = omega arith; masked = refl }

net6-IsBlock : IsBlock net6
net6-IsBlock = record { valid = omega arith; masked = refl }

abbrev attributes : List PathAttribute
attributes =
    origin 0
    ∷ as_path 65001 true
    ∷ next_hop (ipv4 192 0 2 1)
    ∷ mp_reach_nlri doc_v6 (net6 ∷ [])
    ∷ mp_unreach_nlri (net6 ∷ [])
    ∷ large_communities (community ∷ [])
    ∷ []

attributes-Writable : All Writable attributes
unfolding attribute_value encode_communities encode_community encode_prefixes encode_prefix
attributes-Writable = (
  (omega arith, omega arith),
  (
    (omega arith, omega arith),
    (
      ((refl, omega arith), omega arith),
      (
        ((omega arith, ((net6-IsBlock, refl), tt)), omega arith),
        (
          (((net6-IsBlock, refl), tt), omega arith),
          ((((omega arith, omega arith, omega arith), tt), omega arith), tt),
        ),
      ),
    ),
  ),
)

net24_bytes : encode_prefixes (net24 ∷ []) ≡ 24 ∷ 198 ∷ 51 ∷ 100 ∷ []
unfolding encode_prefixes encode_prefix
net24_bytes = refl

abbrev message : UpdateMessage
message = record { withdrawn_routes = net24 ∷ []; path_attributes = attributes; nlri = net24 ∷ [] }

message-IsUpdate : IsUpdate message
unfolding encode_path_attributes serialize_attribute encode_path_attribute attribute_value
    encode_communities encode_community encode_prefixes encode_prefix
message-IsUpdate = record {
  withdrawn_v4 = ((net24-IsBlock, refl), tt);
  nlri_v4 = ((net24-IsBlock, refl), tt);
  attributes = attributes-Writable;
  withdrawn_size = omega arith;
  attributes_size = omega arith;
}

message_size : length (update_body message) ≤ 65516
unfolding update_body encode_path_attributes serialize_attribute encode_path_attribute
    attribute_value encode_communities encode_community encode_prefixes encode_prefix
message_size = omega arith

read_message-serialize_update_example :
    read_message (serialize_update message ++ (255 ∷ [])) ≡ ok (update (updated message), 255 ∷ [])
read_message-serialize_update_example =
    read_message-serialize_update message (255 ∷ []) message-IsUpdate message_size

-- A speaker with an ASN beyond two bytes, which sends AS_TRANS.
abbrev speaker : OpenMessage
speaker = record {
  version = 4;
  my_asn = 0;
  my_asn32 = 4200000001;
  hold_time = 90;
  bgp_id = 3221225985;
  opt_parm_len = 0;
  has_ipv6_unicast = false;
  has_as4_cap = false;
}

read_message-serialize_open_example :
    read_message (serialize_open speaker ++ []) ≡ ok (open_message (opened speaker), [])
read_message-serialize_open_example =
    read_message-serialize_open speaker []
      (record { version_4 = refl; asn = omega arith; hold = omega arith; id = omega arith })

read_message-IsDecided_example : IsDecided (read_message (serialize_open speaker))
read_message-IsDecided_example = read_message-IsDecided (serialize_open speaker)

-- A parameter of another type, and one with a capability.
parameters_loop-IsDecided_example :
    IsDecided (parameters_loop 8 (1 ∷ 1 ∷ 0 ∷ 2 ∷ 2 ∷ 2 ∷ 0 ∷ []) speaker)
parameters_loop-IsDecided_example =
    parameters_loop-IsDecided 8 (1 ∷ 1 ∷ 0 ∷ 2 ∷ 2 ∷ 2 ∷ 0 ∷ []) speaker (omega arith)
