-- ===== src/Bgp/Wire/Types.antt =====
-- The messages of internal/bgp/wire_types.go, and the errors of wire_decode.go as values.
use wdbgp.Prelude.{ℕ, Bool, List, true}
use wdbgp.Prelude.{false}
use wdbgp.Netip.{Addr, Prefix}

pub record LargeCommunity : Type 0 where
  pub global_admin : ℕ
  pub local_data1 : ℕ
  pub local_data2 : ℕ

-- The implementations of the interface `PathAttribute`.
pub data PathAttribute : Type 0 where
  origin : ℕ → PathAttribute
  as_path : ℕ → Bool → PathAttribute
  next_hop : Addr → PathAttribute
  mp_reach_nlri : Addr → List Prefix → PathAttribute
  mp_unreach_nlri : List Prefix → PathAttribute
  large_communities : List LargeCommunity → PathAttribute

pub record OpenMessage : Type 0 where
  pub version : ℕ
  pub my_asn : ℕ
  pub my_asn32 : ℕ
  pub hold_time : ℕ
  pub bgp_id : ℕ  -- [4]byte, read as one number
  pub opt_parm_len : ℕ
  pub has_ipv6_unicast : Bool
  pub has_as4_cap : Bool

pub record UpdateMessage : Type 0 where
  pub withdrawn_routes : List Prefix
  pub path_attributes : List PathAttribute
  pub nlri : List Prefix

pub record RouteRefreshMessage : Type 0 where
  pub afi : ℕ
  pub subtype : ℕ
  pub safi : ℕ

pub record NotificationMessage : Type 0 where
  pub error_code : ℕ
  pub error_subcode : ℕ
  pub content : List ℕ

-- What `ReadMessage` returns on success.
pub data Message : Type 0 where
  open_message : OpenMessage → Message
  update : UpdateMessage → Message
  keepalive : Message
  notification : NotificationMessage → Message
  route_refresh : RouteRefreshMessage → Message

-- One constructor for each error text of the decoder; `stuck` is no error of the program: a loop
-- ran out of the rounds that the model gives it.
pub data WireError : Type 0 where
  read_header read_body header_too_short invalid_marker header_length : WireError
  keepalive_body unknown_type route_refresh_length : WireError
  open_too_short unsupported_version : WireError
  withdrawn_too_short withdrawn_length attributes_too_short attributes_length : WireError
  notification_too_short : WireError
  attribute_too_short extended_too_short attribute_truncated : WireError
  origin_length next_hop_length communities_length : WireError
  mp_reach_too_short mp_reach_truncated mp_reach_next_hop mp_unreach_too_short : WireError
  as_path_too_short as_path_type as_path_empty as_path_truncated : WireError
  prefix_truncated invalid_prefix : WireError
  stuck : WireError

-- Go's pair of a value and an error.
pub data Result {ℓ} (V : Type ℓ) : Type ℓ where
  ok : V → Result V
  err : WireError → Result V

infixl 5 ◌>>=◌ ◌>>◌
-- `if err != nil { return err }`, and then the rest of the function.
abbrev pub ◌>>=◌ {ℓv ℓw} : {V : Type ℓv} {W : Type ℓw} → Result V → (V → Result W) → Result W
err refused >>= next = err refused
ok value >>= next = next value

abbrev pub ◌>>◌ {ℓw} : {W : Type ℓw} (test : Result (Unit {0})) (next : Result W) → Result W
test >> next = test >>= λ passed. next

-- `if bad { return error }`.
abbrev pub fail_if : Bool → WireError → Result (Unit {0})
fail_if true e = err e
fail_if false e = ok tt

-- Type codes and flags.
abbrev pub attr_flag_optional : ℕ
attr_flag_optional = 0x80

abbrev pub attr_flag_transitive : ℕ
attr_flag_transitive = 0x40

abbrev pub attr_flag_extended_length : ℕ
attr_flag_extended_length = 0x10

abbrev pub header_len : ℕ
header_len = 19
