-- ===== src/Store/Runs.antt =====
-- Tests of the columns.
use wdbgp.Prelude.{◌∷◌, ◌≡◌, ◌↔◌, [], none, arith, refl}
use wdbgp.Netip.{v4, Prefix, masked}
use wdbgp.Store.IpCodec.{encode_prefix, decode_addr, encode_prefix-same}

-- 10.0.0.1/8 and 10.0.0.0/8.
abbrev host : Prefix
host = record { addr = record { family = v4; value = 167772161 }; bits = 8 }

abbrev net : Prefix
net = record { addr = record { family = v4; value = 167772160 }; bits = 8 }

columns : encode_prefix host ≡ (10 ∷ 0 ∷ 0 ∷ 0 ∷ [], 8)
unfolding encode_prefix masked
columns = refl

too_short : decode_addr (10 ∷ 0 ∷ []) ≡ none
unfolding decode_addr
too_short = refl

encode_prefix-same_example : (encode_prefix host ≡ encode_prefix net) ↔ (masked host ≡ masked net)
encode_prefix-same_example =
    encode_prefix-same host net (record { fits = omega arith; in_range = omega arith })
      (record { fits = omega arith; in_range = omega arith })
