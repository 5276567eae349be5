-- ===== src/Netip/Samples.antt =====
-- Prefixes and addresses that the tests use.
use wdbgp.Prelude.{ℕ, ◌+◌, ◌*◌}
use wdbgp.Netip.{v4, v6, Addr, Prefix}

abbrev pub ipv4 : ℕ → ℕ → ℕ → ℕ → Addr
ipv4 a b c d = record { family = v4; value = ((a * 256 + b) * 256 + c) * 256 + d }

abbrev pub cidr : Addr → ℕ → Prefix
cidr a n = record { addr = a; bits = n }

-- 2001:db8::
abbrev pub doc_v6 : Addr
doc_v6 = record { family = v6; value = 0x20010db8000000000000000000000000 }
