-- ===== src/PrefixFilter/Subtract.antt =====
-- internal/prefixfilter/filter.go: the part of one prefix that another one leaves.
pub mod Halves
pub mod Fragments
mod Runs
use wdbgp.Prelude.{
  ℕ, zero, suc, ◌+◌, ◌-◌, ◌/◌, ◌%◌, ◌^◌, Bool, true, false, not, ◌&&◌, leb, ◌==◌, if◌then◌else◌,
  List, [], ◌∷◌,
}
use wdbgp.Netip.{Addr, Prefix, bit_len, masked, contains}

-- `x | 1 << k` for one bit.
set_bit : ℕ → ℕ → ℕ
set_bit v k = if v / 2 ^ k % 2 == 1 then v else v + 2 ^ k

-- The two halves of a block. Bit `bits` of the address, counted from its high end, is the new one.
pub children : Prefix → Prefix × Prefix
unfolding set_bit
children prefix =
    let p = masked prefix in
    let left : Prefix = record { addr = p.addr; bits = p.bits + 1 } in
    let high : Addr = record {
      family = p.addr.family;
      value = set_bit p.addr.value (bit_len p.addr - 1 - p.bits);
    } in
    (left, record { addr = high; bits = p.bits + 1 })

-- The loop of `subtract`. Each round adds one bit to `current`, so it runs
-- `denied.bits - current.bits` times.
subtract_loop : ℕ → Prefix → Prefix → List Prefix
subtract_loop zero current denied = []
subtract_loop (suc rounds) current denied =
    let (left, right) = children current in
    elim (contains left denied.addr) [
      | true ↦ right ∷ subtract_loop rounds left denied
      | false ↦ left ∷ subtract_loop rounds right denied
    ]

-- `subtract` after its two `Masked` lines.
subtract_masked : Prefix → Prefix → List Prefix
unfolding subtract_loop
subtract_masked prefix denied =
    if not (bit_len prefix.addr == bit_len denied.addr)
    then prefix ∷ []
    else if contains denied prefix.addr && leb denied.bits prefix.bits
    then []
    else if not (contains prefix denied.addr)
    then prefix ∷ []
    else if leb denied.bits prefix.bits
    then []
    else subtract_loop (denied.bits - prefix.bits) prefix denied

-- The part of one prefix that another one does not cover, as fragments.
unfoldable pub subtract : Prefix → Prefix → List Prefix
unfolding subtract_masked children
subtract prefix denied = subtract_masked (masked prefix) (masked denied)
