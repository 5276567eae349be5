-- ===== src/Bgp/Wire/Prefixes/Rounds.antt =====
-- The loop of `decodePrefixes` ends within the rounds that the model gives it.
use wdbgp.Prelude.{List, ℕ, length, ◌≤◌, arith, suc, drop, [], zero, length-drop}
use wdbgp.Netip.{Family}
use wdbgp.Bgp.Wire.Types.{ok, ◌>>=◌}
use wdbgp.Bgp.Wire.Decided.{
  IsDecided-ok, IsDecided, IsDecided-bind, Ends, Ends-fail, Ends-ok, Ends-then,
}
use wdbgp.Bgp.Wire.Prefixes.{
  bytes_needed, decode_prefix, decode_loop, decode_prefixes, family_of, ◌∷◌,
}

-- A round leaves no more bytes than it had.
pub decode_prefix-Ends :
    (f : Family) (n : ℕ) (bs : List ℕ) → Ends (λ r. length r.1 ≤ length bs) (decode_prefix f n bs)
unfolding decode_prefix
decode_prefix-Ends f n bs =
    let shorter : length (drop (bytes_needed n) bs) ≤ length bs =
      omega (arith, length-drop (bytes_needed n) bs) in
    search (Ends-fail, Ends-ok)

decode_loop-IsDecided :
    (rounds : ℕ) (f : Family) (bs : List ℕ)
    → length bs ≤ rounds
    → IsDecided (decode_loop rounds f bs)
unfolding decode_loop
decode_loop-IsDecided rounds f [] l = IsDecided-ok []
decode_loop-IsDecided zero f (b ∷ bs) l = absurd (omega arith)
decode_loop-IsDecided (suc rounds) f (b ∷ bs) l =
    Ends-then (decode_prefix f b bs) (λ r. decode_loop rounds f r.1 >>= λ ps. ok (r.0 ∷ ps))
      (decode_prefix-Ends f b bs)
      (λ r h.
        IsDecided-bind (decode_loop rounds f r.1) (λ ps. ok (r.0 ∷ ps))
          (decode_loop-IsDecided rounds f r.1 (omega arith)) (λ ps. IsDecided-ok (r.0 ∷ ps)))

pub decode_prefixes-IsDecided : (bs : List ℕ) (afi : ℕ) → IsDecided (decode_prefixes bs afi)
unfolding decode_prefixes
decode_prefixes-IsDecided bs afi =
    decode_loop-IsDecided (length bs) (family_of afi) bs (omega arith)
