-- ===== src/PrefixFilter/Apply/Runs.antt =====
-- Concrete runs of `Apply`, and the theorems at concrete inputs.
use wdbgp.Prelude.{◌≡◌, List, All, arith, none, some, [], false, refl, true, ◌&&◌, not}
use wdbgp.Netip.{Addr, Prefix, masked, contains, prefix_eq, addr_less, Prefix}
use wdbgp.Netip.Samples.{ipv4, cidr}
use wdbgp.Netip.Cover.{covered}
use wdbgp.PrefixFilter.Normalize.{normalize}
use wdbgp.PrefixFilter.Subtract.{subtract}
use wdbgp.PrefixFilter.Apply.{Lists, apply, intersect, limit_of, ◌∷◌}
use wdbgp.PrefixFilter.Apply.Intersect.{Narrows, allowed_by, intersect_widens}
use wdbgp.PrefixFilter.Apply.Deny.{IsResult, apply-IsResult, apply-covered}

abbrev input : List Prefix
input = cidr (ipv4 10 0 0 0) 28 ∷ []

abbrev lists : Lists
lists = record { allow = cidr (ipv4 10 0 0 4) 30 ∷ []; deny = cidr (ipv4 10 0 0 5) 32 ∷ [] }

abbrev output : List Prefix
output = cidr (ipv4 10 0 0 6) 31 ∷ cidr (ipv4 10 0 0 4) 32 ∷ []

filtered : apply input lists 0 ≡ some output
unfolding apply normalize subtract masked contains prefix_eq addr_less
filtered = refl

-- The limit counts the fragments.
too_many : apply input lists 1 ≡ none
unfolding apply normalize subtract masked contains prefix_eq addr_less
too_many = refl

apply-IsResult_example : IsResult input lists (limit_of 0) output
apply-IsResult_example =
    apply-IsResult input lists 0 output (omega arith) (omega arith) (omega arith) filtered

narrow : All (λ p. All (Narrows p) (normalize lists.allow)) (normalize input)
unfolding normalize masked contains prefix_eq addr_less
narrow = ((λ _. omega arith, tt), tt)

apply-covered_example : covered output (ipv4 10 0 0 5) ≡ (
    covered input (ipv4 10 0 0 5)
    && allowed_by (normalize lists.allow) (ipv4 10 0 0 5)
    && not (covered lists.deny (ipv4 10 0 0 5)))
apply-covered_example =
    apply-covered input lists 0 output (ipv4 10 0 0 5) (omega arith) (omega arith) (omega arith)
      narrow filtered

intersect_widens_example :
    (x : Addr) × (covered (intersect (cidr (ipv4 10 0 0 0) 24 ∷ []) (cidr (ipv4 10 0 0 0) 8 ∷ [])) x
      ≡ true)
    × (contains (cidr (ipv4 10 0 0 0) 24) x ≡ false)
intersect_widens_example =
    intersect_widens (cidr (ipv4 10 0 0 0) 24) (cidr (ipv4 10 0 0 0) 8)
      (record { valid = omega arith; masked = refl })
      (record { valid = omega arith; masked = refl }) refl refl (omega arith)

-- The allow entry 10.0.0.0/8 lets the input 10.0.0.0/24 out as 10.0.0.0/8.
widened :
    apply
      (cidr (ipv4 10 0 0 0) 24 ∷ [])
      (record { allow = cidr (ipv4 10 0 0 0) 8 ∷ []; deny = [] })
      0
    ≡ some (cidr (ipv4 10 0 0 0) 8 ∷ [])
unfolding apply normalize subtract masked contains prefix_eq addr_less
widened = refl
