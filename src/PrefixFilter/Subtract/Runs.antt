-- ===== src/PrefixFilter/Subtract/Runs.antt =====
-- Concrete runs of `children` and `subtract`, and the theorems at concrete inputs.
use wdbgp.Prelude.{◌≡◌, All, length, arith, ◌∷◌, refl, []}
use wdbgp.Netip.{Prefix, masked, contains, Prefix}
use wdbgp.Netip.Samples.{ipv4, cidr}
use wdbgp.Netip.Cover.{hits, IsBlock}
use wdbgp.PrefixFilter.Subtract.{children, subtract}
use wdbgp.PrefixFilter.Subtract.Halves.{AreHalves, children-AreHalves}
use wdbgp.PrefixFilter.Subtract.Fragments.{subtract-hits, subtract-IsBlock}

abbrev wide : Prefix
wide = cidr (ipv4 1 0 0 0) 8

abbrev host : Prefix
host = cidr (ipv4 1 1 1 1) 32

-- 1.0.0.0/8 without 1.1.1.1 takes 24 fragments, as in the tests of the package.
wide_without_host : length (subtract wide host) ≡ 24
unfolding subtract masked contains
wide_without_host = refl

-- A /30 without its second address.
quad :
    subtract (cidr (ipv4 10 0 0 0) 30) (cidr (ipv4 10 0 0 1) 32)
    ≡ cidr (ipv4 10 0 0 2) 31 ∷ cidr (ipv4 10 0 0 0) 32 ∷ []
unfolding subtract masked contains
quad = refl

children-AreHalves_example : AreHalves wide (children wide).0 (children wide).1
children-AreHalves_example = children-AreHalves wide (omega arith) (omega arith) (omega arith)

subtract-hits_example : hits (subtract wide host) (ipv4 1 1 1 2) ≡ 1
unfolding contains
subtract-hits_example = subtract-hits wide host (ipv4 1 1 1 2) (omega arith) (omega arith)

subtract-IsBlock_example : All IsBlock (subtract wide host)
subtract-IsBlock_example = subtract-IsBlock wide host (omega arith) (omega arith)
