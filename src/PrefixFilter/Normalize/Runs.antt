-- ===== src/PrefixFilter/Normalize/Runs.antt =====
-- Concrete runs of `normalize`, and the theorems at concrete inputs.
use wdbgp.Prelude.{length, ◌≡◌, ◌≤◌, List, true, ◌∷◌, arith, [], refl}
use wdbgp.Netip.{Prefix, masked, contains, prefix_eq, addr_less, Prefix}
use wdbgp.Netip.Samples.{ipv4, cidr, doc_v6}
use wdbgp.Netip.Cover.{hits, covered}
use wdbgp.PrefixFilter.Normalize.{normalize, drop_covered, normalize_simple, less}
use wdbgp.PrefixFilter.Normalize.Select.{IsSorted}
use wdbgp.PrefixFilter.Normalize.Refine.{drop_covered-simple}
use wdbgp.PrefixFilter.Normalize.Laws.{normalize-covered, normalize-hits, length-normalize}

abbrev mixed : List Prefix
mixed =
    cidr doc_v6 32
    ∷ cidr (ipv4 10 1 2 3) 16
    ∷ cidr (ipv4 10 0 0 0) 8
    ∷ cidr (ipv4 192 0 2 9) 33
    ∷ []

-- The invalid length and the covered /16 are gone, IPv4 comes first.
mixed_normal : normalize mixed ≡ cidr (ipv4 10 0 0 0) 8 ∷ cidr doc_v6 32 ∷ []
unfolding normalize masked contains prefix_eq addr_less
mixed_normal = refl

normalize-covered_example : covered (normalize mixed) (ipv4 10 1 0 9) ≡ true
unfolding contains
normalize-covered_example = normalize-covered mixed (ipv4 10 1 0 9) (omega arith)

normalize-hits_example : hits (normalize mixed) (ipv4 10 1 0 9) ≤ 1
normalize-hits_example = normalize-hits mixed (ipv4 10 1 0 9) (omega arith)

length-normalize_example : length (normalize mixed) ≤ 4
length-normalize_example = length-normalize mixed (omega arith)

abbrev sorted : List Prefix
sorted = cidr (ipv4 10 0 0 0) 8 ∷ cidr (ipv4 10 1 0 0) 16 ∷ cidr doc_v6 32 ∷ []

sorted-IsSorted : IsSorted sorted
unfolding less addr_less
sorted-IsSorted = ((refl, (refl, tt)), ((refl, tt), (tt, tt)))

drop_covered-simple_example : drop_covered sorted ≡ normalize_simple sorted
drop_covered-simple_example = drop_covered-simple sorted sorted-IsSorted (omega arith)
