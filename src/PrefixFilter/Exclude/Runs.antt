-- ===== src/PrefixFilter/Exclude/Runs.antt =====
-- Tests: two excludes in a block, one outside it, and the theorem at them.
use wdbgp.Prelude.{refl, ◌≡◌, ℕ, List, [], ◌&&◌, ◌∷◌, false, true, not, arith}
use wdbgp.Netip.{v4, Prefix, contains, masked, prefix_eq, addr_less}
use wdbgp.Netip.Cover.{hits, once, covered}
use wdbgp.PrefixFilter.Exclude.{new_exclude_set, exclude, sort_by_addr}
use wdbgp.PrefixFilter.Exclude.Result.{exclude-hits}
use wdbgp.PrefixFilter.Subtract.{subtract}
use wdbgp.PrefixFilter.Normalize.{normalize}

abbrev block : ℕ → ℕ → Prefix
block value bits = record { addr = record { family = v4; value = value }; bits = bits }

-- 0.0.2.0/25, 0.0.1.0/25 and 0.0.4.0/24.
abbrev holes : List Prefix
holes = block 512 25 ∷ block 256 25 ∷ block 1024 24 ∷ []

-- 0.0.1.0/24 with a host bit set.
abbrev included : Prefix
included = block 257 24

punched : exclude (new_exclude_set holes) included ≡ (block 384 25 ∷ [], true)
unfolding exclude subtract normalize masked contains sort_by_addr prefix_eq addr_less
punched = refl

untouched : exclude (new_exclude_set holes) (block 768 24) ≡ (block 768 24 ∷ [], false)
unfolding exclude subtract normalize masked contains sort_by_addr prefix_eq addr_less
untouched = refl

swallowed : exclude (new_exclude_set holes) (block 1030 32) ≡ ([], true)
unfolding exclude subtract normalize masked contains sort_by_addr prefix_eq addr_less
swallowed = refl

exclude-hits_example :
    hits (exclude (new_exclude_set holes) included).0 (record { family = v4; value = 400 })
    ≡ once (
        contains included (record { family = v4; value = 400 })
        && not (covered holes (record { family = v4; value = 400 })))
exclude-hits_example =
    exclude-hits holes included (record { family = v4; value = 400 })
      (omega arith, (omega arith, (omega arith, tt)))
      (record { fits = omega arith; in_range = omega arith })
