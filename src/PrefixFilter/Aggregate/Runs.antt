-- ===== src/PrefixFilter/Aggregate/Runs.antt =====
-- Tests: two halves of a block, a range that is no block, and the theorem at a list with both families.
use wdbgp.Prelude.{ℕ, ◌≡◌, List, ◌∷◌, [], refl}
use wdbgp.Netip.{masked, v4, Prefix}
use wdbgp.Netip.Cover.{hits, once, covered}
use wdbgp.PrefixFilter.Aggregate.{aggregate, range_to_prefixes}
use wdbgp.PrefixFilter.Aggregate.Laws.{aggregate-hits}

abbrev block : ℕ → ℕ → Prefix
block value bits = record { addr = record { family = v4; value = value }; bits = bits }

-- 0.0.1.0/25, the other half with a host bit set, and 0.0.1.0/26 again.
abbrev halves : List Prefix
halves = block 256 25 ∷ block 385 25 ∷ block 256 26 ∷ []

whole : aggregate halves ≡ block 256 24 ∷ []
unfolding aggregate masked
whole = refl

-- From one to six there are four blocks.
odd_range :
    range_to_prefixes v4 (record { start = 1; end = 6 })
    ≡ block 1 32 ∷ block 2 31 ∷ block 4 31 ∷ block 6 32 ∷ []
unfolding aggregate
odd_range = refl

aggregate-hits_example :
    hits (aggregate halves) (record { family = v4; value = 300 })
    ≡ once (covered halves (record { family = v4; value = 300 }))
aggregate-hits_example = aggregate-hits halves (record { family = v4; value = 300 })
