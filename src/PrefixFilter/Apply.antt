-- ===== src/PrefixFilter/Apply.antt =====
-- internal/prefixfilter/filter.go: `Apply`, the allow list as a restriction and the deny list as
-- holes, with a limit on the number of fragments.
pub mod Intersect
pub mod Deny
mod Runs
use wdbgp.Prelude.{
  ℕ, List, Option, if◌then◌else◌, ◌∷◌, some, [], ltb, none, ◌==◌, ◌++◌, not, length, ◌+◌,
}
use wdbgp.Netip.{Prefix, bit_len, contains}
use wdbgp.PrefixFilter.Subtract.{subtract}
use wdbgp.PrefixFilter.Normalize.{normalize}

-- `DefaultMaxPrefixes`.
abbrev pub default_max_prefixes : ℕ
default_max_prefixes = 65536

pub record Lists : Type 0 where
  pub allow : List Prefix
  pub deny : List Prefix

-- The body of the inner loop of `intersect`: what one permitted prefix leaves of one input prefix.
pub meet : Prefix → Prefix → List Prefix
meet prefix permitted =
    if not (bit_len prefix.addr == bit_len permitted.addr)
    then []
    else if contains prefix permitted.addr
    then permitted ∷ []
    else if contains permitted prefix.addr
    then prefix ∷ []
    else []

pub meet_each : Prefix → List Prefix → List Prefix
unfolding meet
meet_each prefix [] = []
meet_each prefix (d ∷ ds) = meet prefix d ++ meet_each prefix ds

pub meet_all : List Prefix → List Prefix → List Prefix
unfolding meet_each
meet_all [] allow = []
meet_all (p ∷ ps) allow = meet_each p allow ++ meet_all ps allow

-- `intersect` after its two `normalize` lines: an empty allow list restricts nothing.
pub intersect_normal : List Prefix → List Prefix → List Prefix
unfolding meet_all
intersect_normal input [] = input
intersect_normal input (d ∷ ds) = normalize (meet_all input (d ∷ ds))

pub intersect : List Prefix → List Prefix → List Prefix
unfolding intersect_normal
intersect input allow = intersect_normal (normalize input) (normalize allow)

infixl 5 ◌>>=◌
abbrev ◌>>=◌ : Option (List Prefix) → (List Prefix → Option (List Prefix)) → Option (List Prefix)
none >>= f = none
some ps >>= f = f ps

-- The loop over `allowed` for one denied prefix; `none` is the error of too many routes.
pub subtract_each : ℕ → Prefix → List Prefix → List Prefix → Option (List Prefix)
subtract_each max_prefixes denied next [] = some next
subtract_each max_prefixes denied next (p ∷ ps) =
    let fragments = subtract p denied in
    let rest = subtract_each max_prefixes denied (next ++ fragments) ps in
    if ltb max_prefixes (length next + length fragments) then none else rest

-- The loop over the denied prefixes.
pub subtract_all : ℕ → List Prefix → List Prefix → Option (List Prefix)
unfolding subtract_each
subtract_all max_prefixes [] allowed = some allowed
subtract_all max_prefixes (d ∷ ds) allowed = do
  next ← subtract_each max_prefixes d [] allowed
  subtract_all max_prefixes ds next

-- `maxPrefixes <= 0` takes the default; a limit below 0 is written 0 here.
abbrev pub limit_of : ℕ → ℕ
limit_of max_prefixes = if max_prefixes == 0 then default_max_prefixes else max_prefixes

pub apply : List Prefix → Lists → ℕ → Option (List Prefix)
unfolding intersect subtract_all
apply input lists max_prefixes =
    let limit = limit_of max_prefixes in
    let allowed = intersect input lists.allow in
    if ltb limit (length allowed)
    then none
    else do left ← subtract_all limit (normalize lists.deny) allowed; some (normalize left)
