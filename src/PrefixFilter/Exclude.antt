-- ===== src/PrefixFilter/Exclude.antt =====
-- internal/prefixfilter/exclude.go: the excludes of a mode, prepared once and cut out of each
-- included prefix.
pub mod Ranges
pub mod Order
pub mod Punch
pub mod Laws
pub mod Sets
pub mod Result
mod Runs
use wdbgp.Prelude.{
  List, ◌-◌, Bool, ℕ, ◌∷◌, true, suc, length, if◌then◌else◌, ◌==◌, keep, ◌/◌, false, not, ◌++◌,
  ◌&&◌, [], ◌^◌, take, ◌%◌, ◌+◌, zero,
}
use wdbgp.Netip.{Addr, Prefix, bit_len, masked, addr_less}
use wdbgp.PrefixFilter.Subtract.{subtract}
use wdbgp.PrefixFilter.Normalize.{normalize}

-- `ExcludeSet`.
pub record ExcludeSet : Type 0 where
  pub v4 : List Prefix
  pub v6 : List Prefix

abbrev pub is_4 : Prefix → Bool
is_4 p = bit_len p.addr == 32

pub insert_by_addr : Prefix → List Prefix → List Prefix
insert_by_addr p [] = p ∷ []
insert_by_addr p (q ∷ qs) = if addr_less q.addr p.addr then q ∷ insert_by_addr p qs else p ∷ q ∷ qs

-- `sort.Slice` by the address.
pub sort_by_addr : List Prefix → List Prefix
unfolding insert_by_addr
sort_by_addr [] = []
sort_by_addr (p ∷ ps) = insert_by_addr p (sort_by_addr ps)

-- `NewExcludeSet`.
abbrev pub new_exclude_set : List Prefix → ExcludeSet
new_exclude_set prefixes = record {
  v4 = sort_by_addr (keep is_4 (normalize prefixes));
  v6 = sort_by_addr (keep (λ p. not (is_4 p)) (normalize prefixes));
}

-- `Empty`.
abbrev pub is_empty : ExcludeSet → Bool
is_empty set = length set.v4 == 0 && length set.v6 == 0

-- The loop of `lastAddr`, which sets the host bits; `bits` of them are left.
pub set_host_bits : ℕ → ℕ → ℕ
set_host_bits zero v = v
set_host_bits (suc bits) v = set_host_bits bits (if v / 2 ^ bits % 2 == 1 then v else v + 2 ^ bits)

-- `lastAddr`.
pub last_addr : Prefix → Addr
unfolding set_host_bits
last_addr p = record {
  family = p.addr.family;
  value = set_host_bits (bit_len p.addr - p.bits) (masked p).addr.value;
}

-- `sort.Search` for the first exclude that starts behind `end`, in a sorted list.
pub search_after : Addr → List Prefix → ℕ
search_after end [] = 0
search_after end (e ∷ es) = if addr_less end e.addr then 0 else suc (search_after end es)

abbrev pub reverse_onto : List Prefix → List Prefix → List Prefix
reverse_onto done [] = done
reverse_onto done (p ∷ ps) = reverse_onto (p ∷ done) ps

-- One exclude cut out of all fragments.
pub cut : Prefix → List Prefix → List Prefix
cut e [] = []
cut e (f ∷ fs) = subtract f e ++ cut e fs

abbrev pub is_nil : List Prefix → Bool
is_nil [] = true
is_nil (p ∷ ps) = false

-- The loop of `Subtract` over the excludes from the last one that may overlap down.
pub exclude_loop : Addr → List Prefix → Bool → List Prefix → List Prefix × Bool
unfolding cut last_addr
exclude_loop start fragments changed [] = (fragments, changed)
exclude_loop start fragments changed (e ∷ es) =
    let next = cut e fragments in
    let rest = exclude_loop start next true es in
    if addr_less (last_addr e) start
    then (fragments, changed)
    else if is_nil next
    then ([], true)
    else rest

-- The excludes of the family of a prefix.
abbrev pub excludes_for : Prefix → ExcludeSet → List Prefix
excludes_for p set = if is_4 p then set.v4 else set.v6

-- `Subtract`: the fragments, and whether anything was removed.
pub exclude : ExcludeSet → Prefix → List Prefix × Bool
unfolding exclude_loop search_after
exclude set prefix =
    let p = masked prefix in
    let excludes = excludes_for p set in
    let idx = search_after (last_addr p) excludes in
    exclude_loop p.addr (p ∷ []) false (reverse_onto [] (take idx excludes))
