-- ===== src/PrefixFilter/Normalize.antt =====
-- internal/prefixfilter/filter.go: `normalize` and its two ways to drop covered prefixes.
pub mod Select
pub mod Simple
pub mod Walk
pub mod Refine
pub mod Sorted
pub mod Keys
pub mod Laws
mod Runs
use wdbgp.Prelude.{
  ℕ, zero, suc, ◌+◌, ◌-◌, ◌/◌, ◌%◌, ◌^◌, Bool, true, false, not, ◌&&◌, ◌||◌, ltb, leb, ◌==◌,
  if◌then◌else◌, List, [], ◌∷◌, ◌++◌, any, keep, map, length, Option, none, some,
}
use wdbgp.Netip.{
  Family, v4, v6, Addr, Prefix, bit_len, is_valid, masked, contains, addr_less, prefix_eq,
}

-- Membership in a map whose keys are prefixes.
pub member : Prefix → List Prefix → Bool
member p ps = any (λ q. prefix_eq q p) ps

-- The keys of the map `unique`. Go's iteration order is left open by the language; this is the
-- order of insertion, and `sort_prefixes` brings every order to the same list.
pub unique : List Prefix → List Prefix → List Prefix
unfolding member
unique keys [] = keys
unique keys (p ∷ ps) = unique (if member p keys then keys else keys ++ (p ∷ [])) ps

-- The comparison given to `sort.Slice`: family, then length, then address.
pub less : Prefix → Prefix → Bool
less p q =
    if not (bit_len p.addr == bit_len q.addr)
    then ltb (bit_len p.addr) (bit_len q.addr)
    else if not (p.bits == q.bits)
    then ltb p.bits q.bits
    else addr_less p.addr q.addr

pub insert_sorted : Prefix → List Prefix → List Prefix
insert_sorted p [] = p ∷ []
insert_sorted p (q ∷ qs) = if less q p then q ∷ insert_sorted p qs else p ∷ q ∷ qs

-- `sort.Slice` by that comparison.
pub sort_prefixes : List Prefix → List Prefix
unfolding insert_sorted
sort_prefixes [] = []
sort_prefixes (p ∷ ps) = insert_sorted p (sort_prefixes ps)

-- Whether a prefix one of `bits - 1, …, 0` bits long over `addr` has been accepted.
pub parent_loop : ℕ → Addr → List Prefix → Bool
unfolding member
parent_loop zero addr accepted = false
parent_loop (suc bits) addr accepted =
    let shorter = parent_loop bits addr accepted in
    if member (masked (record { addr = addr; bits = bits })) accepted then true else shorter

-- `normalizeSimple`, with the accepted prefixes so far.
pub simple_loop : List Prefix → List Prefix → List Prefix
unfolding parent_loop
simple_loop accepted [] = []
simple_loop accepted (p ∷ ps) = elim (parent_loop p.bits p.addr accepted) [
  | true ↦ simple_loop accepted ps
  | false ↦ p ∷ simple_loop (p ∷ accepted) ps
]

pub normalize_simple : List Prefix → List Prefix
unfolding simple_loop
normalize_simple ps = simple_loop [] ps

-- `trieNode`; `nil` is the null pointer.
pub data Trie : Type 0 where
  nil : Trie
  node : Option Prefix → Trie → Trie → Trie

-- The bit of an address at a depth, counted from the high end.
pub bit_at : Addr → ℕ → Bool
bit_at a depth = ltb depth (bit_len a) && a.value / 2 ^ (bit_len a - 1 - depth) % 2 == 1

pub stored_covers : Option Prefix → Prefix → Bool
stored_covers none p = false
stored_covers (some q) p = leb q.bits p.bits && contains q p.addr

-- The walk down the trie: whether a stored prefix covers `p`.
pub trie_covers : Trie → ℕ → Prefix → Bool
unfolding stored_covers bit_at
trie_covers nil depth p = false
trie_covers (node stored left right) depth p =
    let go : Bool = elim (bit_at p.addr depth) [
      | true ↦ trie_covers right (depth + 1) p
      | false ↦ trie_covers left (depth + 1) p
    ] in
    if stored_covers stored p then true else if leb p.bits depth then false else go

-- A nil child is allocated before it is entered: a new node stores nothing and has no children.
pub stored_in : Trie → Option Prefix
stored_in nil = none
stored_in (node stored left right) = stored

pub left_of : Trie → Trie
left_of nil = nil
left_of (node stored left right) = left

pub right_of : Trie → Trie
right_of nil = nil
right_of (node stored left right) = right

-- The insertion loop over `depth < p.Bits()`: `rounds` is what is left of it.
pub trie_insert : ℕ → ℕ → Prefix → Trie → Trie
unfolding bit_at stored_in left_of right_of
trie_insert zero depth p t = node (some p) (left_of t) (right_of t)
trie_insert (suc rounds) depth p t = elim (bit_at p.addr depth) [
  | true ↦ node (stored_in t) (left_of t) (trie_insert rounds (depth + 1) p (right_of t))
  | false ↦ node (stored_in t) (trie_insert rounds (depth + 1) p (left_of t)) (right_of t)
]

pub trie_loop : Trie → List Prefix → List Prefix
unfolding trie_covers trie_insert
trie_loop root [] = []
trie_loop root (p ∷ ps) = elim (trie_covers root 0 p) [
  | true ↦ trie_loop root ps
  | false ↦ p ∷ trie_loop (trie_insert p.bits 0 p root) ps
]

pub normalize_with_trie : List Prefix → List Prefix
unfolding trie_loop
normalize_with_trie ps = if leb (length ps) 1 then ps else trie_loop nil ps

-- `Is4` on the address of a prefix.
pub is_v4 : Prefix → Bool
is_v4 p = bit_len p.addr == 32

-- Above this many prefixes `normalize` takes the trie.
abbrev pub threshold : ℕ
threshold = 100

-- Step 4 of `normalize`, on the sorted list.
pub drop_covered : List Prefix → List Prefix
unfolding normalize_simple normalize_with_trie is_v4
drop_covered result =
    if leb (length result) threshold
    then normalize_simple result
    else normalize_with_trie (keep is_v4 result)
      ++ normalize_with_trie (keep (λ p. not (is_v4 p)) result)

unfoldable pub normalize : List Prefix → List Prefix
unfolding unique sort_prefixes drop_covered less
normalize prefixes =
    let result = unique [] (map masked (keep is_valid prefixes)) in
    if leb (length result) 1 then result else drop_covered (sort_prefixes result)
