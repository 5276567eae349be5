-- ===== src/PrefixFilter/Normalize/Sorted.antt =====
-- The sort of `normalize` (internal/prefixfilter/filter.go): the comparison is a strict order on
-- prefixes, and distinct keys come out in that order.
use wdbgp.Prelude.{
  ◌≡◌, Bool, List, true, false, any, All, Bool-cases, arith, ◌||◌, ◌∙◌, ap, inl, inr, [], refl,
  length, suc,
}
use wdbgp.Netip.{Prefix, addr_less, prefix_eq}
use wdbgp.PrefixFilter.Normalize.{less, insert_sorted, sort_prefixes, ◌∷◌}
use wdbgp.PrefixFilter.Normalize.Select.{IsSorted}

less_trans : (p q r : Prefix) → less p q ≡ true → less q r ≡ true → less p r ≡ true
unfolding less addr_less
less_trans p q r h k = ground arith

less_total : (p q : Prefix) → prefix_eq q p ≡ false → less q p ≡ false → less p q ≡ true
unfolding less addr_less prefix_eq
less_total p q e h = ground arith

-- No key of the list is `p`.
abbrev pub Fresh : Prefix → List Prefix → Type 0
Fresh p ps = All (λ q. prefix_eq q p ≡ false) ps

abbrev pub Distinct : List Prefix → Type 0
Distinct [] = Unit {0}
Distinct (p ∷ ps) = Fresh p ps × Distinct ps

All-less :
    (p q : Prefix) (ps : List Prefix)
    → less p q ≡ true
    → All (λ r. less q r ≡ true) ps
    → All (λ r. less p r ≡ true) ps
All-less p q [] h k = tt
All-less p q (r ∷ rs) h k = (less_trans p q r h k.0, All-less p q rs h k.1)

module _ {κ} (P : Prefix → Type κ) where
  All-insert_sorted : (p : Prefix) (ps : List Prefix) → P p → All P ps → All P (insert_sorted p ps)
  unfolding insert_sorted
  All-insert_sorted p [] h k = (h, tt)
  All-insert_sorted p (q ∷ qs) h k = elim (Bool-cases (less q p)) [
    | inl e ↦ rw e (k.0, All-insert_sorted p qs h k.1)
    | inr e ↦ rw e (h, k)
  ]

  pub All-sort_prefixes : (ps : List Prefix) → All P ps → All P (sort_prefixes ps)
  unfolding sort_prefixes
  All-sort_prefixes [] h = tt
  All-sort_prefixes (p ∷ ps) h =
      All-insert_sorted p (sort_prefixes ps) h.0 (All-sort_prefixes ps h.1)

insert_sorted-IsSorted :
    (p : Prefix) (ps : List Prefix) → Fresh p ps → IsSorted ps → IsSorted (insert_sorted p ps)
unfolding insert_sorted
insert_sorted-IsSorted p [] f s = (tt, tt)
insert_sorted-IsSorted p (q ∷ qs) f s = elim (Bool-cases (less q p)) [
  | inl e ↦
      rw e
        (All-insert_sorted (λ r. less q r ≡ true) p qs e s.0, insert_sorted-IsSorted p qs f.1 s.1)
  | inr e ↦ let front = less_total p q f.0 e in rw e ((front, All-less p q qs front s.0), s)
]

-- Distinct keys are sorted strictly.
pub sort_prefixes-IsSorted : (ps : List Prefix) → Distinct ps → IsSorted (sort_prefixes ps)
unfolding sort_prefixes
sort_prefixes-IsSorted [] d = tt
sort_prefixes-IsSorted (p ∷ ps) d =
    insert_sorted-IsSorted p (sort_prefixes ps)
      (All-sort_prefixes (λ q. prefix_eq q p ≡ false) ps d.0) (sort_prefixes-IsSorted ps d.1)

-- Sorting changes neither what is covered nor which keys there are.
any-insert_sorted :
    (f : Prefix → Bool) (p : Prefix) (ps : List Prefix)
    → any f (insert_sorted p ps) ≡ (f p || any f ps)
unfolding insert_sorted
any-insert_sorted f p [] = refl
any-insert_sorted f p (q ∷ qs) = elim (Bool-cases (less q p)) [
  | inl e ↦ rw e (ground (arith, any-insert_sorted f p qs))
  | inr e ↦ rw e refl
]

pub any-sort_prefixes : (f : Prefix → Bool) (ps : List Prefix) → any f (sort_prefixes ps) ≡ any f ps
unfolding sort_prefixes
any-sort_prefixes f [] = refl
any-sort_prefixes f (p ∷ ps) =
    any-insert_sorted f p (sort_prefixes ps) ∙ ap (λ (b : Bool). f p || b) (any-sort_prefixes f ps)

length-insert_sorted :
    (p : Prefix) (ps : List Prefix) → length (insert_sorted p ps) ≡ suc (length ps)
unfolding insert_sorted
length-insert_sorted p [] = refl
length-insert_sorted p (q ∷ qs) = elim (Bool-cases (less q p)) [
  | inl e ↦ rw e (ap suc (length-insert_sorted p qs))
  | inr e ↦ rw e refl
]

pub length-sort_prefixes : (ps : List Prefix) → length (sort_prefixes ps) ≡ length ps
unfolding sort_prefixes
length-sort_prefixes [] = refl
length-sort_prefixes (p ∷ ps) =
    length-insert_sorted p (sort_prefixes ps) ∙ ap suc (length-sort_prefixes ps)
