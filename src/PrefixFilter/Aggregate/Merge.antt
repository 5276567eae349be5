-- ===== src/PrefixFilter/Aggregate/Merge.antt =====
-- The merged ranges have the addresses of the ranges, each in one of them.
use wdbgp.Prelude.{
  ℕ, List, ◌≡◌, ◌≤◌, Bool, any, ◌+◌, ◌∙◌, ◌||◌, leb, true, ◌&&◌, Bool-cases, ap, [], arith, ◌<◌,
  inl, ltb, refl, false, inr,
}
use wdbgp.PrefixFilter.Aggregate.{
  AddrRange, insert_range, sort_ranges, merge_loop, merge_ranges, ◌∷◌,
}
use wdbgp.Netip.Cover.{once}

abbrev pub is_in : AddrRange → ℕ → Bool
is_in r x = leb r.start x && leb x r.end

abbrev pub in_any : List AddrRange → ℕ → Bool
in_any rs x = any (λ r. is_in r x) rs

-- How many ranges have an address.
abbrev pub range_hits : List AddrRange → ℕ → ℕ
range_hits [] x = 0
range_hits (r ∷ rs) x = once (is_in r x) + range_hits rs x

-- Sorted by the start, from `low` on.
abbrev pub starts_from : ℕ → List AddrRange → Bool
starts_from low [] = true
starts_from low (r ∷ rs) = leb low r.start && starts_from r.start rs

in_any-insert_range :
    (r : AddrRange) (rs : List AddrRange) (x : ℕ)
    → in_any (insert_range r rs) x ≡ (is_in r x || in_any rs x)
unfolding insert_range
in_any-insert_range r [] x = refl
in_any-insert_range r (s ∷ ss) x = elim (Bool-cases (ltb s.start r.start)) [
  | inl e ↦ rw e (ground (arith, in_any-insert_range r ss x))
  | inr e ↦ rw e refl
]

pub in_any-sort_ranges : (rs : List AddrRange) (x : ℕ) → in_any (sort_ranges rs) x ≡ in_any rs x
unfolding sort_ranges
in_any-sort_ranges [] x = refl
in_any-sort_ranges (r ∷ rs) x =
    in_any-insert_range r (sort_ranges rs) x
    ∙ ap (λ (b : Bool). is_in r x || b) (in_any-sort_ranges rs x)

starts_from-insert_range :
    (low : ℕ) (r : AddrRange) (rs : List AddrRange)
    → low ≤ r.start
    → starts_from low rs ≡ true
    → starts_from low (insert_range r rs) ≡ true
unfolding insert_range
starts_from-insert_range low r [] l h = ground arith
starts_from-insert_range low r (s ∷ ss) l h = elim (Bool-cases (ltb s.start r.start)) [
  | inl e ↦
      let rest : starts_from s.start (insert_range r ss) ≡ true =
        starts_from-insert_range s.start r ss (ground (arith, e)) (ground (arith, h)) in
      rw e (ground (arith, rest, h))
  | inr e ↦ rw e (ground (arith, h, l, e))
]

starts_from-sort_ranges : (rs : List AddrRange) → starts_from 0 (sort_ranges rs) ≡ true
unfolding sort_ranges
starts_from-sort_ranges [] = refl
starts_from-sort_ranges (r ∷ rs) =
    starts_from-insert_range 0 r (sort_ranges rs) (omega arith) (starts_from-sort_ranges rs)

-- No range reaches below where the list starts.
in_any-below :
    (low x : ℕ) (rs : List AddrRange) → starts_from low rs ≡ true → x < low → in_any rs x ≡ false
in_any-below low x [] h l = refl
in_any-below low x (r ∷ rs) h l =
    let rest : in_any rs x ≡ false =
      in_any-below r.start x rs (ground (arith, h)) (ground (arith, h, l)) in
    ground (arith, h, l, rest)

merge_loop-hits :
    (last : AddrRange) (rs : List AddrRange) (x : ℕ)
    → starts_from last.start rs ≡ true
    → range_hits (merge_loop last rs) x ≡ once (is_in last x || in_any rs x)
unfolding merge_loop
merge_loop-hits last [] x h = ground arith
merge_loop-hits last (r ∷ rs) x h = elim (Bool-cases (leb r.start (last.end + 1))) [
  | inl near ↦ rw near (elim (Bool-cases (ltb last.end r.end)) [
    | inl longer ↦
        let wide : AddrRange = record last { end = r.end } in
        let rest : range_hits (merge_loop wide rs) x ≡ once (is_in wide x || in_any rs x) =
          merge_loop-hits wide rs x (from_start last r rs h) in
        rw longer (rest ∙ ground (arith, h, near, longer))
    | inr within ↦
        rw within
          (merge_loop-hits last rs x (from_start last r rs h) ∙ ground (arith, h, near, within))
  ])
  | inr far ↦
      let rest : range_hits (merge_loop r rs) x ≡ once (is_in r x || in_any rs x) =
        merge_loop-hits r rs x (ground (arith, h)) in
      rw far (elim (Bool-cases (ltb x r.start)) [
        | inl below ↦
            let none_of : in_any rs x ≡ false =
              in_any-below r.start x rs (ground (arith, h)) (ground (arith, below)) in
            ground (arith, rest, none_of, below, far)
        | inr above ↦ ground (arith, rest, above, far)
      ])
]
  where
    from_start :
        (last r : AddrRange) (rs : List AddrRange)
        → leb last.start r.start && starts_from r.start rs ≡ true
        → starts_from last.start rs ≡ true
    from_start last r [] h = refl
    from_start last r (s ∷ ss) h = ground (arith, h)

-- The merge of sorted ranges.
pub merge_ranges-hits :
    (rs : List AddrRange) (x : ℕ)
    → range_hits (merge_ranges (sort_ranges rs)) x ≡ once (in_any rs x)
merge_ranges-hits rs x =
    merged (sort_ranges rs) (starts_from-sort_ranges rs) ∙ ap once (in_any-sort_ranges rs x)
  where
    merged :
        (ss : List AddrRange)
        → starts_from 0 ss ≡ true
        → range_hits (merge_ranges ss) x ≡ once (in_any ss x)
    merged [] h = refl
    merged (s ∷ ss) h = merge_loop-hits s ss x (ground (arith, h))
