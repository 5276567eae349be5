-- ===== src/PrefixFilter/Normalize/Simple.antt =====
-- `normalizeSimple` of internal/prefixfilter/filter.go makes the reference selection.
use wdbgp.Prelude.{
  zero, suc, ltb, ℕ, ◌≤◌, ◌≡◌, refl, sym, Bool, true, false, ◌&&◌, ◌||◌, List, [], ◌∷◌, any, All,
  arith, Bool-cases, Bool-ext, inl, inr, ◌==◌, ◌^◌, ◌-◌, ◌∙◌, suc, ltb,
}
use wdbgp.Netip.{Prefix, Addr, contains, masked, bit_len, addr_less, prefix_eq, block_size}
use wdbgp.Netip.Laws.{contains→IsIn, IsBlock-unique, value_of_block}
use wdbgp.Netip.Cover.{IsBlock}
use wdbgp.Prelude.Pow.{pow2_pos, round_down_div}
use wdbgp.PrefixFilter.Normalize.{less, parent_loop, simple_loop, normalize_simple}
use wdbgp.PrefixFilter.Normalize.Select.{
  select, covered_by, covers, IsSorted, Before, Before-cons, Before-nil, select_step_true,
  select_step_false, select-nil,
}

abbrev parent : Addr → ℕ → Prefix
parent a b = record { addr = a; bits = b }

-- A block is the parent of some length of an address exactly when it has that length and contains it.
parent_eq :
    (q : Prefix) (a : Addr) (b : ℕ)
    → IsBlock q
    → b ≤ bit_len a
    → prefix_eq q (masked (parent a b)) ≡ (q.bits == b && contains q a)
unfolding prefix_eq masked contains
parent_eq q a b h le = Bool-ext _ _ there back
  where
    there : prefix_eq q (masked (parent a b)) ≡ true → (q.bits == b && contains q a) ≡ true
    there e =
        let same : bit_len q.addr ≡ bit_len a = ground arith in
        let long : q.bits ≡ b = ground arith in
        let size : block_size q ≡ 2 ^ (bit_len a - b) = rw (same, long) in
        ground (arith, size, round_down_div a.value (2 ^ (bit_len a - b)) (pow2_pos _))

    back : (q.bits == b && contains q a) ≡ true → prefix_eq q (masked (parent a b)) ≡ true
    back e =
        let same : bit_len q.addr ≡ bit_len a = ground arith in
        let long : q.bits ≡ b = ground arith in
        let size : block_size q ≡ 2 ^ (bit_len a - b) = rw (same, long) in
        ground (arith, size, value_of_block q.addr.value a.value (2 ^ (bit_len a - b)) (pow2_pos _))

any_or :
    (f g k : Prefix → Bool) (ps : List Prefix)
    → All (λ p. f p ≡ (g p || k p)) ps
    → any f ps ≡ (any g ps || any k ps)
any_or f g k [] h = refl
any_or f g k (p ∷ ps) h = ground (arith, any_or f g k ps h.1, h.0)

-- The loop over the shorter lengths finds an accepted prefix that is shorter and contains `a`.
abbrev shorter : ℕ → Addr → Prefix → Bool
shorter n a q = ltb q.bits n && contains q a

shorter_step :
    (n : ℕ) (a : Addr) (taken : List Prefix)
    → All IsBlock taken
    → n ≤ bit_len a
    → All (λ q. shorter (suc n) a q ≡ (prefix_eq q (masked (parent a n)) || shorter n a q)) taken
shorter_step n a [] h le = tt
shorter_step n a (q ∷ qs) h le =
    (rw (parent_eq q a n h.0 le) (ground arith), shorter_step n a qs h.1 le)

none_shorter : (a : Addr) (taken : List Prefix) → any (shorter 0 a) taken ≡ false
none_shorter a [] = refl
none_shorter a (q ∷ qs) = ground (arith, none_shorter a qs)

parent_loop_lem :
    (n : ℕ) (a : Addr) (taken : List Prefix)
    → All IsBlock taken
    → n ≤ suc (bit_len a)
    → parent_loop n a taken ≡ any (shorter n a) taken
unfolding parent_loop
parent_loop_lem zero a taken h le = sym (none_shorter a taken)
parent_loop_lem (suc n) a taken h le = ground (
  arith,
  parent_loop_lem n a taken h,
  any_or (shorter (suc n) a) (λ q. prefix_eq q (masked (parent a n))) (shorter n a) taken
      (shorter_step n a taken h (omega arith)),
)

-- An earlier block of the sorted list that covers `p` is shorter.
covers-shorter :
    (q p : Prefix) → less q p ≡ true → IsBlock q → IsBlock p → covers q p ≡ shorter p.bits p.addr q
unfolding less addr_less
covers-shorter q p l hq hp =
    ground (arith, IsBlock-unique q p hq.masked hp.masked, contains→IsIn q p.addr)

covered_by-shorter :
    (taken : List Prefix) (p : Prefix)
    → All (λ q. less q p ≡ true) taken
    → All IsBlock taken
    → IsBlock p
    → covered_by taken p ≡ any (shorter p.bits p.addr) taken
covered_by-shorter [] p l h hp = refl
covered_by-shorter (q ∷ qs) p l h hp =
    ground (arith, covers-shorter q p l.0 h.0 hp, covered_by-shorter qs p l.1 h.1 hp)

-- The test of `normalizeSimple` is the test of the selection.
parent_loop-covered_by :
    (taken : List Prefix) (p : Prefix)
    → All (λ q. less q p ≡ true) taken
    → All IsBlock taken
    → IsBlock p
    → parent_loop p.bits p.addr taken ≡ covered_by taken p
parent_loop-covered_by taken p l h hp =
    parent_loop_lem p.bits p.addr taken h (omega (arith, hp.valid.fits))
    ∙ sym (covered_by-shorter taken p l h hp)

simple_loop-select :
    (taken ps : List Prefix)
    → IsSorted ps
    → Before taken ps
    → All IsBlock taken
    → All IsBlock ps
    → simple_loop taken ps ≡ select taken ps
unfolding simple_loop
simple_loop-select taken [] s b h k = sym (select-nil taken)
simple_loop-select taken (p ∷ ps) s b h k =
    let test = parent_loop-covered_by taken p b.0 h k.0 in
    elim (Bool-cases (covered_by taken p)) [
      | inl e ↦
          rw (select_step_true taken p ps e)
            (ground (arith, test, simple_loop-select taken ps s.1 b.1 h k.1))
      | inr e ↦
          let next = Before-cons p taken ps s.0 b.1 in
          rw (select_step_false taken p ps e)
            (ground (arith, test, simple_loop-select (p ∷ taken) ps s.1 next (k.0, h) k.1))
    ]

pub normalize_simple-select :
    (ps : List Prefix) → IsSorted ps → All IsBlock ps → normalize_simple ps ≡ select [] ps
unfolding normalize_simple
normalize_simple-select ps s h = simple_loop-select [] ps s (Before-nil ps) tt h
