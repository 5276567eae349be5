-- ===== src/PrefixFilter/Normalize/Refine.antt =====
-- `normalizeSimple` and `normalizeWithTrie` (internal/prefixfilter/filter.go) both refine the
-- reference selection, so the threshold between them does not show in the result.
use wdbgp.Prelude.{
  ℕ, [], ◌≡◌, ◌∙◌, List, ◌∷◌, arith, refl, All, sym, Bool-cases, inl, inr, false, ◌<◌, ◌≢◌, ◌^◌,
  ◌++◌, ◌/◌, ap, ◌-◌, keep, true, Bool, not,
}
use native.Mathlib.Nat.{div-eq_of_lt}
use wdbgp.Netip.{Prefix, bit_len}
use wdbgp.Netip.Laws.{contains→IsIn}
use wdbgp.Netip.Cover.{IsBlock}
use wdbgp.PrefixFilter.Normalize.{
  less, Trie, nil, trie_covers, trie_insert, trie_loop, normalize_simple, normalize_with_trie,
  is_v4, drop_covered,
}
use wdbgp.PrefixFilter.Normalize.Select.{
  covered_by, select, IsSorted, select-nil, select_step_true, select_step_false,
}
use wdbgp.PrefixFilter.Normalize.Simple.{normalize_simple-select}
use wdbgp.PrefixFilter.Normalize.Walk.{OnPath, trie_covers-insert}

-- Blocks of the family with `w` address bits.
abbrev InFamily : ℕ → Prefix → Type 0
InFamily w p = IsBlock p × (bit_len p.addr ≡ w)

-- The trie answers for the prefixes taken.
abbrev Answers : ℕ → Trie → List Prefix → Type 0
Answers w t taken = (p : Prefix) → InFamily w p → trie_covers t 0 p ≡ covered_by taken p

Answers-nil : (w : ℕ) → Answers w nil []
unfolding trie_covers
Answers-nil w p h = refl

below_top : (a w : ℕ) → a < 2 ^ w → a / 2 ^ (w - 0) ≡ 0
below_top a w h = let e : w - 0 ≡ w = omega arith in rw e (div-eq_of_lt h)

-- No bit of two addresses has to agree at the root.
at_root : (q p : Prefix) (w : ℕ) → InFamily w q → InFamily w p → OnPath q.bits 0 q p
at_root q p w hq hp = record {
  same = hp.1 ∙ sym hq.1;
  agree =
      below_top p.addr.value (bit_len p.addr) hp.0.valid.in_range
      ∙ sym (below_top q.addr.value (bit_len p.addr) (rw (hp.1, ← hq.1) hq.0.valid.in_range));
  left = omega arith;
  q_fits = hq.0.valid.fits;
  p_fits = hp.0.valid.fits;
  deep = omega arith;
}

Answers-insert :
    (w : ℕ) (t : Trie) (taken : List Prefix) (q : Prefix)
    → InFamily w q
    → Answers w t taken
    → Answers w (trie_insert q.bits 0 q t) (q ∷ taken)
Answers-insert w t taken q hq a p hp =
    trie_covers-insert q.bits 0 q p t (at_root q p w hq hp) ∙ ground (arith, a p hp)

trie_loop-select :
    (w : ℕ) (t : Trie) (taken ps : List Prefix)
    → Answers w t taken
    → All (InFamily w) ps
    → trie_loop t ps ≡ select taken ps
unfolding trie_loop
trie_loop-select w t taken [] a h = sym (select-nil taken)
trie_loop-select w t taken (p ∷ ps) a h = elim (Bool-cases (covered_by taken p)) [
  | inl e ↦
      rw (select_step_true taken p ps e)
        (ground (arith, a p h.0, trie_loop-select w t taken ps a h.1))
  | inr e ↦
      let more = Answers-insert w t taken p h.0 a in
      rw (select_step_false taken p ps e) (
        ground
          (arith, a p h.0, trie_loop-select w (trie_insert p.bits 0 p t) (p ∷ taken) ps more h.1))
]

pub select_one : (p : Prefix) → select [] (p ∷ []) ≡ p ∷ []
select_one p = select_step_false [] p [] refl ∙ rw (select-nil (p ∷ []))

normalize_with_trie-select :
    (w : ℕ) (ps : List Prefix) → All (InFamily w) ps → normalize_with_trie ps ≡ select [] ps
unfolding normalize_with_trie
normalize_with_trie-select w [] h = sym (select-nil [])
normalize_with_trie-select w (p ∷ []) h = sym (select_one p)
normalize_with_trie-select w (p ∷ q ∷ ps) h =
    ground (arith, trie_loop-select w nil [] (p ∷ q ∷ ps) (Answers-nil w) h)

-- What is taken from the other family does not matter.
covered_by-other :
    (w : ℕ) (taken : List Prefix) (p : Prefix)
    → All (λ q. bit_len q.addr ≢ w) taken
    → bit_len p.addr ≡ w
    → covered_by taken p ≡ false
covered_by-other w [] p h e = refl
covered_by-other w (q ∷ qs) p h e =
    ground (arith, contains→IsIn q p.addr, h.0, covered_by-other w qs p h.1 e)

covered_by-append :
    (taken other : List Prefix) (p : Prefix)
    → covered_by other p ≡ false
    → covered_by (taken ++ other) p ≡ covered_by taken p
covered_by-append [] other p h = h
covered_by-append (q ∷ qs) other p h = ground (arith, covered_by-append qs other p h)

select-other :
    (w : ℕ) (taken other ps : List Prefix)
    → All (λ q. bit_len q.addr ≢ w) other
    → All (InFamily w) ps
    → select (taken ++ other) ps ≡ select taken ps
select-other w taken other [] h k = select-nil (taken ++ other) ∙ sym (select-nil taken)
select-other w taken other (p ∷ ps) h k =
    let same = covered_by-append taken other p (covered_by-other w other p h k.0.1) in
    elim (Bool-cases (covered_by taken p)) [
      | inl e ↦
          rw (select_step_true taken p ps e, select_step_true (taken ++ other) p ps (same ∙ e))
            (select-other w taken other ps h k.1)
      | inr e ↦
          rw (select_step_false taken p ps e, select_step_false (taken ++ other) p ps (same ∙ e))
            (ap (λ (t : List Prefix). p ∷ t) (select-other w (p ∷ taken) other ps h k.1))
    ]

-- A list of one family and then the other is selected in two parts.
select-append :
    (w : ℕ) (taken xs ys : List Prefix)
    → All (λ q. bit_len q.addr ≢ w) taken
    → All (λ q. bit_len q.addr ≢ w) xs
    → All (InFamily w) ys
    → select taken (xs ++ ys) ≡ select taken xs ++ select [] ys
select-append w taken [] ys h k l = rw (select-nil taken) (select-other w [] taken ys h l)
select-append w taken (x ∷ xs) ys h k l = elim (Bool-cases (covered_by taken x)) [
  | inl e ↦
      rw (select_step_true taken x (xs ++ ys) e, select_step_true taken x xs e)
        (select-append w taken xs ys h k.1 l)
  | inr e ↦
      rw (select_step_false taken x (xs ++ ys) e, select_step_false taken x xs e)
        (ap (λ (t : List Prefix). x ∷ t) (select-append w (x ∷ taken) xs ys (k.0, h) k.1 l))
]

abbrev is_v6 : Prefix → Bool
is_v6 p = not (is_v4 p)

v6_only :
    (p : Prefix) (qs : List Prefix)
    → is_v4 p ≡ false
    → All (λ q. less p q ≡ true) qs
    → (keep is_v4 qs ≡ []) × (keep is_v6 qs ≡ qs)
unfolding less is_v4
v6_only p [] e h = (refl, refl)
v6_only p (q ∷ qs) e h =
    let (none_v4, all_v6) = v6_only p qs e h.1 in
    (ground (arith, none_v4, h.0), ground (arith, all_v6, h.0))

-- The sorted list is its IPv4 part and then its IPv6 part.
split_families : (ps : List Prefix) → IsSorted ps → keep is_v4 ps ++ keep is_v6 ps ≡ ps
split_families [] s = refl
split_families (p ∷ ps) s = elim (Bool-cases (is_v4 p)) [
  | inl e ↦ rw e (ap (λ (t : List Prefix). p ∷ t) (split_families ps s.1))
  | inr e ↦ let (none_v4, all_v6) = v6_only p ps e s.0 in rw (e, none_v4, all_v6) refl
]

keep_v4 : (ps : List Prefix) → All IsBlock ps → All (InFamily 32) (keep is_v4 ps)
unfolding is_v4
keep_v4 [] h = tt
keep_v4 (p ∷ ps) h = ground (arith, h.0, keep_v4 ps h.1)

keep_v6 : (ps : List Prefix) → All IsBlock ps → All (InFamily 128) (keep is_v6 ps)
unfolding is_v4
keep_v6 [] h = tt
keep_v6 (p ∷ ps) h = ground (arith, h.0, keep_v6 ps h.1)

keep_apart : (ps : List Prefix) → All (λ q. bit_len q.addr ≢ 128) (keep is_v4 ps)
unfolding is_v4
keep_apart [] = tt
keep_apart (p ∷ ps) = ground (arith, keep_apart ps)

-- Below and above the threshold, a sorted list of blocks is brought to the reference selection.
pub drop_covered-select :
    (ps : List Prefix) → IsSorted ps → All IsBlock ps → drop_covered ps ≡ select [] ps
unfolding drop_covered
drop_covered-select ps s h = ground (
  arith,
  normalize_simple-select ps s h,
  normalize_with_trie-select 32 (keep is_v4 ps) (keep_v4 ps h),
  normalize_with_trie-select 128 (keep is_v6 ps) (keep_v6 ps h),
  split_families ps s,
  select-append 128 [] (keep is_v4 ps) (keep is_v6 ps) tt (keep_apart ps) (keep_v6 ps h),
)

-- On a sorted list of blocks, the trie above the threshold gives what the loop over the shorter
-- lengths gives.
pub drop_covered-simple :
    (ps : List Prefix) → IsSorted ps → All IsBlock ps → drop_covered ps ≡ normalize_simple ps
drop_covered-simple ps s h = drop_covered-select ps s h ∙ sym (normalize_simple-select ps s h)
