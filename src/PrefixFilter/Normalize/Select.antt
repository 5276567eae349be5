-- ===== src/PrefixFilter/Normalize/Select.antt =====
-- A reference for both ways of `normalize` to drop covered prefixes: go through the sorted list and
-- take what nothing taken before covers.
use wdbgp.Prelude.{
  ◌+◌, ◌≤◌, ◌≡◌, refl, Bool, true, false, ◌&&◌, ◌||◌, leb, List, [], ◌∷◌, any, All, arith,
  Bool-cases, inl, inr, length,
}
use wdbgp.Netip.{Prefix, Addr, contains}
use wdbgp.Netip.Laws.{contains_trans, contains_overlap, contains→IsIn}
use wdbgp.Netip.Cover.{covered, hits}
use wdbgp.PrefixFilter.Normalize.{less}

abbrev pub covers : Prefix → Prefix → Bool
covers q p = leb q.bits p.bits && contains q p.addr

abbrev pub covered_by : List Prefix → Prefix → Bool
covered_by qs p = any (λ q. covers q p) qs

pub select : List Prefix → List Prefix → List Prefix
select taken [] = []
select taken (p ∷ ps) = elim (covered_by taken p) [
  | true ↦ select taken ps
  | false ↦ p ∷ select (p ∷ taken) ps
]

-- Every prefix stands before every later one.
abbrev pub IsSorted : List Prefix → Type 0
IsSorted [] = Unit {0}
IsSorted (p ∷ ps) = All (λ q. less p q ≡ true) ps × IsSorted ps

-- Everything taken stands before everything to come.
abbrev pub Before : List Prefix → List Prefix → Type 0
Before taken ps = All (λ p. All (λ q. less q p ≡ true) taken) ps

pub select-nil : (taken : List Prefix) → select taken [] ≡ []
unfolding select
select-nil taken = refl

pub select_step_true :
    (taken : List Prefix) (p : Prefix) (ps : List Prefix)
    → covered_by taken p ≡ true
    → select taken (p ∷ ps) ≡ select taken ps
unfolding select
select_step_true taken p ps e = ground arith

pub select_step_false :
    (taken : List Prefix) (p : Prefix) (ps : List Prefix)
    → covered_by taken p ≡ false
    → select taken (p ∷ ps) ≡ p ∷ select (p ∷ taken) ps
unfolding select
select_step_false taken p ps e = ground arith

-- A covered prefix adds no address.
covered_by-covered :
    (taken : List Prefix) (p : Prefix) (x : Addr)
    → covered_by taken p ≡ true
    → contains p x ≡ true
    → covered taken x ≡ true
covered_by-covered [] p x e h = cc
covered_by-covered (q ∷ qs) p x e h =
    ground (arith, contains_trans q p x, covered_by-covered qs p x)

-- With what is taken already, the selection has the addresses of the list.
pub select-covered :
    (taken ps : List Prefix) (x : Addr)
    → (covered taken x || covered (select taken ps) x) ≡ (covered taken x || covered ps x)
select-covered taken [] x = unfold select in refl
select-covered taken (p ∷ ps) x = elim (Bool-cases (covered_by taken p)) [
  | inl e ↦
      rw (select_step_true taken p ps e)
        (ground (arith, select-covered taken ps x, covered_by-covered taken p x e))
  | inr e ↦ rw (select_step_false taken p ps e) (ground (arith, select-covered (p ∷ taken) ps x))
]

pub Before-nil : (ps : List Prefix) → Before [] ps
Before-nil [] = tt
Before-nil (p ∷ ps) = (tt, Before-nil ps)

pub Before-cons :
    (p : Prefix) (taken ps : List Prefix)
    → All (λ q. less p q ≡ true) ps
    → Before taken ps
    → Before (p ∷ taken) ps
Before-cons p taken [] h b = tt
Before-cons p taken (q ∷ qs) h b = ((h.0, b.0), Before-cons p taken qs h.1 b.1)

-- A prefix that is not covered shares no address with an earlier one.
less_bits :
    (q p : Prefix) (x : Addr)
    → less q p ≡ true
    → contains q x ≡ true
    → contains p x ≡ true
    → q.bits ≤ p.bits
unfolding less
less_bits q p x l h k = ground (arith, contains→IsIn q x h, contains→IsIn p x k)

hits_apart :
    (taken : List Prefix) (p : Prefix) (x : Addr)
    → All (λ q. less q p ≡ true) taken
    → covered_by taken p ≡ false
    → contains p x ≡ true
    → hits taken x ≡ 0
hits_apart [] p x b e h = refl
hits_apart (q ∷ qs) p x b e h =
    ground (arith, hits_apart qs p x b.1, less_bits q p x b.0, contains_overlap q p x)

-- Of a sorted list every address is in at most one selected prefix.
pub select-hits :
    (taken ps : List Prefix) (x : Addr)
    → IsSorted ps
    → Before taken ps
    → hits taken x ≤ 1
    → hits (select taken ps) x + hits taken x ≤ 1
select-hits taken [] x s b h = unfold select in omega arith
select-hits taken (p ∷ ps) x s b h = elim (Bool-cases (covered_by taken p)) [
  | inl e ↦ rw (select_step_true taken p ps e) (select-hits taken ps x s.1 b.1 h)
  | inr e ↦ rw (select_step_false taken p ps e) (
      ground (
        arith,
        hits_apart taken p x b.0 e,
        select-hits (p ∷ taken) ps x s.1 (Before-cons p taken ps s.0 b.1),
      ))
]

pub All-select {κ} :
    (P : Prefix → Type κ) (taken ps : List Prefix) → All P ps → All P (select taken ps)
All-select P taken [] h = rw (select-nil taken) tt
All-select P taken (p ∷ ps) h = elim (Bool-cases (covered_by taken p)) [
  | inl e ↦ rw (select_step_true taken p ps e) (All-select P taken ps h.1)
  | inr e ↦ rw (select_step_false taken p ps e) (h.0, All-select P (p ∷ taken) ps h.1)
]

pub length-select : (taken ps : List Prefix) → length (select taken ps) ≤ length ps
length-select taken [] = rw (select-nil taken) (omega arith)
length-select taken (p ∷ ps) = elim (Bool-cases (covered_by taken p)) [
  | inl e ↦ rw (select_step_true taken p ps e) (omega (arith, length-select taken ps))
  | inr e ↦ rw (select_step_false taken p ps e) (omega (arith, length-select (p ∷ taken) ps))
]
