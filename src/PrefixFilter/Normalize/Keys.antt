-- ===== src/PrefixFilter/Normalize/Keys.antt =====
-- The map `unique` of `normalize` (internal/prefixfilter/filter.go): distinct keys, the same
-- addresses.
use wdbgp.Prelude.{
  ◌≡◌, Bool, List, true, arith, [], false, ◌++◌, any, All, refl, All-append, Bool-cases, ◌||◌, inl,
  ◌∙◌, inr, any-append, length, ◌≤◌, ◌+◌, length-append,
}
use wdbgp.Netip.{Prefix, prefix_eq}
use wdbgp.Netip.Laws.{prefix_eq_sym, prefix_eq→eq}
use wdbgp.PrefixFilter.Normalize.{member, unique, ◌∷◌}
use wdbgp.PrefixFilter.Normalize.Sorted.{Fresh, Distinct}

member-Fresh : (p : Prefix) (keys : List Prefix) → member p keys ≡ false → Fresh p keys
unfolding member
member-Fresh p [] h = tt
member-Fresh p (q ∷ qs) h = (ground arith, member-Fresh p qs (ground arith))

-- What holds of one key of the map holds of some key.
pub any-member :
    (f : Prefix → Bool) (p : Prefix) (keys : List Prefix)
    → member p keys ≡ true
    → f p ≡ true
    → any f keys ≡ true
unfolding member
any-member f p [] h e = cc
any-member f p (q ∷ qs) h e = elim (Bool-cases (prefix_eq q p)) [
  | inl same ↦ rw (prefix_eq→eq q p same, e) refl
  | inr other ↦ ground (arith, any-member f p qs (ground arith) e)
]

Distinct-append :
    (keys : List Prefix) (p : Prefix) → Distinct keys → Fresh p keys → Distinct (keys ++ (p ∷ []))
Distinct-append [] p d f = (tt, tt)
Distinct-append (q ∷ qs) p d f = (
  All-append (λ r. prefix_eq r q ≡ false) qs (p ∷ []) d.0 (prefix_eq_sym p q ∙ f.0, tt),
  Distinct-append qs p d.1 f.1,
)

module _ (keys : List Prefix) (p : Prefix) (ps : List Prefix) where
  unique_old : member p keys ≡ true → unique keys (p ∷ ps) ≡ unique keys ps
  unfolding unique
  unique_old e = rw e

  unique_new : member p keys ≡ false → unique keys (p ∷ ps) ≡ unique (keys ++ (p ∷ [])) ps
  unfolding unique
  unique_new e = rw e

unique-nil : (keys : List Prefix) → unique keys [] ≡ keys
unfolding unique
unique-nil keys = refl

pub unique-Distinct : (keys ps : List Prefix) → Distinct keys → Distinct (unique keys ps)
unique-Distinct keys [] d = rw (unique-nil keys) d
unique-Distinct keys (p ∷ ps) d = elim (Bool-cases (member p keys)) [
  | inl e ↦ rw (unique_old keys p ps e) (unique-Distinct keys ps d)
  | inr e ↦
      rw (unique_new keys p ps e)
        (unique-Distinct (keys ++ (p ∷ [])) ps (Distinct-append keys p d (member-Fresh p keys e)))
]

pub any-unique :
    (f : Prefix → Bool) (keys ps : List Prefix) → any f (unique keys ps) ≡ (any f keys || any f ps)
any-unique f keys [] = rw (unique-nil keys) (ground arith)
any-unique f keys (p ∷ ps) = elim (Bool-cases (member p keys)) [
  | inl e ↦
      rw (unique_old keys p ps e) (ground (arith, any-unique f keys ps, any-member f p keys e))
  | inr e ↦
      rw (unique_new keys p ps e, any-unique f (keys ++ (p ∷ [])) ps, any-append f keys (p ∷ []))
        (ground arith)
]

pub All-unique {κ} :
    (P : Prefix → Type κ) (keys ps : List Prefix) → All P keys → All P ps → All P (unique keys ps)
All-unique P keys [] h k = rw (unique-nil keys) h
All-unique P keys (p ∷ ps) h k = elim (Bool-cases (member p keys)) [
  | inl e ↦ rw (unique_old keys p ps e) (All-unique P keys ps h k.1)
  | inr e ↦
      rw (unique_new keys p ps e)
        (All-unique P (keys ++ (p ∷ [])) ps (All-append P keys (p ∷ []) h (k.0, tt)) k.1)
]

pub length-unique : (keys ps : List Prefix) → length (unique keys ps) ≤ length keys + length ps
length-unique keys [] = rw (unique-nil keys) (omega arith)
length-unique keys (p ∷ ps) = elim (Bool-cases (member p keys)) [
  | inl e ↦ rw (unique_old keys p ps e) (omega (arith, length-unique keys ps))
  | inr e ↦
      rw (unique_new keys p ps e)
        (omega (arith, length-unique (keys ++ (p ∷ [])) ps, length-append keys (p ∷ [])))
]
