-- ===== src/Netip/Cover.antt =====
-- Lists of prefixes as sets of addresses.
use wdbgp.Prelude.{
  true, false, ℕ, suc, ◌≡◌, refl, Bool, List, [], ◌∷◌, any, ltb, if◌then◌else◌, arith, true, ◌++◌,
  ◌+◌,
}
use wdbgp.Netip.{Prefix, Addr, contains, IsPrefix, IsMasked}

-- The addresses of a list of prefixes.
abbrev pub covered : List Prefix → Addr → Bool
covered ps x = any (λ p. contains p x) ps

-- How many prefixes of a list contain an address.
abbrev pub hits : List Prefix → Addr → ℕ
hits [] x = 0
hits (p ∷ ps) x = if contains p x then suc (hits ps x) else hits ps x

abbrev pub once : Bool → ℕ
once b = if b then 1 else 0

pub covered-hits : (ps : List Prefix) (x : Addr) → covered ps x ≡ ltb 0 (hits ps x)
covered-hits [] x = refl
covered-hits (p ∷ ps) x = ground (arith, covered-hits ps x)

pub hits-append : (ps qs : List Prefix) (x : Addr) → hits (ps ++ qs) x ≡ hits ps x + hits qs x
hits-append [] qs x = omega arith
hits-append (p ∷ ps) qs x = ground (arith, hits-append ps qs x)

-- A prefix that the code may go on with.
pub record IsBlock (p : Prefix) : Type 0 where
  pub valid : IsPrefix p
  pub masked : IsMasked p

pub covered_if :
    (b : Bool) (ps qs : List Prefix) (x : Addr)
    → covered (if b then ps else qs) x ≡ (if b then covered ps x else covered qs x)
covered_if true ps qs x = refl
covered_if false ps qs x = refl
