-- ===== src/PrefixFilter/Exclude/Punch.antt =====
-- The loop over the excludes that may overlap a prefix, from the last one down.
use wdbgp.Prelude.{
  List, ℕ, All, ◌≡◌, Bool, ◌<◌, true, ◌≤◌, if◌then◌else◌, leb, ◌||◌, All-append, arith, false, ◌==◌,
  [], Bool-cases, ◌∙◌, inl, sym, refl, inr,
}
use wdbgp.Netip.{Addr, Prefix, bit_len, contains, addr_less}
use wdbgp.Netip.Cover.{hits, hits-append, covered, IsBlock}
use wdbgp.PrefixFilter.Subtract.{subtract}
use wdbgp.PrefixFilter.Subtract.Fragments.{subtract-hits, subtract-IsBlock}
use wdbgp.PrefixFilter.Exclude.{cut, is_nil, exclude_loop, last_addr, ◌∷◌}
use wdbgp.PrefixFilter.Exclude.Ranges.{block-between}
use wdbgp.PrefixFilter.Exclude.Order.{IsOf, Pairwise, Ends}

cut-hits :
    (e : Prefix) (fs : List Prefix) (x : Addr)
    → IsBlock e
    → All IsBlock fs
    → hits (cut e fs) x ≡ (if contains e x then 0 else hits fs x)
unfolding cut
cut-hits e [] x be bs = ground arith
cut-hits e (f ∷ fs) x be bs =
    hits-append (subtract f e) (cut e fs) x
    ∙ ground (arith, subtract-hits f e x bs.0.valid be.valid, cut-hits e fs x be bs.1)

cut-IsBlock : (e : Prefix) (fs : List Prefix) → IsBlock e → All IsBlock fs → All IsBlock (cut e fs)
unfolding cut
cut-IsBlock e [] be bs = tt
cut-IsBlock e (f ∷ fs) be bs =
    All-append IsBlock (subtract f e) (cut e fs) (subtract-IsBlock f e bs.0.valid be.valid)
      (cut-IsBlock e fs be bs.1)

abbrev pub EndsBefore : Prefix → Prefix → Type 0
EndsBefore p q = Ends q p

-- What ends before an address does not contain it.
below-covered :
    (bits limit : ℕ) (es : List Prefix) (x : Addr)
    → All IsBlock es
    → All (IsOf bits) es
    → bit_len x ≡ bits
    → limit ≤ x.value
    → All (λ e. (last_addr e).value < limit) es
    → covered es x ≡ false
below-covered bits limit [] x bs fs fx le hs = refl
below-covered bits limit (e ∷ es) x bs fs fx le hs =
    let rest = below-covered bits limit es x bs.1 fs.1 fx le hs.1 in
    ground (arith, rest, block-between e x bs.0 (fs.0 ∙ sym fx), hs.0, le)

ends_below :
    (limit : ℕ) (e : Prefix) (es : List Prefix)
    → (last_addr e).value < limit
    → All (EndsBefore e) es
    → All (λ d. (last_addr d).value < limit) es
ends_below limit e [] h hs = tt
ends_below limit e (d ∷ ds) h hs = (omega (arith, h, hs.0), ends_below limit e ds h hs.1)

is_nil-hits : (fs : List Prefix) (x : Addr) → is_nil fs ≡ true → hits fs x ≡ 0
is_nil-hits [] x h = refl
is_nil-hits (f ∷ fs) x h = absurd (ground (arith, h))

-- Whether an address may be in a fragment.
abbrev pub is_outside : Addr → List Prefix → Addr → Bool
is_outside start fragments x = leb start.value x.value || hits fragments x == 0

pub exclude_loop-hits :
    (bits : ℕ) (start : Addr) (fragments : List Prefix) (changed : Bool) (es : List Prefix)
    (x : Addr)
    → All IsBlock fragments
    → All IsBlock es
    → All (IsOf bits) es
    → Pairwise EndsBefore es
    → bit_len start ≡ bits
    → bit_len x ≡ bits
    → is_outside start fragments x ≡ true
    → hits (exclude_loop start fragments changed es).0 x
      ≡ (if covered es x then 0 else hits fragments x)
unfolding exclude_loop addr_less
exclude_loop-hits bits start fragments changed [] x bf be fe order fs fx out = refl
exclude_loop-hits bits start fragments changed (e ∷ es) x bf be fe order fs fx out =
    elim (Bool-cases (addr_less (last_addr e) start)) [
      | inl stop ↦
          let ended : (last_addr e).value < start.value = before e start fs fe.0 stop in
          rw stop (elim (Bool-cases (leb start.value x.value)) [
            | inl low ↦
                let no : covered (e ∷ es) x ≡ false =
                  below-covered bits start.value (e ∷ es) x be fe fx (ground (arith, low))
                    (ended, ends_below start.value e es ended order.0) in
                rw no refl
            | inr high ↦ ground (arith, out, high)
          ])
      | inr go ↦
          let inside = cut-hits e fragments x be.0 bf in
          rw go (elim (Bool-cases (is_nil (cut e fragments))) [
            | inl nil ↦
                let zero_hits = is_nil-hits (cut e fragments) x nil in
                rw nil (ground (arith, zero_hits, inside))
            | inr more ↦
                let rest =
                  exclude_loop-hits bits start (cut e fragments) true es x
                    (cut-IsBlock e fragments be.0 bf) be.1 fe.1 order.1 fs fx
                    (ground (arith, out, inside)) in
                rw more (rest ∙ ground (arith, inside))
          ])
    ]
  where
    before :
        (e : Prefix) (start : Addr)
        → bit_len start ≡ bits
        → IsOf bits e
        → addr_less (last_addr e) start ≡ true
        → (last_addr e).value < start.value
    before e start fs fe h = ground (arith, h, fs, fe)

-- Cutting adds no address.
pub exclude_loop-none :
    (start : Addr) (fragments : List Prefix) (changed : Bool) (es : List Prefix) (x : Addr)
    → All IsBlock fragments
    → All IsBlock es
    → hits fragments x ≡ 0
    → hits (exclude_loop start fragments changed es).0 x ≡ 0
unfolding exclude_loop
exclude_loop-none start fragments changed [] x bf be h = h
exclude_loop-none start fragments changed (e ∷ es) x bf be h =
    elim (Bool-cases (addr_less (last_addr e) start)) [
      | inl stop ↦ rw stop h
      | inr go ↦ rw go (elim (Bool-cases (is_nil (cut e fragments))) [
        | inl nil ↦ rw nil refl
        | inr more ↦ rw more (
            exclude_loop-none start (cut e fragments) true es x (cut-IsBlock e fragments be.0 bf)
              be.1 (ground (arith, cut-hits e fragments x be.0 bf, h)))
      ])
    ]

changed-stays :
    (start : Addr) (fragments : List Prefix) (es : List Prefix)
    → (exclude_loop start fragments true es).1 ≡ true
unfolding exclude_loop
changed-stays start fragments [] = refl
changed-stays start fragments (e ∷ es) = elim (Bool-cases (addr_less (last_addr e) start)) [
  | inl stop ↦ rw stop refl
  | inr go ↦ rw go (elim (Bool-cases (is_nil (cut e fragments))) [
    | inl nil ↦ rw nil refl
    | inr more ↦ rw more (changed-stays start (cut e fragments) es)
  ])
]

-- Where nothing was removed the fragments are as they were.
pub exclude_loop-unchanged :
    (start : Addr) (fragments : List Prefix) (es : List Prefix)
    → (exclude_loop start fragments false es).1 ≡ false
    → (exclude_loop start fragments false es).0 ≡ fragments
unfolding exclude_loop
exclude_loop-unchanged start fragments [] h = refl
exclude_loop-unchanged start fragments (e ∷ es) h =
    elim (Bool-cases (addr_less (last_addr e) start)) [
      | inl stop ↦ rw stop refl
      | inr go ↦ elim (Bool-cases (is_nil (cut e fragments))) [
        | inl nil ↦ absurd (ground (arith, h, go, nil))
        | inr more ↦ absurd (ground (arith, h, go, more, changed-stays start (cut e fragments) es))
      ]
    ]
