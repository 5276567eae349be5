-- ===== src/PrefixFilter/Apply/Deny.antt =====
-- `Apply` of internal/prefixfilter/filter.go: what a result covers, its form and its size.
use wdbgp.Prelude.{
  ℕ, List, All, length, ◌≤◌, ◌≡◌, some, ◌&&◌, ◌||◌, not, arith, Bool-cases, Option-cases, [], ltb,
  ◌+◌, inl, inr, ◌++◌, All-append, length-append, ◌∙◌, any-append, ap, Bool,
}
use mathlib.Core.Option.{some-injective}
use wdbgp.Netip.{v4, Prefix, Addr, contains, IsPrefix}
use wdbgp.Netip.Cover.{covered, hits, IsBlock}
use wdbgp.PrefixFilter.Subtract.{subtract}
use wdbgp.PrefixFilter.Subtract.Fragments.{subtract-covered, subtract-IsBlock}
use wdbgp.PrefixFilter.Normalize.{normalize}
use wdbgp.PrefixFilter.Normalize.Laws.{
  InRange, normalize-covered, normalize-hits, normalize-IsBlock, length-normalize,
}
use wdbgp.PrefixFilter.Apply.{Lists, intersect, subtract_each, subtract_all, limit_of, apply, ◌∷◌}
use wdbgp.PrefixFilter.Apply.Intersect.{
  Narrows, allowed_by, intersect-covered, intersect-IsBlock, All-InRange,
}

-- One pass over the fragments removes the denied prefix, and keeps within the limit.
subtract_each_lem :
    (limit : ℕ) (d : Prefix) (next ps out : List Prefix) (x : Addr)
    → IsPrefix d
    → All IsBlock next
    → All IsBlock ps
    → length next ≤ limit
    → subtract_each limit d next ps ≡ some out
    → (covered out x ≡ (covered next x || (covered ps x && not (contains d x))))
      × All IsBlock out
      × (length out ≤ limit)
unfolding subtract_each
subtract_each_lem limit d next [] out x hd hn hp l e =
    let same : next ≡ out = some-injective _ _ e in rw (← same) (ground arith, hn, l)
subtract_each_lem limit d next (p ∷ ps) out x hd hn hp l e =
    elim (Bool-cases (ltb limit (length next + length (subtract p d)))) [
      | inl over ↦ cc (rw over at e)
      | inr fits ↦
          let (c, b, s) =
            subtract_each_lem limit d (next ++ subtract p d) ps out x hd
              (All-append IsBlock next (subtract p d) hn (subtract-IsBlock p d hp.0.valid hd)) hp.1
              (rw length-append (ground arith)) (rw fits at e) in
          (
            c
                ∙ rw (any-append (λ q. contains q x) next (subtract p d))
                    (ground (arith, subtract-covered p d x hp.0.valid hd)),
            b,
            s,
          )
    ]

subtract_all_lem :
    (limit : ℕ) (ds ps out : List Prefix) (x : Addr)
    → All IsBlock ds
    → All IsBlock ps
    → length ps ≤ limit
    → subtract_all limit ds ps ≡ some out
    → (covered out x ≡ (covered ps x && not (covered ds x)))
      × All IsBlock out
      × (length out ≤ limit)
unfolding subtract_all
subtract_all_lem limit [] ps out x hd hp l e =
    let same : ps ≡ out = some-injective _ _ e in rw (← same) (ground arith, hp, l)
subtract_all_lem limit (d ∷ ds) ps out x hd hp l e =
    elim (Option-cases (subtract_each limit d [] ps)) [
      | inl stop ↦ cc (rw stop at e)
      | inr (next, go) ↦
          let (c, b, s) =
            subtract_each_lem limit d [] ps next x hd.0.valid tt hp (omega arith) go in
          let (c', b', s') = subtract_all_lem limit ds next out x hd.1 b s (rw go at e) in
          (ground (arith, c, c'), b', s')
    ]

-- What a result of `Apply` is: addresses, form, size.
pub record IsResult (input : List Prefix) (lists : Lists) (limit : ℕ) (out : List Prefix)
    : Type 0 where
  pub addresses :
      (x : Addr)
      → covered out x ≡ (covered (intersect input lists.allow) x && not (covered lists.deny x))
  pub apart : (x : Addr) → hits out x ≤ 1
  pub blocks : All IsBlock out
  pub size : length out ≤ limit

deny_IsResult :
    (input : List Prefix) (lists : Lists) (limit : ℕ) (left : List Prefix)
    → All InRange input
    → All InRange lists.allow
    → All InRange lists.deny
    → length (intersect input lists.allow) ≤ limit
    → subtract_all limit (normalize lists.deny) (intersect input lists.allow) ≡ some left
    → IsResult input lists limit (normalize left)
deny_IsResult input lists limit left hi ha hd l e = record {
  addresses = λ x.
      normalize-covered left x (All-InRange left (facts x).1)
      ∙ (facts x).0
      ∙ ap (λ (b : Bool). covered (intersect input lists.allow) x && not b)
          (normalize-covered lists.deny x hd);
  apart = λ x. normalize-hits left x (All-InRange left (facts x).1);
  blocks = normalize-IsBlock left blocks;
  size = omega (arith, length-normalize left blocks, sized);
}
  where
    facts :
        (x : Addr)
        → (covered left x
            ≡ (covered (intersect input lists.allow) x && not (covered (normalize lists.deny) x)))
          × All IsBlock left
          × (length left ≤ limit)
    facts x =
        subtract_all_lem limit (normalize lists.deny) (intersect input lists.allow) left x
          (normalize-IsBlock lists.deny hd) (intersect-IsBlock input lists.allow hi ha) l e

    zero_addr : Addr
    zero_addr = record { family = v4; value = 0 }

    blocks : All InRange left
    blocks = All-InRange left (facts zero_addr).1

    sized : length left ≤ limit
    sized = (facts zero_addr).2

-- If each address of the three lists is one of its family, a result of `Apply` covers the addresses
-- of the intersection that are not denied, its prefixes are blocks that share no address, and there
-- are no more of them than the limit.
pub apply-IsResult :
    (input : List Prefix) (lists : Lists) (max_prefixes : ℕ) (out : List Prefix)
    → All InRange input
    → All InRange lists.allow
    → All InRange lists.deny
    → apply input lists max_prefixes ≡ some out
    → IsResult input lists (limit_of max_prefixes) out
unfolding apply
apply-IsResult input lists max_prefixes out hi ha hd e =
    elim (Bool-cases (ltb limit (length (intersect input lists.allow)))) [
      | inl over ↦ cc (rw over at e)
      | inr fits ↦
          elim (Option-cases
            (subtract_all limit (normalize lists.deny) (intersect input lists.allow))) [
              | inl stop ↦ cc (rw (fits, stop) at e)
              | inr (left, go) ↦
                  let same : normalize left ≡ out = some-injective _ _ (rw (fits, go) at e) in
                  rw (← same) (deny_IsResult input lists limit left hi ha hd (ground arith) go)
            ]
    ]
  where
    limit : ℕ
    limit = limit_of max_prefixes

-- Where no allow entry begins inside a longer input prefix, and each address of the three lists is
-- one of its family, a result of `Apply` covers exactly the addresses of the input that are allowed
-- and not denied.
pub apply-covered :
    (input : List Prefix) (lists : Lists) (max_prefixes : ℕ) (out : List Prefix) (x : Addr)
    → All InRange input
    → All InRange lists.allow
    → All InRange lists.deny
    → All (λ p. All (Narrows p) (normalize lists.allow)) (normalize input)
    → apply input lists max_prefixes ≡ some out
    → covered out x
      ≡ (covered input x && allowed_by (normalize lists.allow) x && not (covered lists.deny x))
apply-covered input lists max_prefixes out x hi ha hd n e =
    (apply-IsResult input lists max_prefixes out hi ha hd e).addresses x
    ∙ ground (arith, intersect-covered input lists.allow x hi ha n)
