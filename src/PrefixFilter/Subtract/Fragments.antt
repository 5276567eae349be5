-- ===== src/PrefixFilter/Subtract/Fragments.antt =====
-- `subtract` of internal/prefixfilter/filter.go as an operation on sets of addresses.
use wdbgp.Netip.Cover.{covered, hits, once, covered-hits, IsBlock}
use wdbgp.Prelude.{
  ap, ℕ, zero, suc, ◌+◌, ◌-◌, ◌<◌, ◌≡◌, refl, Bool, true, false, not, ◌&&◌, List, ◌∷◌, arith,
  if◌then◌else◌, Bool-cases, Bool-ext, inl, inr, All, length, ◌==◌, leb, [],
}
use wdbgp.Netip.{Prefix, Addr, masked, contains, IsPrefix, IsMasked, bit_len}
use wdbgp.PrefixFilter.Subtract.Halves.{AreHalves, children-AreHalves}
use wdbgp.Netip.Laws.{
  contains→IsIn, contains_trans, contains_overlap, contains-masked, masked-IsMasked,
  masked-IsPrefix, contains_self,
}
use wdbgp.PrefixFilter.Subtract.{children, subtract_loop, subtract_masked, subtract}

-- The state of the loop of `subtract` between two rounds.
record IsLoop (rounds : ℕ) (current denied : Prefix) : Type 0 where
  left : current.bits + rounds ≡ denied.bits
  current_IsPrefix : IsPrefix current
  current_IsMasked : IsMasked current
  inside : contains current denied.addr ≡ true
  denied_IsPrefix : IsPrefix denied

-- When the two blocks have one size they are one block.
same_block :
    (p q : Prefix) (x : Addr)
    → IsPrefix p
    → IsPrefix q
    → p.bits ≡ q.bits
    → contains p q.addr ≡ true
    → contains p x ≡ contains q x
same_block p q x hp hq e h =
    Bool-ext _ _
      (λ i.
        contains_trans q p x (contains_overlap q p q.addr (contains_self q hq) h (omega arith))
          (omega arith) i)
      (λ i. contains_trans p q x h (omega arith) i)

-- What one round finds: the halves, and a half that has the denied address.
module _ (n : ℕ) (current denied : Prefix) (l : IsLoop (suc n) current denied) where
  loop_halves : AreHalves current (children current).0 (children current).1
  loop_halves =
      let same = (contains→IsIn current denied.addr l.inside).same in
      let fits = l.denied_IsPrefix.fits in
      children-AreHalves current l.current_IsPrefix l.current_IsMasked (omega arith)

  IsLoop-left :
      contains (children current).0 denied.addr ≡ true → IsLoop n (children current).0 denied
  IsLoop-left e = record {
    left = omega (arith, loop_halves.left_bits);
    current_IsPrefix = loop_halves.left_IsPrefix;
    current_IsMasked = loop_halves.left_IsMasked;
    inside = e;
    denied_IsPrefix = l.denied_IsPrefix;
  }

  IsLoop-right :
      contains (children current).0 denied.addr ≡ false → IsLoop n (children current).1 denied
  IsLoop-right e = record {
    left = omega (arith, loop_halves.right_bits);
    current_IsPrefix = loop_halves.right_IsPrefix;
    current_IsMasked = loop_halves.right_IsMasked;
    inside = ground (arith, loop_halves.cover denied.addr, l.inside);
    denied_IsPrefix = l.denied_IsPrefix;
  }

loop_step_left :
    (n : ℕ) (c d : Prefix)
    → contains (children c).0 d.addr ≡ true
    → subtract_loop (suc n) c d ≡ (children c).1 ∷ subtract_loop n (children c).0 d
unfolding subtract_loop
loop_step_left n c d e = ground arith

loop_step_right :
    (n : ℕ) (c d : Prefix)
    → contains (children c).0 d.addr ≡ false
    → subtract_loop (suc n) c d ≡ (children c).0 ∷ subtract_loop n (children c).1 d
unfolding subtract_loop
loop_step_right n c d e = ground arith

subtract_loop-hits :
    (rounds : ℕ) (current denied : Prefix) (x : Addr)
    → IsLoop rounds current denied
    → hits (subtract_loop rounds current denied) x
      ≡ once (contains current x && not (contains denied x))
unfolding subtract_loop
subtract_loop-hits zero current denied x l =
    rw (same_block current denied x l.current_IsPrefix l.denied_IsPrefix (omega arith) l.inside)
      (ground arith)
subtract_loop-hits (suc n) current denied x l =
    let hv = loop_halves n current denied l in
    elim (Bool-cases (contains (children current).0 denied.addr)) [
      | inl e ↦
          let next = IsLoop-left n current denied l e in
          rw
            (
              loop_step_left n current denied e,
              subtract_loop-hits n (children current).0 denied x next,
              hv.cover x,
            )
            (ground (
              arith,
              hv.apart x,
              contains_trans (children current).0 denied x e (omega (arith, next.left)),
            ))
      | inr e ↦
          let next = IsLoop-right n current denied l e in
          rw
            (
              loop_step_right n current denied e,
              subtract_loop-hits n (children current).1 denied x next,
              hv.cover x,
            )
            (ground (
              arith,
              hv.apart x,
              contains_trans (children current).1 denied x next.inside (omega (arith, next.left)),
            ))
    ]

hits_if :
    (b : Bool) (ps qs : List Prefix) (x : Addr)
    → hits (if b then ps else qs) x ≡ (if b then hits ps x else hits qs x)
hits_if true ps qs x = refl
hits_if false ps qs x = refl

-- The arguments masked, as `subtract` starts.
subtract_masked-hits :
    (p d : Prefix) (x : Addr)
    → IsPrefix p
    → IsMasked p
    → IsPrefix d
    → IsMasked d
    → hits (subtract_masked p d) x ≡ once (contains p x && not (contains d x))
unfolding subtract_masked
subtract_masked-hits p d x hp mp hd md = simp hits_if (
    ground (
      arith,
      contains→IsIn p x,
      contains→IsIn d x,
      contains_self d hd,
      contains_overlap d p d.addr,
      contains_trans d p x,
      contains_overlap d p x,
      contains_overlap p d x,
      contains_trans p d x,
      subtract_loop-hits (d.bits - p.bits) p d x,
      start,
    ))
  where
    start : p.bits < d.bits → contains p d.addr ≡ true → IsLoop (d.bits - p.bits) p d
    start a b = record {
      left = omega arith;
      current_IsPrefix = hp;
      current_IsMasked = mp;
      inside = b;
      denied_IsPrefix = hd;
    }

-- For two valid prefixes, each address of the first that the denied one does not have is in exactly
-- one fragment, and no other address is in any.
pub subtract-hits :
    (p d : Prefix) (x : Addr)
    → IsPrefix p
    → IsPrefix d
    → hits (subtract p d) x ≡ once (contains p x && not (contains d x))
unfolding subtract
subtract-hits p d x hp hd =
    rw (← contains-masked p x, ← contains-masked d x)
      (subtract_masked-hits (masked p) (masked d) x (masked-IsPrefix p hp) (masked-IsMasked p)
        (masked-IsPrefix d hd) (masked-IsMasked d))

pub subtract-covered :
    (p d : Prefix) (x : Addr)
    → IsPrefix p
    → IsPrefix d
    → covered (subtract p d) x ≡ (contains p x && not (contains d x))
subtract-covered p d x hp hd =
    ground (arith, covered-hits (subtract p d) x, subtract-hits p d x hp hd)

subtract_loop-IsBlock :
    (rounds : ℕ) (current denied : Prefix)
    → IsLoop rounds current denied
    → All IsBlock (subtract_loop rounds current denied)
      × (length (subtract_loop rounds current denied) ≡ rounds)
unfolding subtract_loop
subtract_loop-IsBlock zero current denied l = (tt, refl)
subtract_loop-IsBlock (suc n) current denied l =
    let hv = loop_halves n current denied l in
    elim (Bool-cases (contains (children current).0 denied.addr)) [
      | inl e ↦
          let (a, b) =
            subtract_loop-IsBlock n (children current).0 denied
              (IsLoop-left n current denied l e) in
          rw (loop_step_left n current denied e)
            ((record { valid = hv.right_IsPrefix; masked = hv.right_IsMasked }, a), ap suc b)
      | inr e ↦
          let (a, b) =
            subtract_loop-IsBlock n (children current).1 denied
              (IsLoop-right n current denied l e) in
          rw (loop_step_right n current denied e)
            ((record { valid = hv.left_IsPrefix; masked = hv.left_IsMasked }, a), ap suc b)
    ]

All-if :
    (b : Bool) (ps qs : List Prefix)
    → All IsBlock ps
    → (b ≡ false → All IsBlock qs)
    → All IsBlock (if b then ps else qs)
All-if true ps qs h k = h
All-if false ps qs h k = k refl

-- The fragments are blocks with no host bit set.
subtract_masked-IsBlock :
    (p d : Prefix) → IsBlock p → IsPrefix d → All IsBlock (subtract_masked p d)
unfolding subtract_masked
subtract_masked-IsBlock p d hp hd =
    All-if other whole from_cover (hp, tt)
      λ _. All-if (contains d p.addr && leb d.bits p.bits) [] from_apart tt λ _.
        All-if (not (contains p d.addr)) whole from_size (hp, tt)
          λ i.
            All-if (leb d.bits p.bits) [] (subtract_loop (d.bits - p.bits) p d) tt
              λ l. (subtract_loop-IsBlock (d.bits - p.bits) p d (start i l)).0
  where
    whole : List Prefix
    whole = p ∷ []

    other : Bool
    other = not (bit_len p.addr == bit_len d.addr)

    from_size : List Prefix
    from_size = if leb d.bits p.bits then [] else subtract_loop (d.bits - p.bits) p d

    from_apart : List Prefix
    from_apart = if not (contains p d.addr) then whole else from_size

    from_cover : List Prefix
    from_cover = if contains d p.addr && leb d.bits p.bits then [] else from_apart

    start :
        not (contains p d.addr) ≡ false → leb d.bits p.bits ≡ false → IsLoop (d.bits - p.bits) p d
    start i l = record {
      left = ground arith;
      current_IsPrefix = hp.valid;
      current_IsMasked = hp.masked;
      inside = ground arith;
      denied_IsPrefix = hd;
    }

pub subtract-IsBlock : (p d : Prefix) → IsPrefix p → IsPrefix d → All IsBlock (subtract p d)
unfolding subtract
subtract-IsBlock p d hp hd =
    subtract_masked-IsBlock (masked p) (masked d)
      (record { valid = masked-IsPrefix p hp; masked = masked-IsMasked p }) (masked-IsPrefix d hd)
