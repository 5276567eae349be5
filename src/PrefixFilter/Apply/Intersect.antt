-- ===== src/PrefixFilter/Apply/Intersect.antt =====
-- `intersect` of internal/prefixfilter/filter.go as an operation on sets of addresses.
use wdbgp.Prelude.{
  ◌≡◌, List, true, ◌&&◌, All, ◌≤◌, arith, any-append, ◌∙◌, [], refl, ap, Bool, All-append,
  Bool-cases, ◌<◌, false, not, ◌+◌, ◌==◌, inl, inr, sym, ◌-◌,
}
use wdbgp.Prelude.Pow.{div-add-pow2, div-add_shorter}
use wdbgp.Netip.{Prefix, Addr, contains, bit_len, IsPrefix, block_size}
use wdbgp.Netip.Laws.{contains→IsIn, IsIn→contains, contains_trans, contains_overlap, contains_self}
use wdbgp.Netip.Cover.{covered, covered_if, IsBlock}
use wdbgp.PrefixFilter.Normalize.{normalize}
use wdbgp.PrefixFilter.Normalize.Laws.{InRange, normalize-covered, normalize-IsBlock, normalize_one}
use wdbgp.PrefixFilter.Apply.{meet, meet_each, meet_all, intersect_normal, intersect, ◌∷◌}

-- The allow entry does not begin inside a prefix that is longer than it.
abbrev pub Narrows : Prefix → Prefix → Type 0
Narrows p d = contains p d.addr ≡ true → p.bits ≤ d.bits

meet-covered :
    (p d : Prefix) (x : Addr)
    → IsPrefix p
    → Narrows p d
    → covered (meet p d) x ≡ (contains p x && contains d x)
unfolding meet
meet-covered p d x h n = simp covered_if (
    ground (
      arith,
      contains→IsIn p x,
      contains→IsIn d x,
      contains_self p h,
      contains_overlap p d p.addr,
      contains_overlap p d x,
      contains_overlap d p x,
      contains_trans p d x,
      contains_trans d p x,
    ))

meet_each-covered :
    (p : Prefix) (ds : List Prefix) (x : Addr)
    → IsPrefix p
    → All (Narrows p) ds
    → covered (meet_each p ds) x ≡ (contains p x && covered ds x)
unfolding meet_each
meet_each-covered p [] x h n = ground arith
meet_each-covered p (d ∷ ds) x h n =
    any-append (λ q. contains q x) (meet p d) (meet_each p ds)
    ∙ ground (arith, meet-covered p d x h n.0, meet_each-covered p ds x h n.1)

meet_all-covered :
    (ps ds : List Prefix) (x : Addr)
    → All IsBlock ps
    → All (λ p. All (Narrows p) ds) ps
    → covered (meet_all ps ds) x ≡ (covered ps x && covered ds x)
unfolding meet_all
meet_all-covered [] ds x h n = refl
meet_all-covered (p ∷ ps) ds x h n =
    any-append (λ q. contains q x) (meet_each p ds) (meet_all ps ds)
    ∙ ground (arith, meet_each-covered p ds x h.0.valid n.0, meet_all-covered ps ds x h.1 n.1)

-- What passes an allow list: everything, if the list names no valid prefix.
abbrev pub allowed_by : List Prefix → Addr → Bool
allowed_by [] x = true
allowed_by (d ∷ ds) x = covered (d ∷ ds) x

pub All-InRange : (ps : List Prefix) → All IsBlock ps → All InRange ps
All-InRange [] h = tt
All-InRange (p ∷ ps) h = (h.0.valid.in_range, All-InRange ps h.1)

meet-InRange : (p d : Prefix) → InRange p → InRange d → All InRange (meet p d)
unfolding meet
meet-InRange p d h k = elim (Bool-cases (not (bit_len p.addr == bit_len d.addr))) [
  | inl other ↦ rw other tt
  | inr same ↦ rw same (elim (Bool-cases (contains p d.addr)) [
    | inl e ↦ rw e (k, tt)
    | inr e ↦
        rw e (elim (Bool-cases (contains d p.addr)) [ inl i ↦ rw i (h, tt) | inr i ↦ rw i tt ])
  ])
]

meet_each-InRange :
    (p : Prefix) (ds : List Prefix) → InRange p → All InRange ds → All InRange (meet_each p ds)
unfolding meet_each
meet_each-InRange p [] h k = tt
meet_each-InRange p (d ∷ ds) h k =
    All-append InRange (meet p d) (meet_each p ds) (meet-InRange p d h k.0)
      (meet_each-InRange p ds h k.1)

meet_all-InRange :
    (ps ds : List Prefix) → All InRange ps → All InRange ds → All InRange (meet_all ps ds)
unfolding meet_all
meet_all-InRange [] ds h k = tt
meet_all-InRange (p ∷ ps) ds h k =
    All-append InRange (meet_each p ds) (meet_all ps ds) (meet_each-InRange p ds h.0 k)
      (meet_all-InRange ps ds h.1 k)

intersect_normal-covered :
    (ps ds : List Prefix) (x : Addr)
    → All IsBlock ps
    → All IsBlock ds
    → All (λ p. All (Narrows p) ds) ps
    → covered (intersect_normal ps ds) x ≡ (covered ps x && allowed_by ds x)
unfolding intersect_normal
intersect_normal-covered ps [] x h k n = ground arith
intersect_normal-covered ps (d ∷ ds) x h k n =
    normalize-covered (meet_all ps (d ∷ ds)) x
      (meet_all-InRange ps (d ∷ ds) (All-InRange ps h) (All-InRange (d ∷ ds) k))
    ∙ meet_all-covered ps (d ∷ ds) x h n

-- The intersection has the addresses of the input that the allow list has, where no allow entry
-- begins inside a longer input prefix.
pub intersect-covered :
    (input allow : List Prefix) (x : Addr)
    → All InRange input
    → All InRange allow
    → All (λ p. All (Narrows p) (normalize allow)) (normalize input)
    → covered (intersect input allow) x ≡ (covered input x && allowed_by (normalize allow) x)
unfolding intersect
intersect-covered input allow x h k n =
    intersect_normal-covered (normalize input) (normalize allow) x (normalize-IsBlock input h)
      (normalize-IsBlock allow k) n
    ∙ ap (λ (b : Bool). b && allowed_by (normalize allow) x) (normalize-covered input x h)

module _ (p d : Prefix) (hp : IsBlock p) (hd : IsBlock d) (w : bit_len d.addr ≡ bit_len p.addr)
    (e : d.addr.value ≡ p.addr.value) (lt : d.bits < p.bits) where
  -- The first address behind `p`.
  behind : Addr
  behind = record { family = p.addr.family; value = p.addr.value + block_size p }

  behind-outside : contains p behind ≡ false
  unfolding behind contains
  behind-outside = ground (arith, div-add-pow2 p.addr.value (bit_len p.addr - p.bits))

  behind-inside : contains d behind ≡ true
  unfolding behind
  behind-inside =
      let longer : bit_len p.addr - p.bits < bit_len d.addr - d.bits =
        omega (arith, hp.valid.fits) in
      IsIn→contains d behind (record {
        fits = hd.valid.fits;
        same = w;
        block = rw (← e) (
            div-add_shorter d.addr.value (bit_len p.addr - p.bits) (bit_len d.addr - d.bits) longer
              hd.masked);
      })

  taken_whole : meet_all (p ∷ []) (d ∷ []) ≡ d ∷ []
  unfolding meet_all meet_each meet
  taken_whole =
      let begins : contains p d.addr ≡ true =
        IsIn→contains p d.addr (record { fits = hp.valid.fits; same = sym w; block = rw e }) in
      ground (arith, begins, w)

  -- For two blocks of one family at one address, an allow list with the shorter one lets an
  -- address outside the longer input prefix through.
  pub intersect_widens :
      (x : Addr) × (covered (intersect (p ∷ []) (d ∷ [])) x ≡ true) × (contains p x ≡ false)
  unfolding intersect intersect_normal
  intersect_widens = (behind, passes, behind-outside)
    where
      passes : covered (intersect (p ∷ []) (d ∷ [])) behind ≡ true
      passes =
          rw
            (normalize_one p hp, normalize_one d hd, taken_whole, normalize_one d hd, behind-inside)
            refl

intersect_normal-IsBlock :
    (ps ds : List Prefix) → All IsBlock ps → All IsBlock ds → All IsBlock (intersect_normal ps ds)
unfolding intersect_normal
intersect_normal-IsBlock ps [] h k = h
intersect_normal-IsBlock ps (d ∷ ds) h k =
    normalize-IsBlock (meet_all ps (d ∷ ds))
      (meet_all-InRange ps (d ∷ ds) (All-InRange ps h) (All-InRange (d ∷ ds) k))

pub intersect-IsBlock :
    (input allow : List Prefix)
    → All InRange input
    → All InRange allow
    → All IsBlock (intersect input allow)
unfolding intersect
intersect-IsBlock input allow h k =
    intersect_normal-IsBlock (normalize input) (normalize allow) (normalize-IsBlock input h)
      (normalize-IsBlock allow k)
