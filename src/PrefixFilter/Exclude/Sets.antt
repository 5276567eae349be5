-- ===== src/PrefixFilter/Exclude/Sets.antt =====
-- What an exclude set of a list of prefixes has, and what its `Subtract` leaves.
use wdbgp.Prelude.{
  List, Bool, ◌≡◌, ℕ, All, refl, [], keep, true, ◌∷◌, ◌≤◌, take, Bool-cases, arith, ◌⊎◌, false, inl,
  ◌&&◌, inr, not, if_false, ◌∙◌, sym,
}
use wdbgp.Netip.{Addr, Prefix, bit_len, contains}
use wdbgp.Netip.Cover.{hits, once, covered, IsBlock}
use wdbgp.PrefixFilter.Exclude.{last_addr, search_after, reverse_onto, exclude_loop}
use wdbgp.PrefixFilter.Exclude.Ranges.{block-between}
use wdbgp.PrefixFilter.Exclude.Order.{IsOf, Ends, IsReady}
use wdbgp.PrefixFilter.Exclude.Punch.{exclude_loop-hits, exclude_loop-none}
use wdbgp.PrefixFilter.Exclude.Laws.{
  covered-reverse_onto, All-reverse_onto, reverse_onto-EndsBefore, All-take, Pairwise-take,
  none_done, take-covered,
}

-- The excludes that the loop sees.
abbrev pub candidates : Prefix → List Prefix → List Prefix
candidates p es = reverse_onto [] (take (search_after (last_addr p) es) es)

pub same_family : (p : Prefix) (x : Addr) → contains p x ≡ true → bit_len p.addr ≡ bit_len x
unfolding contains
same_family p x h = ground (arith, h)

last_family : (p : Prefix) → bit_len (last_addr p) ≡ bit_len p.addr
unfolding last_addr
last_family p = refl

pub punch :
    (bits : ℕ) (p : Prefix) (es : List Prefix) (x : Addr)
    → IsBlock p
    → IsOf bits p
    → IsReady bits es
    → hits (exclude_loop p.addr (p ∷ []) false (candidates p es)).0 x
      ≡ once (contains p x && not (covered es x))
punch bits p es x b f r =
    let idx = search_after (last_addr p) es in
    let blocks : All IsBlock (candidates p es) =
      All-reverse_onto IsBlock [] (take idx es) tt (All-take IsBlock idx es r.blocks) in
    elim (Bool-cases (contains p x)) [
      | inr out ↦
          exclude_loop-none p.addr (p ∷ []) false (candidates p es) x (b, tt) blocks
            (if_false 1 0 out)
          ∙ ground (arith, out)
      | inl inside ↦
          let fx : bit_len x ≡ bits = sym (same_family p x inside) ∙ f in
          let between = block-between p x b (same_family p x inside) in
          let same : covered (candidates p es) x ≡ covered es x =
            covered-reverse_onto [] (take idx es) x
            ∙ take-covered bits (last_addr p) es x r.blocks r.family r.starts (last_family p ∙ f) fx
                (ground (arith, between, inside)) in
          exclude_loop-hits bits p.addr (p ∷ []) false (candidates p es) x (b, tt) blocks
            (All-reverse_onto (IsOf bits) [] (take idx es) tt
              (All-take (IsOf bits) idx es r.family))
            (reverse_onto-EndsBefore [] (take idx es) tt (Pairwise-take Ends idx es r.ends)
              (none_done (take idx es)))
            f fx (ground (arith, between, inside))
          ∙ ground (arith, same, inside)
    ]

pub All-keep :
    (P : Prefix → Type 0) (f : Prefix → Bool) (ps : List Prefix) → All P ps → All P (keep f ps)
All-keep P f [] h = tt
All-keep P f (p ∷ ps) h = elim (Bool-cases (f p)) [
  | inl e ↦ rw e (h.0, All-keep P f ps h.1)
  | inr e ↦ rw e (All-keep P f ps h.1)
]

-- What a test says of the kept prefixes.
pub All-kept :
    (P Q : Prefix → Type 0) (f : Prefix → Bool) (ps : List Prefix)
    → ((p : Prefix) → P p → f p ≡ true → Q p)
    → All P ps
    → All Q (keep f ps)
All-kept P Q f [] q h = tt
All-kept P Q f (p ∷ ps) q h = elim (Bool-cases (f p)) [
  | inl e ↦ rw e (q p h.0 e, All-kept P Q f ps q h.1)
  | inr e ↦ rw e (All-kept P Q f ps q h.1)
]

pub hits-keep_le :
    (f : Prefix → Bool) (ps : List Prefix) (x : Addr) → hits (keep f ps) x ≤ hits ps x
hits-keep_le f [] x = omega arith
hits-keep_le f (p ∷ ps) x = elim (Bool-cases (f p)) [
  | inl e ↦ rw e (ground (arith, hits-keep_le f ps x))
  | inr e ↦ rw e (ground (arith, hits-keep_le f ps x))
]

-- A test that holds of every prefix with the address drops none of them.
pub hits-keep_same :
    (f : Prefix → Bool) (ps : List Prefix) (x : Addr)
    → ((p : Prefix) → contains p x ≡ true → f p ≡ true)
    → hits (keep f ps) x ≡ hits ps x
hits-keep_same f [] x h = refl
hits-keep_same f (p ∷ ps) x h = elim (Bool-cases (f p)) [
  | inl e ↦ rw (e, hits-keep_same f ps x h) refl
  | inr e ↦
      let out : contains p x ≡ false = not_in (Bool-cases (contains p x)) e in
      rw (e, out) (hits-keep_same f ps x h)
]
  where
    not_in : (contains p x ≡ true) ⊎ (contains p x ≡ false) → f p ≡ false → contains p x ≡ false
    not_in (inl i) e = absurd (ground (arith, h p i, e))
    not_in (inr o) e = o
