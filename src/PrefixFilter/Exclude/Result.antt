-- ===== src/PrefixFilter/Exclude/Result.antt =====
-- `NewExcludeSet` and `Subtract` together.
use wdbgp.Prelude.{
  Bool, ◌≡◌, not, ℕ, List, All, ◌⊎◌, true, keep, ◌&&◌, arith, inl, ◌∷◌, ◌∙◌, ap, [], false, inr,
  ltb, refl, Bool-cases, sym,
}
use wdbgp.Netip.{Addr, Prefix, bit_len, width, Family, v4, v6, contains, masked, IsPrefix}
use wdbgp.Netip.Laws.{contains-masked, masked-IsMasked, masked-IsPrefix}
use wdbgp.Netip.Cover.{hits, once, covered, covered-hits, IsBlock}
use wdbgp.PrefixFilter.Normalize.{normalize}
use wdbgp.PrefixFilter.Normalize.Laws.{
  InRange, normalize-covered, normalize-hits, normalize-IsBlock,
}
use wdbgp.PrefixFilter.Exclude.{
  is_4, new_exclude_set, sort_by_addr, exclude_loop, excludes_for, exclude, ExcludeSet,
}
use wdbgp.PrefixFilter.Exclude.Order.{IsOf, IsReady, sort_by_addr-IsReady, hits-sort_by_addr}
use wdbgp.PrefixFilter.Exclude.Punch.{exclude_loop-unchanged}
use wdbgp.PrefixFilter.Exclude.Sets.{
  punch, candidates, same_family, All-keep, All-kept, hits-keep_le, hits-keep_same,
}

-- The part of the excludes of one family.
abbrev part : (Prefix → Bool) → List Prefix → List Prefix
part f prefixes = sort_by_addr (keep f (normalize prefixes))

part-IsReady :
    (bits : ℕ) (f : Prefix → Bool) (prefixes : List Prefix)
    → All InRange prefixes
    → ((p : Prefix) → f p ≡ true → IsOf bits p)
    → IsReady bits (part f prefixes)
part-IsReady bits f prefixes h family =
    let blocks : All IsBlock (normalize prefixes) = normalize-IsBlock prefixes h in
    sort_by_addr-IsReady bits (keep f (normalize prefixes))
      (All-keep IsBlock f (normalize prefixes) blocks)
      (All-kept IsBlock (IsOf bits) f (normalize prefixes) (λ p b e. family p e) blocks)
      (λ x. omega (arith, hits-keep_le f (normalize prefixes) x, normalize-hits prefixes x h))

part-covered :
    (f : Prefix → Bool) (prefixes : List Prefix) (x : Addr)
    → All InRange prefixes
    → ((p : Prefix) → contains p x ≡ true → f p ≡ true)
    → covered (part f prefixes) x ≡ covered prefixes x
part-covered f prefixes x h all =
    covered-hits (part f prefixes) x
    ∙ ap (ltb 0) (
        hits-sort_by_addr (keep f (normalize prefixes)) x
        ∙ hits-keep_same f (normalize prefixes) x all)
    ∙ sym (covered-hits (normalize prefixes) x)
    ∙ normalize-covered prefixes x h

-- Only the excludes of its own family matter for a prefix.
own_part :
    (bits : ℕ) (f : Prefix → Bool) (prefixes : List Prefix) (p : Prefix) (x : Addr)
    → All InRange prefixes
    → IsBlock p
    → IsOf bits p
    → ((q : Prefix) → f q ≡ true → IsOf bits q)
    → ((q : Prefix) → IsOf bits q → f q ≡ true)
    → hits (exclude_loop p.addr (p ∷ []) false (candidates p (part f prefixes))).0 x
      ≡ once (contains p x && not (covered prefixes x))
own_part bits f prefixes p x h b fp to from =
    punch bits p (part f prefixes) x b fp (part-IsReady bits f prefixes h to)
    ∙ elim (Bool-cases (contains p x)) [
      | inr out ↦ ground (arith, out)
      | inl inside ↦
          let all : (q : Prefix) → contains q x ≡ true → f q ≡ true =
            λ q c. from q (same_family q x c ∙ sym (same_family p x inside) ∙ fp) in
          ap (λ (c : Bool). once (contains p x && not c)) (part-covered f prefixes x h all)
    ]

four_or_six : (a : Addr) → (bit_len a ≡ 32) ⊎ (bit_len a ≡ 128)
four_or_six a = go a.family
  where
    go : (f : Family) → (width f ≡ 32) ⊎ (width f ≡ 128)
    go v4 = inl refl
    go v6 = inr refl

six : (p : Prefix) → not (is_4 p) ≡ true → IsOf 128 p
six p h = elim (four_or_six p.addr) [ inl e ↦ absurd (ground (arith, h, e)) | inr e ↦ e ]

-- If each address of the excludes is one of its family, the fragments of a prefix have exactly its
-- addresses that no exclude covers, each in one of them.
pub exclude-hits :
    (prefixes : List Prefix) (prefix : Prefix) (x : Addr)
    → All InRange prefixes
    → IsPrefix prefix
    → hits (exclude (new_exclude_set prefixes) prefix).0 x
      ≡ once (contains prefix x && not (covered prefixes x))
unfolding exclude
exclude-hits prefixes prefix x h valid =
    let p : Prefix = masked prefix in
    let b : IsBlock p = record {
      valid = masked-IsPrefix prefix valid;
      masked = masked-IsMasked prefix;
    } in
    cutting p b ∙ ap (λ (c : Bool). once (c && not (covered prefixes x))) (contains-masked prefix x)
  where
    cutting :
        (p : Prefix)
        → IsBlock p
        → hits
            (exclude_loop p.addr
              (p ∷ [])
              false
              (candidates p (excludes_for p (new_exclude_set prefixes)))).0
            x
          ≡ once (contains p x && not (covered prefixes x))
    cutting p b = elim (Bool-cases (is_4 p)) [
      | inl e ↦ rw e (
          own_part 32 is_4 prefixes p x h b (ground (arith, e)) (λ q t. ground (arith, t))
            (λ q t. ground (arith, t)))
      | inr e ↦ rw e (
          own_part 128 (λ q. not (is_4 q)) prefixes p x h b (six p (ground (arith, e))) six
            (λ q t. ground (arith, t)))
    ]

-- Where `Subtract` says that nothing was removed, the only fragment is the prefix with its host bits
-- cleared.
pub exclude-unchanged :
    (set : ExcludeSet) (prefix : Prefix)
    → (exclude set prefix).1 ≡ false
    → (exclude set prefix).0 ≡ masked prefix ∷ []
unfolding exclude
exclude-unchanged set prefix h =
    let p : Prefix = masked prefix in
    exclude_loop-unchanged p.addr (p ∷ []) (candidates p (excludes_for p set)) h
