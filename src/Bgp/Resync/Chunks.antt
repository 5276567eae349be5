-- ===== src/Bgp/Resync/Chunks.antt =====
-- `chunkPrefixes` cuts a list into pieces that an UPDATE can carry.
use wdbgp.Prelude.{
  List, ℕ, take, ◌≤◌, length, ◌≡◌, ◌++◌, arith, All, [], drop, suc, length-drop, zero, ap, ◌∙◌,
  refl,
}
use wdbgp.Netip.{Prefix}
use wdbgp.Bgp.Resync.{chunk_loop, chunk_prefixes, max_prefixes_per_update, ◌∷◌}

abbrev pub joined : List (List Prefix) → List Prefix
joined [] = []
joined (c ∷ cs) = c ++ joined cs

take-drop : (n : ℕ) (ps : List Prefix) → take n ps ++ drop n ps ≡ ps
take-drop zero ps = refl
take-drop (suc n) [] = refl
take-drop (suc n) (p ∷ ps) = ap (λ (xs : List Prefix). p ∷ xs) (take-drop n ps)

-- A message's worth of prefixes.
abbrev pub IsChunk : List Prefix → Type 0
IsChunk c = (1 ≤ length c) × (length c ≤ max_prefixes_per_update)

length-take-bound : (n : ℕ) (ps : List Prefix) → length (take n ps) ≤ n
length-take-bound zero ps = omega arith
length-take-bound (suc n) [] = omega arith
length-take-bound (suc n) (p ∷ ps) = omega (arith, length-take-bound n ps)

abbrev pub Cuts : List Prefix → List (List Prefix) → Type 0
Cuts ps cs = (joined cs ≡ ps) × All IsChunk cs

chunk_loop_lem :
    (rounds : ℕ) (ps : List Prefix) → length ps ≤ rounds → Cuts ps (chunk_loop rounds ps)
unfolding chunk_loop
chunk_loop_lem rounds [] h = (refl, tt)
chunk_loop_lem zero (p ∷ ps) h = absurd (omega arith)
chunk_loop_lem (suc rounds) (p ∷ ps) h =
    let rest = drop max_prefixes_per_update (p ∷ ps) in
    let shorter : length rest ≤ rounds =
      omega (arith, length-drop max_prefixes_per_update (p ∷ ps)) in
    let (same, sizes) = chunk_loop_lem rounds rest shorter in
    (
      ap (λ (xs : List Prefix). take max_prefixes_per_update (p ∷ ps) ++ xs) same
          ∙ take-drop max_prefixes_per_update (p ∷ ps),
      ((omega arith, length-take-bound max_prefixes_per_update (p ∷ ps)), sizes),
    )

-- The chunks of a list, put together, are the list, and each has from one to a hundred prefixes.
pub chunk_prefixes-Cuts : (ps : List Prefix) → Cuts ps (chunk_prefixes ps)
unfolding chunk_prefixes
chunk_prefixes-Cuts ps = chunk_loop_lem (length ps) ps (omega arith)
