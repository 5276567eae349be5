-- ===== src/PrefixFilter/Aggregate/Blocks.antt =====
-- The blocks of a range have its addresses, each in one of them.
use wdbgp.Prelude.{
  ℕ, ◌≤◌, ◌^◌, ◌+◌, arith, suc, Bool-cases, leb, ◌/◌, inl, ◌%◌, ◌==◌, inr, zero, ◌-◌, ◌<◌, ◌≡◌, ◌*◌,
  ltb, ap, ◌&&◌, ◌∙◌, true, ◌↔◌, Bool-ext, Bool, if◌then◌else◌, false, refl,
}
use wdbgp.Netip.{Family, width, Addr, bit_len, contains}
use wdbgp.Netip.Cover.{hits, once}
use wdbgp.Prelude.Pow.{pow2_pos, div-pow2-suc, pow2-suc, aligned_mono}
use native.Mathlib.Nat.{
  mod-add-div', mul-mod_left, zero-mod, pow-le-pow_right, le-div_iff_mul-le, div-lt_iff_lt-mul,
}
use wdbgp.PrefixFilter.Aggregate.{
  AddrRange, zero_bits_from, log_below, align_bits, fit_bits, block_host_bits, range_loop,
  range_to_prefixes,
}

zero_bits_from-le : (rounds i v : ℕ) → zero_bits_from rounds i v ≤ i + rounds
unfolding zero_bits_from
zero_bits_from-le zero i v = omega arith
zero_bits_from-le (suc rounds) i v = elim (Bool-cases (v / 2 ^ i % 2 == 1)) [
  | inl e ↦ rw e (omega arith)
  | inr e ↦ rw e (omega (arith, zero_bits_from-le rounds (i + 1) v))
]

log_below-le : (k n : ℕ) → log_below k n ≤ k
unfolding log_below
log_below-le zero n = omega arith
log_below-le (suc k) n = elim (Bool-cases (leb (2 ^ suc k) n)) [
  | inl e ↦ rw e (omega arith)
  | inr e ↦ rw e (omega (arith, log_below-le k n))
]

log_below-fits : (k n : ℕ) → 1 ≤ n → 2 ^ log_below k n ≤ n
unfolding log_below
log_below-fits zero n h = h
log_below-fits (suc k) n h = elim (Bool-cases (leb (2 ^ suc k) n)) [
  | inl e ↦ rw e (ground (arith, e))
  | inr e ↦ rw e (log_below-fits k n h)
]

aligned_next : (a j : ℕ) → a % 2 ^ j ≡ 0 → a / 2 ^ j % 2 ≡ 0 → a % 2 ^ suc j ≡ 0
aligned_next a j h even =
    let half : a / 2 ^ suc j ≡ a / 2 ^ j / 2 = div-pow2-suc a j in
    let doubled : a / 2 ^ j ≡ a / 2 ^ suc j * 2 = omega (arith, half, even) in
    let whole : a ≡ a / 2 ^ suc j * 2 ^ suc j = omega (
      arith,
      mod-add-div' a (2 ^ j),
      ap (λ (t : ℕ). t * 2 ^ j) doubled,
      ap (λ (t : ℕ). a / 2 ^ suc j * t) (pow2-suc j),
      h,
    ) in
    ap (λ (t : ℕ). t % 2 ^ suc j) whole ∙ mul-mod_left (a / 2 ^ suc j) (2 ^ suc j)

zero_bits_from-aligned : (rounds i v : ℕ) → v % 2 ^ i ≡ 0 → v % 2 ^ zero_bits_from rounds i v ≡ 0
unfolding zero_bits_from
zero_bits_from-aligned zero i v h = h
zero_bits_from-aligned (suc rounds) i v h = elim (Bool-cases (v / 2 ^ i % 2 == 1)) [
  | inl e ↦ rw e h
  | inr e ↦
      let step : i + 1 ≡ suc i = omega arith in
      rw (e, step)
        (zero_bits_from-aligned rounds (suc i) v (aligned_next v i h (ground (arith, e))))
]

align_bits-le : (bits cur : ℕ) → align_bits bits cur ≤ bits
align_bits-le bits cur = elim (Bool-cases (cur == 0)) [
  | inl e ↦ rw e (omega arith)
  | inr e ↦ rw e (omega (arith, zero_bits_from-le bits 0 cur))
]

align_bits-aligned : (bits cur : ℕ) → cur % 2 ^ align_bits bits cur ≡ 0
align_bits-aligned bits cur = elim (Bool-cases (cur == 0)) [
  | inl e ↦
      let zero_cur : cur ≡ 0 = ground (arith, e) in
      ap (λ (t : ℕ). t % 2 ^ align_bits bits cur) zero_cur ∙ zero-mod (2 ^ align_bits bits cur)
  | inr e ↦ rw e (zero_bits_from-aligned bits 0 cur (omega arith))
]

-- A block at the start of what is left of a range.
pub record IsFitting (bits cur end host : ℕ) : Type 0 where
  pub le : host ≤ bits
  pub aligned : cur % 2 ^ host ≡ 0
  pub fits : cur + 2 ^ host ≤ end + 1

block_host_bits-IsFitting :
    (bits cur end : ℕ) → cur ≤ end → IsFitting bits cur end (block_host_bits bits cur end)
block_host_bits-IsFitting bits cur end h =
    let fit = fit_bits bits cur end in
    let align = align_bits bits cur in
    let room : 2 ^ fit ≤ end - cur + 1 = log_below-fits bits (end - cur + 1) (omega arith) in
    elim (Bool-cases (ltb fit align)) [
      | inl e ↦ rw e (record {
        le = log_below-le bits (end - cur + 1);
        aligned = aligned_mono cur fit align (ground (arith, e)) (align_bits-aligned bits cur);
        fits = omega (arith, room);
      })
      | inr e ↦
          let smaller : 2 ^ align ≤ 2 ^ fit =
            pow-le-pow_right {n = 2} (omega arith) (ground (arith, e)) in
          rw e (record {
            le = align_bits-le bits cur;
            aligned = align_bits-aligned bits cur;
            fits = omega (arith, room, smaller);
          })
    ]

-- The numbers of one aligned block.
pub same_block :
    (cur x m : ℕ) → 0 < m → cur % m ≡ 0 → (x / m == cur / m) ≡ (leb cur x && ltb x (cur + m))
same_block cur x m pos h =
    let whole : cur / m * m ≡ cur = omega (arith, mod-add-div' cur m, h) in
    let low : (cur / m ≤ x / m) ↔ (cur / m * m ≤ x) = le-div_iff_mul-le pos in
    let high : (x / m < cur / m + 1) ↔ (x < (cur / m + 1) * m) = div-lt_iff_lt-mul pos in
    let next : (cur / m + 1) * m ≡ cur + m = omega (arith, whole) in
    Bool-ext (x / m == cur / m) (leb cur x && ltb x (cur + m))
      (λ e.
        let a : cur / m * m ≤ x = low.0 (ground (arith, e)) in
        let b : x < (cur / m + 1) * m = high.0 (ground (arith, e)) in
        ground (arith, a, b, whole, next))
      (λ e.
        let a : cur / m ≤ x / m = low.1 (ground (arith, e, whole)) in
        let b : x / m < cur / m + 1 = high.1 (ground (arith, e, next)) in ground (arith, a, b))

block-contains :
    (family : Family) (cur host : ℕ) (x : Addr)
    → host ≤ width family
    → cur % 2 ^ host ≡ 0
    → contains
        (record { addr = record { family = family; value = cur }; bits = width family - host })
        x
      ≡ (width family == bit_len x && (leb cur x.value && ltb x.value (cur + 2 ^ host)))
unfolding contains
block-contains family cur host x le aligned =
    let back : width family - (width family - host) ≡ host = omega arith in
    let short : leb (width family - host) (width family) ≡ true = ground arith in
    rw (back, short) (ground (arith, same_block cur x.value (2 ^ host) (pow2_pos host) aligned))

-- The addresses of a range.
abbrev pub in_range : Family → ℕ → ℕ → Addr → Bool
in_range family start end x = width family == bit_len x && (leb start x.value && leb x.value end)

-- A range is its first block and what follows it.
split_range :
    (same : Bool) (v cur size end : ℕ)
    → cur + size ≤ end + 1
    → 0 < size
    → (if same && (leb cur v && ltb v (cur + size))
        then (suc (once (same && (leb (cur + size) v && leb v end))))
        else once (same && (leb (cur + size) v && leb v end)))
      ≡ once (same && (leb cur v && leb v end))
split_range false v cur size end h pos = refl
split_range true v cur size end h pos = ground arith

range_loop-hits :
    (rounds : ℕ) (family : Family) (cur end : ℕ) (x : Addr)
    → end + 1 - cur ≤ rounds
    → hits (range_loop rounds family cur end) x ≡ once (in_range family cur end x)
unfolding range_loop
range_loop-hits zero family cur end x h = ground (arith, h)
range_loop-hits (suc rounds) family cur end x h = elim (Bool-cases (leb cur end)) [
  | inl more ↦
      let host = block_host_bits (width family) cur end in
      let b : IsFitting (width family) cur end host =
        block_host_bits-IsFitting (width family) cur end (ground (arith, more)) in
      let inside = block-contains family cur host x b.le b.aligned in
      let rest : hits (range_loop rounds family (cur + 2 ^ host) end) x
          ≡ once (in_range family (cur + 2 ^ host) end x) =
        range_loop-hits rounds family (cur + 2 ^ host) end x
          (omega (arith, h, pow2_pos host, b.fits)) in
      rw (more, inside, rest)
        (split_range (width family == bit_len x) x.value cur (2 ^ host) end b.fits (pow2_pos host))
  | inr done ↦ rw done (ground (arith, done))
]

-- The blocks of a range have exactly its addresses, each in one of them, and the rounds are enough.
pub range_to_prefixes-hits :
    (family : Family) (r : AddrRange) (x : Addr)
    → hits (range_to_prefixes family r) x ≡ once (in_range family r.start r.end x)
range_to_prefixes-hits family r x =
    range_loop-hits (r.end + 1 - r.start) family r.start r.end x (omega arith)
