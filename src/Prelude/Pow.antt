-- ===== src/Prelude/Pow.antt =====
-- Powers of two as block sizes: which multiples of 2 ^ k a number lies between.
use wdbgp.Prelude.{refl}
use Prim.Native.Nat.{ℕ, zero, suc, ◌+◌, ◌-◌, ◌*◌, ◌/◌, ◌%◌, ◌^◌, ◌≤◌, ◌<◌}
use mathlib.Core.Path.{◌≡◌, sym, ap, ◌∙◌}
use native.Mathlib.Nat.{
  pow-suc, one-le-pow, div-div-eq-div-mul, add-div_right, mod-add-div', mul-div_left, zero-add,
  suc-add, mul-mod_left, add-mod_right, pow-le-pow_right, div-eq_of_lt, mul-add-div_right,
}
use native.Mathlib.Omega.{arith}

pub pow2_pos : (k : ℕ) → 0 < 2 ^ k
pow2_pos k = one-le-pow k 2 (omega arith)

pub pow2-suc : (k : ℕ) → 2 ^ suc k ≡ 2 * 2 ^ k
pow2-suc k = omega (arith, pow-suc 2 k)

-- A larger block number is the half of the next smaller one.
pub div-pow2-suc : (x k : ℕ) → x / 2 ^ suc k ≡ x / 2 ^ k / 2
div-pow2-suc x k = rw (pow-suc 2 k) (sym (div-div-eq-div-mul x (2 ^ k) 2))

pub div-add-pow2 : (x k : ℕ) → (x + 2 ^ k) / 2 ^ k ≡ x / 2 ^ k + 1
div-add-pow2 x k = add-div_right x (pow2_pos k)

div-pow2_lift : (x y k n : ℕ) → x / 2 ^ k ≡ y / 2 ^ k → x / 2 ^ (n + k) ≡ y / 2 ^ (n + k)
div-pow2_lift x y k zero h = rw zero-add h
div-pow2_lift x y k (suc n) h =
    rw (suc-add, div-pow2-suc x (n + k), div-pow2-suc y (n + k), div-pow2_lift x y k n h)

-- Two numbers of one block are in one block of every larger size.
pub div-pow2_mono : (x y k m : ℕ) → k ≤ m → x / 2 ^ k ≡ y / 2 ^ k → x / 2 ^ m ≡ y / 2 ^ m
div-pow2_mono x y k m h e =
    let split : m - k + k ≡ m = omega arith in rw split at (div-pow2_lift x y k (m - k) e)

-- Rounding down to a block's start keeps the block, and is a multiple of its size.
pub round_down_div : (x m : ℕ) → 0 < m → (x - x % m) / m ≡ x / m
round_down_div x m h = grind (arith, mod-add-div' x m, mul-div_left (x / m) h)

pub round_down_mod : (x m : ℕ) → 0 < m → (x - x % m) % m ≡ 0
round_down_mod x m h = grind (arith, mod-add-div' x m, mul-mod_left)

-- A multiple of 2 ^ (j + 1) has an even number of blocks of size 2 ^ j below it.
pub aligned-half : (a j : ℕ) → a % 2 ^ suc j ≡ 0 → a / 2 ^ j ≡ a / 2 ^ suc j * 2
aligned-half a j h =
    let whole : a ≡ a / 2 ^ suc j * 2 * 2 ^ j =
      omega (arith, mod-add-div' a (2 ^ suc j), ap (λ (t : ℕ). a / 2 ^ suc j * t) (pow2-suc j)) in
    ap (λ (t : ℕ). t / 2 ^ j) whole ∙ mul-div_left (a / 2 ^ suc j * 2) (pow2_pos j)

pub pow2-add : (n k : ℕ) → 2 ^ (n + k) ≡ 2 ^ n * 2 ^ k
pow2-add zero k = rw zero-add (omega arith)
pow2-add (suc n) k = rw (suc-add, pow2-suc (n + k), pow2-suc n, pow2-add n k) (omega arith)

-- A block that starts below 2 ^ w ends there.
pub aligned_room : (a k w : ℕ) → k ≤ w → a % 2 ^ k ≡ 0 → a < 2 ^ w → a + 2 ^ k ≤ 2 ^ w
aligned_room a k w le h lt =
    let split : 2 ^ w ≡ 2 ^ (w - k) * 2 ^ k =
      let e : w ≡ w - k + k = omega arith in ap (λ (t : ℕ). 2 ^ t) e ∙ pow2-add (w - k) k in
    grind (arith, split, mod-add-div' a (2 ^ k))

pub aligned_low : (a j : ℕ) → a % 2 ^ suc j ≡ 0 → a % 2 ^ j ≡ 0
aligned_low a j h =
    let halved : a ≡ a / 2 ^ j * 2 ^ j = omega (
      arith,
      mod-add-div' a (2 ^ suc j),
      ap (λ (t : ℕ). a / 2 ^ suc j * t) (pow2-suc j),
      ap (λ (t : ℕ). t * 2 ^ j) (aligned-half a j h),
    ) in
    ap (λ (t : ℕ). t % 2 ^ j) halved ∙ mul-mod_left (a / 2 ^ j) (2 ^ j)

pub aligned_high : (a j : ℕ) → a % 2 ^ suc j ≡ 0 → (a + 2 ^ j) % 2 ^ j ≡ 0
aligned_high a j h = add-mod_right a (2 ^ j) ∙ aligned_low a j h

pub pow2_mono_lt : (k m : ℕ) → k < m → 2 ^ k < 2 ^ m
pow2_mono_lt k zero h = absurd (omega arith)
pow2_mono_lt k (suc m) h =
    let below : 2 ^ k ≤ 2 ^ m = pow-le-pow_right {n = 2} (omega arith) (omega arith) in
    omega (arith, below, pow2-suc m, pow2_pos m)

-- The first address behind a shorter block at the same place is still in the longer one.
pub div-add_shorter : (a k m : ℕ) → k < m → a % 2 ^ m ≡ 0 → (a + 2 ^ k) / 2 ^ m ≡ a / 2 ^ m
div-add_shorter a k m h z =
    let whole : a ≡ a / 2 ^ m * 2 ^ m = omega (arith, mod-add-div' a (2 ^ m)) in
    let small : 2 ^ k / 2 ^ m ≡ 0 = div-eq_of_lt (pow2_mono_lt k m h) in
    ap (λ (t : ℕ). (t + 2 ^ k) / 2 ^ m) whole
    ∙ mul-add-div_right {m = 2 ^ m} (pow2_pos m) (a / 2 ^ m) (2 ^ k)
    ∙ omega (arith, small)

aligned_steps : (a j n : ℕ) → a % 2 ^ (n + j) ≡ 0 → a % 2 ^ j ≡ 0
aligned_steps a j zero h = rw zero-add at h
aligned_steps a j (suc n) h = aligned_steps a j n (aligned_low a (n + j) (rw suc-add at h))

-- A multiple of a power of two is a multiple of each smaller one.
pub aligned_mono : (a j k : ℕ) → j ≤ k → a % 2 ^ k ≡ 0 → a % 2 ^ j ≡ 0
aligned_mono a j k le h =
    let split : k ≡ k - j + j = omega arith in aligned_steps a j (k - j) (rw split at h)

pub pow256-pow2 : (m : ℕ) → 256 ^ m ≡ 2 ^ (m * 8)
pow256-pow2 zero = refl
pow256-pow2 (suc m) =
    let eight : suc m * 8 ≡ m * 8 + 8 = omega arith in
    rw (pow-suc 256 m, pow256-pow2 m, eight, pow2-add (m * 8) 8) refl
