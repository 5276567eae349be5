-- ===== src/Bgp/Wire/Bytes.antt =====
-- Bytes as the codec uses them: `encoding/binary` in big-endian order, slices, and the bytes of a
-- `netip.Addr`.
use wdbgp.Prelude.{
  List, ℕ, length, replicate, ◌≡◌, get_or, ◌<◌, take, [], ◌++◌, ◌∷◌, ◌*◌, ◌+◌, ◌%◌, ◌-◌, suc, arith,
  zero, ◌/◌, ◌^◌, drop, refl, sym, ◌∙◌, ◌≤◌, length-replicate, ap,
}
use native.Mathlib.Nat.{
  pow-suc, one-le-pow, zero-add, suc-add, mul_comm, mod-lt, mod-add-div', mod-eq_of_lt,
  add-mul-mod_self_left, div-div-eq-div-mul, div-lt_iff_lt-mul,
}
use wdbgp.Netip.{Family, v4, v6, Addr}

abbrev pub IsByte : ℕ → Type 0
IsByte b = b < 256

-- The low `n` bytes of a number, highest first: `PutUint16` for 2, `PutUint32` for 4.
abbrev pub put_be : ℕ → ℕ → List ℕ
put_be zero v = []
put_be (suc n) v = (v / 256 ^ n % 256) ∷ put_be n v

-- `Uint16`, `Uint32` and the like, of as many bytes as there are.
abbrev pub be_from : ℕ → List ℕ → ℕ
be_from acc [] = acc
be_from acc (b ∷ bs) = be_from (acc * 256 + b) bs

abbrev pub be : List ℕ → ℕ
be bs = be_from 0 bs

-- `s[from:to]`.
abbrev pub slice : List ℕ → ℕ → ℕ → List ℕ
slice bs from to = take (to - from) (drop from bs)

-- `s[i]`, behind a check of the length.
abbrev pub byte_at : List ℕ → ℕ → ℕ
byte_at bs i = get_or bs i 0

abbrev pub byte_count : Family → ℕ
byte_count v4 = 4
byte_count v6 = 16

abbrev pub zeros : ℕ → List ℕ
zeros n = replicate n 0

-- `Addr.AsSlice`, `As4` and `As16`.
abbrev pub as_slice : Addr → List ℕ
as_slice a = put_be (byte_count a.family) a.value

-- `var ip [n]byte; copy(ip[:], bs)` and then `AddrFrom4` or `AddrFrom16`.
abbrev pub addr_from : Family → List ℕ → Addr
addr_from f bs = record {
  family = f;
  value = be (take (byte_count f) (bs ++ zeros (byte_count f)));
}

pow256_pos : (n : ℕ) → 0 < 256 ^ n
pow256_pos n = one-le-pow n 256 (omega arith)

pow256-suc : (n : ℕ) → 256 ^ suc n ≡ 256 ^ n * 256
pow256-suc n = pow-suc 256 n

be_from_lem : (acc : ℕ) (bs : List ℕ) → be_from acc bs ≡ acc * 256 ^ length bs + be bs
be_from_lem acc [] = omega arith
be_from_lem acc (b ∷ bs) =
    rw (be_from_lem (acc * 256 + b) bs, be_from_lem (0 + b) bs)
      (omega (arith, ap (λ (t : ℕ). acc * t) (pow256-suc (length bs))))

be_from-append : (acc : ℕ) (xs ys : List ℕ) → be_from acc (xs ++ ys) ≡ be_from (be_from acc xs) ys
be_from-append acc [] ys = refl
be_from-append acc (x ∷ xs) ys = be_from-append (acc * 256 + x) xs ys

pub be-append : (xs ys : List ℕ) → be (xs ++ ys) ≡ be xs * 256 ^ length ys + be ys
be-append xs ys = be_from-append 0 xs ys ∙ be_from_lem (be xs) ys

pub length-put_be : (n v : ℕ) → length (put_be n v) ≡ n
length-put_be zero v = refl
length-put_be (suc n) v = omega (arith, length-put_be n v)

-- A remainder by a product, digit by digit.
mod-mul-256 : (v p : ℕ) → 0 < p → v % (p * 256) ≡ v / p % 256 * p + v % p
mod-mul-256 v p h =
    let q = v / p / 256 in
    let r = v / p % 256 * p + v % p in
    let small : r < p * 256 = grind (arith, mod-lt v h) in
    let whole : v ≡ r + p * 256 * q =
      omega (arith, mod-add-div' v p, ap (λ (t : ℕ). t * p) (mod-add-div' (v / p) 256)) in
    ap (λ (t : ℕ). t % (p * 256)) whole ∙ add-mul-mod_self_left r (p * 256) q ∙ mod-eq_of_lt small

pub be-put_be : (n v : ℕ) → be (put_be n v) ≡ v % 256 ^ n
be-put_be zero v = omega arith
be-put_be (suc n) v =
    rw
      (
        be_from_lem (0 + v / 256 ^ n % 256) (put_be n v),
        length-put_be n v,
        be-put_be n v,
        pow256-suc n,
      )
      (omega (arith, mod-mul-256 v (256 ^ n) (pow256_pos n)))

pow256-add : (n m : ℕ) → 256 ^ (n + m) ≡ 256 ^ n * 256 ^ m
pow256-add zero m = rw zero-add (omega arith)
pow256-add (suc n) m = rw (suc-add, pow256-suc (n + m), pow256-suc n, pow256-add n m) (omega arith)

-- The first bytes of a longer number.
pub take-put_be : (n m v : ℕ) → take n (put_be (n + m) v) ≡ put_be n (v / 256 ^ m)
take-put_be zero m v = refl
take-put_be (suc n) m v =
    let digit : v / 256 ^ (n + m) ≡ v / 256 ^ m / 256 ^ n =
      rw (pow256-add n m, mul_comm (256 ^ n) (256 ^ m))
        (sym (div-div-eq-div-mul v (256 ^ m) (256 ^ n))) in
    rw suc-add (rw (digit, take-put_be n m v) refl)

pub be-zeros : (n : ℕ) → be (zeros n) ≡ 0
be-zeros zero = refl
be-zeros (suc n) = be-zeros n

take-zeros : (n m : ℕ) → n ≤ m → take n (zeros m) ≡ zeros n
take-zeros zero m h = refl
take-zeros (suc n) zero h = absurd (omega arith)
take-zeros (suc n) (suc m) h = ap (λ (t : List ℕ). 0 ∷ t) (take-zeros n m (omega arith))

take-append-more :
    (n k : ℕ) (xs ys : List ℕ) → length xs ≡ n → take (n + k) (xs ++ ys) ≡ xs ++ take k ys
take-append-more zero k [] ys h = rw zero-add refl
take-append-more zero k (x ∷ xs) ys h = absurd (omega arith)
take-append-more (suc n) k [] ys h = absurd (omega arith)
take-append-more (suc n) k (x ∷ xs) ys h =
    rw suc-add (ap (λ (t : List ℕ). x ∷ t) (take-append-more n k xs ys (omega arith)))

-- The first `n` of `n + m` bytes of a number, filled up with zeros, give the number back if its
-- low `m` bytes are zero.
pub be-put_be_high :
    (n m v : ℕ)
    → v < 256 ^ (n + m)
    → v % 256 ^ m ≡ 0
    → be (take (n + m) (put_be n (v / 256 ^ m) ++ zeros (n + m))) ≡ v
be-put_be_high n m v lt z =
    rw
      (
        take-append-more n m (put_be n (v / 256 ^ m)) (zeros (n + m)) (length-put_be n _),
        take-zeros m (n + m) (omega arith),
        be-append (put_be n (v / 256 ^ m)) (zeros m),
        length-replicate {A = ℕ} m 0,
        be-put_be n (v / 256 ^ m),
        be-zeros m,
      )
      (omega (
        arith,
        mod-add-div' v (256 ^ m),
        ap (λ (t : ℕ). t * 256 ^ m) (mod-eq_of_lt {n = v / 256 ^ m} {m = 256 ^ n} high),
      ))
  where
    high : v / 256 ^ m < 256 ^ n
    high = (div-lt_iff_lt-mul (pow256_pos m)).1 (rw (← pow256-add n m) lt)
