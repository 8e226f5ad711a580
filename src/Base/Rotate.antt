-- ===== src/Base/Rotate.antt =====
-- Rotations of a word of w bits, and the operations that stay within a word.
use Prim.Native.Nat.{ℕ, zero, suc, ◌+◌, ◌-◌, ◌*◌, ◌/◌, ◌%◌, ◌^◌, ◌≤◌, ◌<◌, bit_or}
use mathlib.Core.Path.{◌≡◌, ap}
use native.Mathlib.Omega.{arith}
use native.Mathlib.Nat.{pow-suc, mod-lt, div-add-mod, mul-le-mul_right, lt_of_mul-lt-mul_right}
use cryptix_miner_test.Base.Bits.{bit_or_digit}
use cryptix_miner_test.Base.Pow.{pow-pos, pow-sub}

-- `rotate_left` and `rotate_right` at w bits, which take the distance modulo w.
abbrev pub rotate_left : ℕ → ℕ → ℕ → ℕ
rotate_left w x n = x * 2 ^ (n % w) % 2 ^ w + x / 2 ^ (w - n % w)

abbrev pub rotate_right : ℕ → ℕ → ℕ → ℕ
rotate_right w x n = rotate_left w x ((w - n % w) % w)

bit_or_zeros : (a b : ℕ) → a ≡ 0 → b ≡ 0 → bit_or a b ≡ 0
bit_or_zeros a b e e' = rw (e, e')

pub bit_or-lt : (k a b : ℕ) → a < 2 ^ k → b < 2 ^ k → bit_or a b < 2 ^ k
bit_or-lt zero a b p q = omega (arith, bit_or_zeros a b (omega arith) (omega arith))
bit_or-lt (suc k) a b p q = omega (
  arith,
  pow-suc 2 k,
  bit_or_digit a b,
  bit_or-lt k (a / 2) (b / 2) (omega (arith, pow-suc 2 k)) (omega (arith, pow-suc 2 k)),
)

rotated-lt : (p q x : ℕ) → p * q ≡ 2 ^ 8 → 0 < q → 0 < p → x < 2 ^ 8 → x * p % 2 ^ 8 + x / q < 2 ^ 8
rotated-lt p q x e q_pos p_pos lt =
    let whole : x * p ≡ x % q * p + 2 ^ 8 * (x / q) =
      omega (arith, ap (λ (t : ℕ). t * p) (div-add-mod x q), ap (λ (t : ℕ). t * (x / q)) e) in
    let room : x % q * p + p ≤ 2 ^ 8 = omega (arith, e, mul-le-mul_right p (mod-lt x q_pos)) in
    let few : x / q < p = lt_of_mul-lt-mul_right q (omega (arith, e, div-add-mod x q)) in
    omega arith

-- A rotation of a byte is a byte.
pub rotate_left-lt : (x n : ℕ) → x < 2 ^ 8 → rotate_left 8 x n < 2 ^ 8
rotate_left-lt x n lt =
    rotated-lt (2 ^ (n % 8)) (2 ^ (8 - n % 8)) x (pow-sub (n % 8) 8 (omega arith))
      (pow-pos (8 - n % 8)) (pow-pos (n % 8)) lt

pub rotate_right-lt : (x n : ℕ) → x < 2 ^ 8 → rotate_right 8 x n < 2 ^ 8
rotate_right-lt x n lt = rotate_left-lt x ((8 - n % 8) % 8) lt
