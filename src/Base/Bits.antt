-- ===== src/Base/Bits.antt =====
-- The bit operations at variables: digit recursion, masks, disjoint fields, and the laws of
-- exclusive or.
use Prim.Native.Nat.{
  ℕ, zero, suc, ◌+◌, ◌-◌, ◌*◌, ◌/◌, ◌%◌, ◌^◌, ◌≤◌, ◌<◌, min, max, bit_and, bit_or, bit_xor, digits,
  bitwise, bit_and-bitwise, bit_or-bitwise, bit_xor-bitwise, differ,
}
use mathlib.Core.Path.{◌≡◌, refl, ap, ◌∙◌}
use native.Mathlib.Nat.{pow-suc, mod-lt, div-add-mod', add_comm}
use native.Mathlib.Omega.{arith}
use cryptix_miner_test.Base.Pow.{pow-pos}

-- One binary digit at a time; the fuel of `digits` does not matter once it covers the number.
module _ (z : ℕ → ℕ) (f : ℕ → ℕ → ℕ) where
  enough_fuel : (n m a b : ℕ) → a ≤ n → a ≤ m → digits z f n a b ≡ digits z f m a b
  enough_fuel zero zero a b p q = refl
  enough_fuel zero (suc m) zero b p q = refl
  enough_fuel zero (suc m) (suc a) b p q = absurd (omega arith)
  enough_fuel (suc n) zero zero b p q = refl
  enough_fuel (suc n) zero (suc a) b p q = absurd (omega arith)
  enough_fuel (suc n) (suc m) zero b p q = refl
  enough_fuel (suc n) (suc m) (suc a) b p q =
      ap (λ (t : ℕ). t * 2 + f (suc a % 2) (b % 2))
        (enough_fuel n m (suc a / 2) (b / 2) (omega arith) (omega arith))

  low_digit :
      (a b : ℕ)
      → bitwise z f (suc a) b ≡ bitwise z f (suc a / 2) (b / 2) * 2 + f (suc a % 2) (b % 2)
  low_digit a b =
      ap (λ (t : ℕ). t * 2 + f (suc a % 2) (b % 2))
        (enough_fuel a (suc a / 2) (suc a / 2) (b / 2) (omega arith) (omega arith))

pub bit_and_digit : (a b : ℕ) → bit_and a b ≡ bit_and (a / 2) (b / 2) * 2 + min (a % 2) (b % 2)
bit_and_digit zero b = omega (arith, bit_and-bitwise 0 b, bit_and-bitwise 0 (b / 2))
bit_and_digit (suc a) b = omega (
  arith,
  low_digit (λ y. 0) min a b,
  bit_and-bitwise (suc a) b,
  bit_and-bitwise (suc a / 2) (b / 2),
)

pub bit_or_digit : (a b : ℕ) → bit_or a b ≡ bit_or (a / 2) (b / 2) * 2 + max (a % 2) (b % 2)
bit_or_digit zero b = omega (arith, bit_or-bitwise 0 b, bit_or-bitwise 0 (b / 2))
bit_or_digit (suc a) b = omega (
  arith,
  low_digit (λ y. y) max a b,
  bit_or-bitwise (suc a) b,
  bit_or-bitwise (suc a / 2) (b / 2),
)

differ_parity : (x y : ℕ) → x < 2 → y < 2 → differ x y ≡ (x + y) % 2
differ_parity zero y p q = omega arith
differ_parity (suc zero) zero p q = refl
differ_parity (suc zero) (suc zero) p q = refl
differ_parity (suc zero) (suc (suc y)) p q = absurd (omega arith)
differ_parity (suc (suc x)) y p q = absurd (omega arith)

pub bit_xor_digit : (a b : ℕ) → bit_xor a b ≡ bit_xor (a / 2) (b / 2) * 2 + (a + b) % 2
bit_xor_digit zero b = omega (arith, bit_xor-bitwise 0 b, bit_xor-bitwise 0 (b / 2))
bit_xor_digit (suc a) b = omega (
  arith,
  low_digit (λ y. y) differ a b,
  differ_parity (suc a % 2) (b % 2) (omega arith) (omega arith),
  bit_xor-bitwise (suc a) b,
  bit_xor-bitwise (suc a / 2) (b / 2),
)

-- Induction over a bound on the numbers: the bound halves as they do.
pub bit_xor-lt : (k a b : ℕ) → a < 2 ^ k → b < 2 ^ k → bit_xor a b < 2 ^ k
bit_xor-lt zero a b p q = omega (arith, bit_xor_zeros a b (omega arith) (omega arith))
  where
    bit_xor_zeros : (a b : ℕ) → a ≡ 0 → b ≡ 0 → bit_xor a b ≡ 0
    bit_xor_zeros a b e e' = rw (e, e')
bit_xor-lt (suc k) a b p q = omega (
  arith,
  pow-suc 2 k,
  bit_xor_digit a b,
  bit_xor-lt k (a / 2) (b / 2) (omega (arith, pow-suc 2 k)) (omega (arith, pow-suc 2 k)),
)

below_pow : (a : ℕ) → a < 2 ^ a
below_pow zero = omega arith
below_pow (suc a) = omega (arith, pow-suc 2 a, below_pow a)

bit_xor_assoc_below :
    (k a b c : ℕ) → a + b + c < 2 ^ k → bit_xor (bit_xor a b) c ≡ bit_xor a (bit_xor b c)
bit_xor_assoc_below zero a b c h = all_zero a b c (omega arith) (omega arith) (omega arith)
  where
    all_zero :
        (a b c : ℕ) → a ≡ 0 → b ≡ 0 → c ≡ 0 → bit_xor (bit_xor a b) c ≡ bit_xor a (bit_xor b c)
    all_zero a b c ea eb ec = rw (ea, eb, ec)
bit_xor_assoc_below (suc k) a b c h =
    let rest = bit_xor_assoc_below k (a / 2) (b / 2) (c / 2) (omega (arith, pow-suc 2 k)) in
    let ab = bit_xor_digit a b in
    let bc = bit_xor_digit b c in
    let left : bit_xor a b / 2 ≡ bit_xor (a / 2) (b / 2) = omega arith in
    let right : bit_xor b c / 2 ≡ bit_xor (b / 2) (c / 2) = omega arith in
    rw (bit_xor_digit (bit_xor a b) c, bit_xor_digit a (bit_xor b c), left, right, rest)
      (omega arith)

pub bit_xor_assoc : (a b c : ℕ) → bit_xor (bit_xor a b) c ≡ bit_xor a (bit_xor b c)
bit_xor_assoc a b c = bit_xor_assoc_below (a + b + c) a b c (below_pow (a + b + c))

bit_xor_comm_below : (k a b : ℕ) → a + b < 2 ^ k → bit_xor a b ≡ bit_xor b a
bit_xor_comm_below zero a b h = all_zero a b (omega arith) (omega arith)
  where
    all_zero : (a b : ℕ) → a ≡ 0 → b ≡ 0 → bit_xor a b ≡ bit_xor b a
    all_zero a b ea eb = rw (ea, eb)
bit_xor_comm_below (suc k) a b h = omega (
  arith,
  bit_xor_digit a b,
  bit_xor_digit b a,
  bit_xor_comm_below k (a / 2) (b / 2) (omega (arith, pow-suc 2 k)),
)

pub bit_xor_comm : (a b : ℕ) → bit_xor a b ≡ bit_xor b a
bit_xor_comm a b = bit_xor_comm_below (a + b) a b (below_pow (a + b))

bit_xor_self_below : (k a : ℕ) → a < 2 ^ k → bit_xor a a ≡ 0
bit_xor_self_below zero a h = all_zero a (omega arith)
  where
    all_zero : (a : ℕ) → a ≡ 0 → bit_xor a a ≡ 0
    all_zero a e = rw e
bit_xor_self_below (suc k) a h =
    omega (arith, bit_xor_digit a a, bit_xor_self_below k (a / 2) (omega (arith, pow-suc 2 k)))

pub bit_xor_self : (a : ℕ) → bit_xor a a ≡ 0
bit_xor_self a = bit_xor_self_below a a (below_pow a)

pub zero-bit_xor : (a : ℕ) → bit_xor 0 a ≡ a
zero-bit_xor a = bit_xor-bitwise 0 a

pub bit_xor-zero : (a : ℕ) → bit_xor a 0 ≡ a
bit_xor-zero a = bit_xor_comm a 0 ∙ zero-bit_xor a

-- A word that is mixed in twice is gone.
pub bit_xor_cancel : (a b : ℕ) → bit_xor (bit_xor a b) b ≡ a
bit_xor_cancel a b = rw (bit_xor_assoc a b b, bit_xor_self b) (bit_xor-zero a)

double_pow : (q k : ℕ) → q * 2 ^ suc k ≡ 2 * (q * 2 ^ k)
double_pow q k = omega (arith, ap (λ (t : ℕ). q * t) (pow-suc 2 k))

bit_and_none : (j a : ℕ) → a < 2 ^ j → bit_and a 0 ≡ 0
bit_and_none zero a h = all_zero a (omega arith)
  where
    all_zero : (a : ℕ) → a ≡ 0 → bit_and a 0 ≡ 0
    all_zero a e = rw e
bit_and_none (suc j) a h =
    omega (arith, bit_and_digit a 0, bit_and_none j (a / 2) (omega (arith, pow-suc 2 j)))

bit_and_fields : (k q r : ℕ) → r < 2 ^ k → bit_and (q * 2 ^ k + r) (2 ^ k - 1) ≡ r
bit_and_fields zero q r h =
    omega (arith, bit_and_none (q * 2 ^ 0 + r) (q * 2 ^ 0 + r) (below_pow (q * 2 ^ 0 + r)))
bit_and_fields (suc k) q r h =
    let half : (q * 2 ^ suc k + r) / 2 ≡ q * 2 ^ k + r / 2 = omega (arith, double_pow q k) in
    let mask : (2 ^ suc k - 1) / 2 ≡ 2 ^ k - 1 = omega (arith, pow-suc 2 k, pow-pos k) in
    let rest = bit_and_fields k q (r / 2) (omega (arith, pow-suc 2 k)) in
    rw (bit_and_digit (q * 2 ^ suc k + r) (2 ^ suc k - 1), half, mask, rest)
      (omega (arith, double_pow q k, pow-suc 2 k, pow-pos k))

-- Masking with k ones is the remainder by 2 ^ k.
pub bit_and_low : (k a : ℕ) → bit_and a (2 ^ k - 1) ≡ a % 2 ^ k
bit_and_low k a = rw whole at (bit_and_fields k (a / 2 ^ k) (a % 2 ^ k) (mod-lt a (pow-pos k)))
  where
    whole : a / 2 ^ k * 2 ^ k + a % 2 ^ k ≡ a
    whole = div-add-mod' a (2 ^ k)

-- Fields that do not overlap are joined by a sum.
pub bit_or_disjoint : (k q r : ℕ) → r < 2 ^ k → bit_or r (q * 2 ^ k) ≡ r + q * 2 ^ k
bit_or_disjoint zero q r h = low_zero r (omega arith)
  where
    low_zero : (r : ℕ) → r ≡ 0 → bit_or r (q * 2 ^ 0) ≡ r + q * 2 ^ 0
    low_zero r e = rw e (omega (arith, bit_or-bitwise 0 (q * 2 ^ 0)))
bit_or_disjoint (suc k) q r h =
    let half : q * 2 ^ suc k / 2 ≡ q * 2 ^ k = omega (arith, double_pow q k) in
    rw
      (
        bit_or_digit r (q * 2 ^ suc k),
        half,
        bit_or_disjoint k q (r / 2) (omega (arith, pow-suc 2 k)),
      )
      (omega (arith, double_pow q k))

bit_or_comm_below : (k a b : ℕ) → a + b < 2 ^ k → bit_or a b ≡ bit_or b a
bit_or_comm_below zero a b h = all_zero a b (omega arith) (omega arith)
  where
    all_zero : (a b : ℕ) → a ≡ 0 → b ≡ 0 → bit_or a b ≡ bit_or b a
    all_zero a b ea eb = rw (ea, eb)
bit_or_comm_below (suc k) a b h = omega (
  arith,
  bit_or_digit a b,
  bit_or_digit b a,
  bit_or_comm_below k (a / 2) (b / 2) (omega (arith, pow-suc 2 k)),
)

pub bit_or_comm : (a b : ℕ) → bit_or a b ≡ bit_or b a
bit_or_comm a b = bit_or_comm_below (a + b) a b (below_pow (a + b))

-- The same with the high field first.
pub bit_or_fields : (k q r : ℕ) → r < 2 ^ k → bit_or (q * 2 ^ k) r ≡ q * 2 ^ k + r
bit_or_fields k q r h =
    bit_or_comm (q * 2 ^ k) r ∙ (bit_or_disjoint k q r h ∙ add_comm r (q * 2 ^ k))
