-- ===== src/Base/Pow.antt =====
-- Powers of two at variables.
use Prim.Native.Nat.{ℕ, zero, suc, ◌+◌, ◌-◌, ◌*◌, ◌/◌, ◌%◌, ◌^◌, ◌≤◌, ◌<◌}
use mathlib.Core.Path.{◌≡◌, ap, sym, ◌∙◌}
use native.Mathlib.Nat.{pow-suc, one-le-pow, div-add-mod, mod-lt, mul-le-mul_right}
use native.Mathlib.Omega.{arith}

pub pow-pos : (k : ℕ) → 0 < 2 ^ k
pow-pos k = one-le-pow k 2 (omega arith)

pub pow-add : (a b : ℕ) → 2 ^ (a + b) ≡ 2 ^ a * 2 ^ b
pow-add zero b = rw (zero_left) (omega arith)
  where
    zero_left : zero + b ≡ b
    zero_left = omega arith
pow-add (suc a) b = rw (suc_left, pow-suc 2 (a + b), pow-suc 2 a, pow-add a b) (omega arith)
  where
    suc_left : suc a + b ≡ suc (a + b)
    suc_left = omega arith

pub pow-sub : (k n : ℕ) → k ≤ n → 2 ^ k * 2 ^ (n - k) ≡ 2 ^ n
pow-sub k n h = sym (pow-add k (n - k)) ∙ ap (λ (t : ℕ). 2 ^ t) (omega arith)

-- A 64-bit shift left by k bits, with p = 2 ^ k and q = 2 ^ (64 - k): what stays in the word is a
-- multiple of p, with room for a number below p, and what leaves it is the quotient by q.
pub record Shifted (p q w : ℕ) : Type 0 where
  pub kept : w * p % 2 ^ 64 ≡ w % q * p
  pub room : w % q * p + p ≤ 2 ^ 64
  pub whole : w * p ≡ w % q * p + 2 ^ 64 * (w / q)

pub shifted : (p q w : ℕ) → p * q ≡ 2 ^ 64 → 0 < p → 0 < q → Shifted p q w
shifted p q w e p_pos q_pos =
    let whole : w * p ≡ w % q * p + 2 ^ 64 * (w / q) =
      omega (arith, ap (λ (t : ℕ). t * p) (div-add-mod w q), ap (λ (t : ℕ). t * (w / q)) e) in
    let room : w % q * p + p ≤ 2 ^ 64 = omega (arith, e, mul-le-mul_right p (mod-lt w q_pos)) in
    record { kept = omega arith; room = room; whole = whole }
