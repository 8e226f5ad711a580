-- ===== src/Base/Cycle.antt =====
-- A counter that runs through 0 … 9999 and starts again, and how often it stands below a bound.
use Prim.Native.Nat.{ℕ, zero, suc, ◌+◌, ◌-◌, ◌%◌, ◌^◌, ◌≤◌, ◌<◌, min}
use mathlib.Core.Path.{◌≡◌, ap, ◌∙◌}
use native.Mathlib.Omega.{arith}
use cryptix_miner_test.Base.Tests.{ltb, if◌then◌else◌}

-- `fetch_update(|v| (v + 1) % 10_000)` at u16
abbrev pub next_of_10_000 : ℕ → ℕ
next_of_10_000 c = (c + 1) % 2 ^ 16 % 10_000

-- How many of the next n values are below p.
unfoldable pub turns : ℕ → ℕ → ℕ → ℕ
turns p zero c = 0
turns p (suc n) c = (if ltb c p then 1 else 0) + turns p n (next_of_10_000 c)

advance : ℕ → ℕ → ℕ
advance zero c = c
advance (suc n) c = advance n (next_of_10_000 c)

turns-add : (p m n c : ℕ) → turns p (m + n) c ≡ turns p m c + turns p n (advance m c)
unfolding turns advance
turns-add p zero n c = ap (λ (t : ℕ). turns p t c) zero_left ∙ (omega arith)
  where
    zero_left : zero + n ≡ n
    zero_left = omega arith
turns-add p (suc m) n c =
    ap (λ (t : ℕ). turns p t c) suc_left ∙ omega (arith, turns-add p m n (next_of_10_000 c))
  where
    suc_left : suc m + n ≡ suc (m + n)
    suc_left = omega arith

-- Up to the end of the cycle the values just grow.
turns_to : (p n c : ℕ) → c + n ≤ 10_000 → turns p n c + min c p ≡ min (c + n) p
unfolding turns
turns_to p zero c h = omega arith
turns_to p (suc zero) c h = ground arith
turns_to p (suc (suc n)) c h =
    let next : next_of_10_000 c ≡ c + 1 = omega arith in
    ground (arith, turns_to p (suc n) (next_of_10_000 c) (omega arith))

advance_to : (n c : ℕ) → c + n ≡ 10_000 → c < 10_000 → advance n c ≡ 0
unfolding advance
advance_to zero c h lt = absurd (omega arith)
advance_to (suc zero) c h lt = omega arith
advance_to (suc (suc n)) c h lt = advance_to (suc n) (next_of_10_000 c) (omega arith) (omega arith)

-- In a whole cycle, wherever it starts, each value below p comes once.
pub turns_cycle : (p n c : ℕ) → n ≡ 10_000 → c < 10_000 → p ≤ 10_000 → turns p n c ≡ p
turns_cycle p n c e lt le =
    ap (λ (t : ℕ). turns p t c) split
    ∙ omega (
      arith,
      turns-add p (10_000 - c) c c,
      turns_to p (10_000 - c) c (omega arith),
      turns_to p c 0 (omega arith),
      ap (λ (t : ℕ). turns p c t) (advance_to (10_000 - c) c (omega arith) lt),
    )
  where
    split : n ≡ 10_000 - c + c
    split = omega arith
