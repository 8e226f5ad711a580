-- ===== src/Stratum/Difficulty/Exact.antt =====
-- When the stored target is the number that the difficulty means, and when it is not.
use cryptix_miner_test.Base.{
  ◌*◌, ◌+◌, ◌<◌, ◌^◌, suc, zero, ℕ, ◌↔◌, ◌≤◌, ◌-◌, ◌/◌, arith, Bool, dec_lt, ◌≡◌, ◌⊎◌, ◌%◌, false,
  leb, lt→ltb, true, refl, ◌∙◌,
}
use native.Mathlib.Nat.{pow-suc, mul-le-mul_right, div-le_self}
use cryptix_miner_test.Base.Pow.{pow-pos, pow-sub, pow-add, shifted, Shifted}
use cryptix_miner_test.Target.{IsWords}
use cryptix_miner_test.Target.Value.{value}
use cryptix_miner_test.Stratum.Codec.{Reciprocal, IsDecoded}
use cryptix_miner_test.Stratum.Difficulty.{
  bit_length, leading_zeros, two_words, Stored, stored, too_big, aborted, target_of,
}

-- The target that a difficulty means: 0xffff * 2 ^ 208 times its reciprocal, which is the decoded
-- mantissa times 2 ^ (biased_exponent - 150).
abbrev pub meant : Reciprocal → ℕ
meant d = d.mantissa * 0xffff * 2 ^ (d.biased_exponent + 58)

bit_length-le_iff : (fuel n k : ℕ) → n < 2 ^ fuel → (bit_length fuel n ≤ k) ↔ (n < 2 ^ k)
unfolding bit_length
bit_length-le_iff zero n k h = (λ _. omega (arith, pow-pos k), λ _. omega arith)
bit_length-le_iff (suc fuel) n zero h = ground arith
bit_length-le_iff (suc fuel) n (suc k) h = ground (
  arith,
  pow-suc 2 k,
  pow-pos k,
  pow-suc 2 fuel,
  bit_length-le_iff fuel (n / 2) k (omega (arith, pow-suc 2 fuel)),
)

-- The test on the leading zeros finds the mantissas that do not fit the shifted word.
leading_zeros-lt_iff :
    (m r : ℕ) → m < 2 ^ 64 → r < 64 → (leading_zeros m < r) ↔ (2 ^ 64 ≤ m * 2 ^ r)
leading_zeros-lt_iff m r h lt =
    let b = bit_length-le_iff 64 m (64 - r) h in
    let e = pow-sub r 64 (omega arith) in
    elim (dec_lt m (2 ^ (64 - r))) [
      | yes fits ↦ (
        λ t. absurd (omega (arith, b.1 fits)),
        λ t. absurd (omega (arith, e, pow-pos r, mul-le-mul_right (2 ^ r) fits)),
      )
      | no over ↦ (
        λ t. omega (arith, e, mul-le-mul_right (2 ^ r) (not_below over)),
        λ t. elim (dec_lt (64 - r) (bit_length 64 m)) [
          | yes long ↦ omega (arith, (bit_length-le_iff 64 m 64 h).1 h)
          | no short ↦ absurd (over (b.0 (omega arith)))
        ],
      )
    ]
  where
    not_below : ¬ (m < 2 ^ (64 - r)) → 2 ^ (64 - r) ≤ m
    not_below n = omega arith

-- What the theorems below say of a result: the target is exact; it is off by a factor of
-- 2 ^ 64 + 1; it does not fit; or the call panics.
abbrev pub Holds : ℕ → Stored → Type 0
Holds n (stored t) = IsWords t × (value t ≡ n)
Holds n too_big = ⊥
Holds n aborted = ⊥

-- Two adjacent words that hold the two parts of a shifted mantissa.
two_words-value :
    (start m bottom top p : ℕ)
    → start < 3
    → bottom < 2 ^ 64
    → top < 2 ^ 64
    → m * p ≡ bottom + 2 ^ 64 * top
    → IsWords (two_words start bottom top)
      × (value (two_words start bottom top) ≡ 2 ^ (64 * start) * (m * p))
two_words-value zero m b t p s hb ht e = (omega arith, omega arith)
two_words-value (suc zero) m b t p s hb ht e = (omega arith, omega arith)
two_words-value (suc (suc zero)) m b t p s hb ht e = (omega arith, omega arith)
two_words-value (suc (suc (suc start))) m b t p s hb ht e = absurd (omega arith)

module _ (d : Reciprocal) (dec : IsDecoded d) where
  abbrev pub exponent : ℕ
  exponent = d.biased_exponent + 58

  abbrev mantissa : ℕ
  mantissa = d.mantissa * 0xffff

  meant_split :
      (start r : ℕ) → exponent ≡ 64 * start + r → meant d ≡ 2 ^ (64 * start) * (mantissa * 2 ^ r)
  meant_split start r e = rw (e, pow-add (64 * start) r) (omega arith)

  -- Away from the word boundaries the target below 2 ^ 192 is exact.
  pub low_exact :
      (checks : Bool) (start r : ℕ)
      → exponent ≡ 64 * start + r
      → start < 3
      → 0 < r
      → r < 64
      → Holds (meant d) (target_of checks d)
  unfolding target_of
  low_exact checks start r e s p lt =
      rw
        (
          start_is,
          r_is,
          m_is,
          not_last,
          lt→ltb start 3 s,
          lt→ltb (64 - r) 64 (omega arith),
          meant_split start r e,
        )
        (two_words-value start mantissa (mantissa * 2 ^ r % 2 ^ 64) (mantissa / 2 ^ (64 - r))
          (2 ^ r) s (omega arith) (omega (arith, div-le_self mantissa (2 ^ (64 - r))))
          (omega (arith, parts.whole, parts.kept)))
    where
      start_is : (208 + d.biased_exponent - 150) / 64 ≡ start
      start_is = omega arith

      r_is : (208 + d.biased_exponent - 150) % 64 ≡ r
      r_is = omega arith

      m_is : mantissa % 2 ^ 64 ≡ mantissa
      m_is = omega arith

      not_last : leb 4 start ≡ false
      not_last = ground arith

      parts : Shifted (2 ^ r) (2 ^ (64 - r)) mantissa
      parts =
          shifted (2 ^ r) (2 ^ (64 - r)) mantissa (pow-sub r 64 (omega arith)) (pow-pos r)
            (pow-pos (64 - r))

  -- In the last word the target is exact when it fits 256 bits, and refused when it does not.
  pub high_exact :
      (checks : Bool) (r : ℕ)
      → exponent ≡ 192 + r
      → r < 64
      → ((meant d < 2 ^ 256) × Holds (meant d) (target_of checks d))
        ⊎ ((2 ^ 256 ≤ meant d) × (target_of checks d ≡ too_big))
  unfolding target_of
  high_exact checks r e lt = ground (
    arith,
    start_is,
    r_is,
    m_is,
    meant_split 3 r e,
    leading_zeros-lt_iff mantissa r (omega arith) lt,
  )
    where
      start_is : (208 + d.biased_exponent - 150) / 64 ≡ 3
      start_is = omega arith

      r_is : (208 + d.biased_exponent - 150) % 64 ≡ r
      r_is = omega arith

      m_is : mantissa % 2 ^ 64 ≡ mantissa
      m_is = omega arith

  -- On a word boundary below 2 ^ 192 the carry is shifted by a whole word: a checked build panics,
  -- and a release build stores 2 ^ 64 + 1 times the target.
  pub boundary :
      (start : ℕ)
      → exponent ≡ 64 * start
      → start < 3
      → (target_of true d ≡ aborted) × Holds (meant d * (2 ^ 64 + 1)) (target_of false d)
  unfolding target_of
  boundary start e s =
      rw (start_is, r_is, m_is, not_last, lt→ltb start 3 s)
        (refl, (words.0, words.1 ∙ omega (arith, meant_split start 0 (omega arith))))
    where
      start_is : (208 + d.biased_exponent - 150) / 64 ≡ start
      start_is = omega arith

      r_is : (208 + d.biased_exponent - 150) % 64 ≡ 0
      r_is = omega arith

      m_is : mantissa % 2 ^ 64 ≡ mantissa
      m_is = omega arith

      not_last : leb 4 start ≡ false
      not_last = ground arith

      words :
          IsWords (two_words start (mantissa * 1 % 2 ^ 64) (mantissa / 1))
          × (value (two_words start (mantissa * 1 % 2 ^ 64) (mantissa / 1))
              ≡ 2 ^ (64 * start) * (mantissa * (2 ^ 64 + 1)))
      words =
          two_words-value start mantissa (mantissa * 1 % 2 ^ 64) (mantissa / 1) (2 ^ 64 + 1) s
            (omega arith) (omega arith) (omega arith)

  pub beyond : (checks : Bool) → 256 ≤ exponent → target_of checks d ≡ aborted
  unfolding target_of
  beyond checks h = ground arith
