-- ===== src/Stratum/Difficulty/Outcome.antt =====
-- What `set_difficulty` does with a difficulty, by the place of the target's lowest bit.
use cryptix_miner_test.Base.{
  ◌%◌, ◌*◌, ◌+◌, ◌-◌, ◌/◌, ◌<◌, Bool, ◌^◌, arith, dec_lt, false, inl, inr, refl, true, ℕ, ◌≡◌, ◌≢◌,
  ◌≤◌, ◌⊎◌,
}
use cryptix_miner_test.Target.{IsWords}
use cryptix_miner_test.Target.Value.{value}
use cryptix_miner_test.Stratum.{StratumHandler, done, failed, panicked}
use cryptix_miner_test.Stratum.Codec.{Reciprocal, IsDecoded}
use cryptix_miner_test.Stratum.Difficulty.{
  Stored, stored, too_big, aborted, target_of, install, set_difficulty,
}
use cryptix_miner_test.Stratum.Difficulty.Exact.{
  meant, Holds, low_exact, high_exact, boundary, beyond,
}

abbrev pub exponent_of : Reciprocal → ℕ
exponent_of d = d.biased_exponent + 58

Holds-stored :
    (checks : Bool) (h : StratumHandler) (d : Reciprocal) (n : ℕ)
    → Holds n (target_of checks d)
    → let (h', r) = set_difficulty checks h d in
      (r ≡ done) × (value h'.target_pool ≡ n) × IsWords h'.target_pool
unfolding set_difficulty
Holds-stored checks h d n holds = go (target_of checks d) holds
  where
    go :
        (s : Stored)
        → Holds n s
        → let (h', r) = install h s in
          (r ≡ done) × (value h'.target_pool ≡ n) × IsWords h'.target_pool
    go (stored t) (w, e) = (refl, e, w)
    go too_big h = absurd h
    go aborted h = absurd h

module _ (checks : Bool) (h : StratumHandler) (d : Reciprocal) (dec : IsDecoded d) where
  -- Away from the word boundaries a target that fits 256 bits is stored exactly.
  pub set_difficulty-exact :
      exponent_of d < 256
      → ((exponent_of d % 64 ≢ 0) ⊎ (192 ≤ exponent_of d))
      → meant d < 2 ^ 256
      → let (h', r) = set_difficulty checks h d in
        (r ≡ done) × (value h'.target_pool ≡ meant d) × IsWords h'.target_pool
  set_difficulty-exact small off fits = Holds-stored checks h d (meant d) (place (dec_lt n 192))
    where
      n : ℕ
      n = exponent_of d

      -- the rule for the last word, when the target fits
      last :
          ((meant d < 2 ^ 256) × Holds (meant d) (target_of checks d))
            ⊎ ((2 ^ 256 ≤ meant d) × (target_of checks d ≡ too_big))
          → Holds (meant d) (target_of checks d)
      last (inl (_, holds)) = holds
      last (inr (over, _)) = absurd (omega arith)

      place : Dec (n < 192) → Holds (meant d) (target_of checks d)
      place (yes low) =
          low_exact d dec checks (n / 64) (n % 64) (omega arith) (omega arith) (inside off)
            (omega arith)
        where
          inside : (n % 64 ≢ 0) ⊎ (192 ≤ n) → 0 < n % 64
          inside (inl off) = omega arith
          inside (inr high) = absurd (omega arith)
      place (no high) = last (high_exact d dec checks (n - 192) (omega arith) (omega arith))

  -- A target that passes 256 bits, with its lowest bit at 192 or above, leaves the handler as it
  -- was: it is an error while that bit is below 256, and a panic from there on.
  pub set_difficulty_too_big :
      192 ≤ exponent_of d
      → 2 ^ 256 ≤ meant d
      → ((exponent_of d < 256) × (set_difficulty checks h d ≡ (h, failed)))
        ⊎ ((256 ≤ exponent_of d) × (set_difficulty checks h d ≡ (h, panicked)))
  unfolding set_difficulty
  set_difficulty_too_big high over = place (dec_lt n 256)
    where
      n : ℕ
      n = exponent_of d

      place :
          Dec (n < 256)
          → ((n < 256) × (install h (target_of checks d) ≡ (h, failed)))
            ⊎ ((256 ≤ n) × (install h (target_of checks d) ≡ (h, panicked)))
      place (no far) = inr (omega arith, rw (beyond d dec checks (omega arith)) refl)
      place (yes near) = last (high_exact d dec checks (n - 192) (omega arith) (omega arith))
        where
          last :
              ((meant d < 2 ^ 256) × Holds (meant d) (target_of checks d))
                ⊎ ((2 ^ 256 ≤ meant d) × (target_of checks d ≡ too_big))
              → ((n < 256) × (install h (target_of checks d) ≡ (h, failed)))
                ⊎ ((256 ≤ n) × (install h (target_of checks d) ≡ (h, panicked)))
          last (inl (fits, _)) = absurd (omega arith)
          last (inr (_, e)) = inl (near, rw e refl)

-- The flaw on the word boundaries below 2 ^ 192: a checked build panics on such a difficulty, and a
-- release build stores a target that is 2 ^ 64 + 1 times too large.
pub set_difficulty_boundary :
    (h : StratumHandler) (d : Reciprocal)
    → IsDecoded d
    → exponent_of d % 64 ≡ 0
    → exponent_of d < 192
    → (set_difficulty true h d ≡ (h, panicked))
      × ((set_difficulty false h d).1 ≡ done)
      × (value (set_difficulty false h d).0.target_pool ≡ meant d * (2 ^ 64 + 1))
set_difficulty_boundary h d dec e low =
    let (aborts, holds) = boundary d dec (exponent_of d / 64) (omega arith) (omega arith) in
    let (returns, target, _) = Holds-stored false h d (meant d * (2 ^ 64 + 1)) holds in
    (unfold set_difficulty in rw aborts refl, returns, target)
