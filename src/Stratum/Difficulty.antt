-- ===== src/Stratum/Difficulty.antt =====
-- `set_difficulty`: the pool's difficulty, a float, as a 256-bit target.
pub mod Exact
pub mod Outcome
use cryptix_miner_test.Base.{
  ◌%◌, ◌*◌, ◌+◌, ◌-◌, ◌/◌, ◌==◌, Bool, Option, ◌^◌, if◌then◌else◌, leb, ltb, none, some, suc, zero,
  ℕ,
}
use cryptix_miner_test.Target.{Uint256}
use cryptix_miner_test.Stratum.{StratumHandler, Reply, done, failed, panicked}
use cryptix_miner_test.Stratum.Codec.{Reciprocal}

-- `DIFFICULTY_1_TARGET`
abbrev pub difficulty_1_mantissa : ℕ
difficulty_1_mantissa = 0xffff

abbrev pub difficulty_1_exponent : ℕ
difficulty_1_exponent = 208

-- The number of binary digits, for `u64::leading_zeros`.
unfoldable pub bit_length : ℕ → ℕ → ℕ
bit_length zero n = 0
bit_length (suc fuel) n = let rest = bit_length fuel (n / 2) in if n == 0 then 0 else suc rest

abbrev pub leading_zeros : ℕ → ℕ
leading_zeros n = 64 - bit_length 64 n

-- `x >> k` where k may be the width: a checked build panics there, and a release build shifts by
-- k modulo 64.
unfoldable pub shr_carry : Bool → ℕ → ℕ → Option ℕ
shr_carry overflow_checks x k =
    if ltb k 64 then some (x / 2 ^ k) else if overflow_checks then none else some (x / 2 ^ (k % 64))

-- `buf[start] = bottom; buf[start + 1] = top` on four zero words, where `start < 3`.
abbrev pub two_words : ℕ → ℕ → ℕ → Uint256
two_words zero bottom top = record { w0 = bottom; w1 = top; w2 = 0; w3 = 0 }
two_words (suc zero) bottom top = record { w0 = 0; w1 = bottom; w2 = top; w3 = 0 }
two_words (suc (suc start)) bottom top = record { w0 = 0; w1 = 0; w2 = bottom; w3 = top }

-- The target that `set_difficulty` stores, or the way it fails.
pub data Stored : Type 0 where
  stored : Uint256 → Stored
  too_big : Stored
  aborted : Stored

unfoldable pub store_low : ℕ → ℕ → Option ℕ → Stored
store_low start bottom none = aborted
store_low start bottom (some top) = stored (two_words start bottom top)

-- The exponent is biased by 150, so `208 + exponent` is `biased_exponent + 58`, never negative.
unfoldable pub target_of : Bool → Reciprocal → Stored
unfolding store_low shr_carry
target_of overflow_checks difficulty =
    let new_mantissa = (difficulty.mantissa * difficulty_1_mantissa) % 2 ^ 64 in
    let new_exponent = difficulty_1_exponent + difficulty.biased_exponent - 150 in
    let start = new_exponent / 64 in
    let remainder = new_exponent % 64 in
    let bottom = new_mantissa * 2 ^ remainder % 2 ^ 64 in
    if leb 4 start
    then aborted
    else if ltb start 3
    then store_low start bottom (shr_carry overflow_checks new_mantissa (64 - remainder))
    else if ltb (leading_zeros new_mantissa) remainder
    then too_big
    else stored (record { w0 = 0; w1 = 0; w2 = 0; w3 = bottom })

-- What becomes of the handler; an error leaves its target as it was.
unfoldable pub install : StratumHandler → Stored → StratumHandler × Reply
install self (stored target) = (record self { target_pool = target }, done)
install self too_big = (self, failed)
install self aborted = (self, panicked)

-- `set_difficulty`
unfoldable pub set_difficulty : Bool → StratumHandler → Reciprocal → StratumHandler × Reply
unfolding install
set_difficulty overflow_checks self difficulty = install self (target_of overflow_checks difficulty)
