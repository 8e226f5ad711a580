-- ===== src/Stratum/Nonce/Partition.antt =====
-- src/client/stratum.rs: what a partition of the nonces is, and `set_extranonce` and
-- `set_extranonce_eth` with respect to it.
use cryptix_miner_test.Base.{
  ◌%◌, ◌*◌, ◌-◌, ◌<◌, ◌^◌, arith, dec_lt, false, leb, refl, true, ℕ, ◌≡◌, ◌≤◌, ◌+◌, ◌/◌, ◌==◌,
  Bool-cases, List, Option, bit_and, bit_or, inl, inr, length, none, some, [], ◌∷◌,
}
use native.Mathlib.Nat.{
  mod-lt, mul-le-mul_right, lt_of_mul-lt-mul_right, add-mul-div_right, div-eq_of_lt,
}
use cryptix_miner_test.Base.Bits.{bit_and_low, bit_or_disjoint}
use cryptix_miner_test.Base.Pow.{shifted, pow-pos, pow-sub}
use cryptix_miner_test.Base.Text.{from_str_radix_16}
use cryptix_miner_test.Stratum.{StratumHandler, done}
use cryptix_miner_test.Stratum.Nonce.{
  without_prefix, shift_of, nonce_fixed_of, nonce_mask_of, size_bytes_of, partition, set_extranonce,
  set_extranonce_eth,
}

-- The mask is the low `width` bits, and the fixed part, a u64, has none of them.
pub record IsPartition (mask fixed : ℕ) : Type 0 where
  pub width : ℕ
  pub prefix : ℕ
  pub fits : width ≤ 64
  pub at_least_byte : 8 ≤ width
  pub mask_is : mask ≡ 2 ^ width - 1
  pub fixed_is : fixed ≡ prefix * 2 ^ width
  pub fixed_fits : fixed < 2 ^ 64

abbrev pub HasPartition : StratumHandler → Type 0
HasPartition h = IsPartition h.nonce_mask h.nonce_fixed

pub whole_space : IsPartition (2 ^ 64 - 1) 0
whole_space = record {
  width = 64;
  prefix = 0;
  fits = omega arith;
  at_least_byte = omega arith;
  mask_is = refl;
  fixed_is = refl;
  fixed_fits = omega arith;
}

-- A product of a word and 2 ^ s, cut to 64 bits, is still a multiple of 2 ^ s.
multiple : (v s : ℕ) → s ≤ 64 → v * 2 ^ s % 2 ^ 64 ≡ v % 2 ^ (64 - s) * 2 ^ s
multiple v s h =
    (shifted (2 ^ s) (2 ^ (64 - s)) v (pow-sub s 64 h) (pow-pos s) (pow-pos (64 - s))).kept

partition_of :
    (shift val : ℕ) → 8 ≤ shift → IsPartition (nonce_mask_of shift) (nonce_fixed_of shift val)
partition_of shift val pos = elim (dec_lt shift 64) [
  | no wide ↦ rw (is_wide (omega arith)) whole_space
  | yes below ↦ rw (is_below below) (record {
    width = shift;
    prefix = val % 2 ^ (64 - shift);
    fits = omega arith;
    at_least_byte = pos;
    mask_is = refl;
    fixed_is = multiple val shift (omega arith);
    fixed_fits = omega arith;
  })
]
  where
    is_wide : 64 ≤ shift → leb 64 shift ≡ true
    is_wide h = ground arith

    is_below : shift < 64 → leb 64 shift ≡ false
    is_below h = ground arith

shift_of-byte : (n : ℕ) → (n == 0) ≡ false → 8 ≤ shift_of n
shift_of-byte n h = ground arith

partition-HasPartition :
    (h : StratumHandler) (shift : ℕ) (val : Option ℕ)
    → 8 ≤ shift
    → HasPartition h
    → HasPartition (partition h shift val).0
unfolding partition
partition-HasPartition h shift none pos inv = inv
partition-HasPartition h shift (some val) pos inv = partition_of shift val pos

-- When the nonces are partitioned before a call of `set_extranonce`, they are after it, whatever the
-- pool announces, and also when the call fails.
pub set_extranonce-HasPartition :
    (h : StratumHandler) (text : List ℕ) (nonce_size : ℕ)
    → HasPartition h
    → HasPartition (set_extranonce h text nonce_size).0
unfolding set_extranonce
set_extranonce-HasPartition h text nonce_size inv =
    elim (Bool-cases (size_bytes_of (without_prefix text) nonce_size == 0)) [
      | inl zero_size ↦ rw zero_size whole_space
      | inr sized ↦ rw sized (partition-HasPartition _ _ _ (shift_of-byte _ sized) inv)
    ]

-- When the nonces are partitioned before a call of `set_extranonce_eth`, they are after it, whatever
-- the pool announces, and also when the call fails.
pub set_extranonce_eth-HasPartition :
    (h : StratumHandler) (text : List ℕ)
    → HasPartition h
    → HasPartition (set_extranonce_eth h text).0
unfolding set_extranonce_eth
set_extranonce_eth-HasPartition h text inv =
    elim (Bool-cases ((length (without_prefix text) + 1) / 2 % 2 ^ 32 == 0)) [
      | inl zero_size ↦ rw zero_size whole_space
      | inr sized ↦ rw sized (partition-HasPartition _ _ _ (shift_of-byte _ sized) inv)
    ]

-- The nonce that a worker tries is `(nonce & mask) | fixed`.
abbrev pub tried : ℕ → ℕ → ℕ → ℕ
tried mask fixed nonce = bit_or (bit_and nonce mask) fixed

-- Under a partition it is a u64 whose low bits are the worker's and whose high bits are the pool's.
pub tried_lem :
    (mask fixed nonce : ℕ) (part : IsPartition mask fixed)
    → (tried mask fixed nonce ≡ nonce % 2 ^ part.width + fixed)
      × (tried mask fixed nonce < 2 ^ 64)
      × (tried mask fixed nonce / 2 ^ part.width ≡ part.prefix)
tried_lem mask fixed nonce part =
    let low : nonce % p < p = mod-lt nonce (pow-pos part.width) in
    let joined : tried mask fixed nonce ≡ nonce % p + fixed =
      rw (part.mask_is, part.fixed_is, bit_and_low part.width nonce)
        (bit_or_disjoint part.width part.prefix (nonce % p) low) in
    (
      joined,
      omega (arith, room),
      rw
          (
            joined,
            part.fixed_is,
            add-mul-div_right (nonce % p) part.prefix (pow-pos part.width),
            div-eq_of_lt low,
          )
          (omega arith),
    )
  where
    p : ℕ
    p = 2 ^ part.width

    split : p * 2 ^ (64 - part.width) ≡ 2 ^ 64
    split = pow-sub part.width 64 part.fits

    below : part.prefix < 2 ^ (64 - part.width)
    below = lt_of_mul-lt-mul_right p (omega (arith, split, part.fixed_is, part.fixed_fits))

    room : fixed + p ≤ 2 ^ 64
    room = omega (arith, split, part.fixed_is, mul-le-mul_right p below)

from_str_radix_16-length :
    (text : List ℕ) {val : ℕ} → from_str_radix_16 text ≡ some val → 0 < length text
unfolding from_str_radix_16
from_str_radix_16-length [] e = cc
from_str_radix_16-length (c ∷ cs) e = omega arith

shift_is : (size : ℕ) → size ≤ 7 → shift_of (size % 2 ^ 32) ≡ 8 * size
shift_is size h = omega arith

partitioned :
    (h : StratumHandler) (shift val : ℕ)
    → shift < 64
    → let h' = partition h shift (some val) in
      (h'.1 ≡ done)
      × (h'.0.nonce_mask ≡ 2 ^ shift - 1)
      × (h'.0.nonce_fixed ≡ val % 2 ^ (64 - shift) * 2 ^ shift)
unfolding partition
partitioned h shift val lt = ground (arith, multiple val shift (omega arith))

-- Of an extranonce of up to 14 hexadecimal digits `set_extranonce_eth` makes as many bytes of nonce space as
-- the digits take, and puts the number above them; of the number it keeps only the bits that a
-- u64 has left there, and says nothing of the others.
pub set_extranonce_eth-prefix :
    (h : StratumHandler) (text : List ℕ) (val : ℕ)
    → from_str_radix_16 (without_prefix text) ≡ some val
    → length (without_prefix text) ≤ 14
    → let size = (length (without_prefix text) + 1) / 2 in
      let h' = set_extranonce_eth h text in
      (h'.1 ≡ done)
      × (h'.0.nonce_mask ≡ 2 ^ (8 * size) - 1)
      × (h'.0.nonce_fixed ≡ val % 2 ^ (64 - 8 * size) * 2 ^ (8 * size))
unfolding set_extranonce_eth
set_extranonce_eth-prefix h text val e n =
    rw (e, not_empty, shift_is size (omega arith))
      (partitioned (record h { extranonce = some digits }) (8 * size) val (omega arith))
  where
    digits : List ℕ
    digits = without_prefix text

    size : ℕ
    size = (length digits + 1) / 2

    not_empty : (size % 2 ^ 32 == 0) ≡ false
    not_empty = ground (arith, from_str_radix_16-length digits e)
