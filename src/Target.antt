-- ===== src/Target.antt =====
-- src/target.rs: the 256-bit integer of four 64-bit words, least significant word first, its
-- byte encodings, its order, its left shift, and the decoder of compact targets.
pub mod Value
pub mod Shift
pub mod Bytes
pub mod Order
pub mod Compact
use Prim.Native.Nat.{compare, Ordering}
use mathlib.Core.List.{reverse}
use cryptix_miner_test.Base.{
  ℕ, zero, suc, ◌+◌, ◌-◌, ◌*◌, ◌/◌, ◌%◌, ◌^◌, ◌<◌, ◌≤◌, Bool, true, false, ◌&&◌, List, [], ◌∷◌, ltb,
  leb, ◌==◌, if◌then◌else◌, shl64, shr64, u64, ◌++◌, drop, take,
}

-- `Uint256(pub [u64; 4])`: word `i` of the array is `wi`.
pub record Uint256 : Type 0 where
  pub w0 : ℕ
  pub w1 : ℕ
  pub w2 : ℕ
  pub w3 : ℕ

-- Every word is a u64.
abbrev pub IsWords : Uint256 → Type 0
IsWords u = (u.w0 < 2 ^ 64) × (u.w1 < 2 ^ 64) × (u.w2 < 2 ^ 64) × (u.w3 < 2 ^ 64)

-- `Default`
abbrev pub zeros : Uint256
zeros = record { w0 = 0; w1 = 0; w2 = 0; w3 = 0 }

-- `Uint256::from_u64`
unfoldable pub from_u64 : ℕ → Uint256
from_u64 init = record { w0 = init; w1 = 0; w2 = 0; w3 = 0 }

-- `ret[k] += v` on a local array of words. Every caller tests `k < 4` first.
abbrev pub add_word : Uint256 → ℕ → ℕ → Uint256
add_word r zero v = record r { w0 = u64 (r.w0 + v) }
add_word r (suc zero) v = record r { w1 = u64 (r.w1 + v) }
add_word r (suc (suc zero)) v = record r { w2 = u64 (r.w2 + v) }
add_word r (suc (suc (suc zero))) v = record r { w3 = u64 (r.w3 + v) }
add_word r (suc (suc (suc (suc k)))) v = r

-- One round of the loop of `shl`, for the word `original` at index `i`.
abbrev pub shl_round : ℕ → ℕ → ℕ → ℕ → Uint256 → Uint256
shl_round word_shift bit_shift i original ret =
    let shifted =
      if ltb bit_shift 64 && ltb (i + word_shift) 4
      then add_word ret (i + word_shift) (shl64 original bit_shift)
      else ret in
    if ltb 0 bit_shift && ltb (i + word_shift + 1) 4
    then add_word shifted (i + word_shift + 1) (shr64 original (64 - bit_shift))
    else shifted

-- The loop of `shl` over the four words.
unfoldable pub shl_loop : ℕ → ℕ → Uint256 → Uint256
shl_loop word_shift bit_shift original =
    let r0 = shl_round word_shift bit_shift 0 original.w0 zeros in
    let r1 = shl_round word_shift bit_shift 1 original.w1 r0 in
    let r2 = shl_round word_shift bit_shift 2 original.w2 r1 in
    shl_round word_shift bit_shift 3 original.w3 r2

-- `impl Shl<usize> for Uint256`
unfoldable pub shl : Uint256 → ℕ → Uint256
shl original shift = shl_loop (shift / 64) (shift % 64) original

-- `u256_from_compact_target`: `bits` is a u32; the exponent is its top byte.
unfoldable pub u256_from_compact_target : ℕ → Uint256
u256_from_compact_target bits =
    let unshifted_expt = bits / 2 ^ 24 in
    let mant =
      if leb unshifted_expt 3
      then bits % 2 ^ 24 / 2 ^ (8 * (3 - unshifted_expt))
      else bits % 2 ^ 24 in
    let expt = if leb unshifted_expt 3 then 0 else 8 * (unshifted_expt - 3) in
    if ltb 0x7FFFFF mant then zeros else shl (from_u64 mant) expt

-- `u64::to_le_bytes`, at any width, and `u64::from_le_bytes`.
unfoldable pub le_bytes : ℕ → ℕ → List ℕ
le_bytes zero w = []
le_bytes (suc n) w = (w % 256) ∷ le_bytes n (w / 256)

unfoldable pub of_le_bytes : List ℕ → ℕ
of_le_bytes [] = 0
of_le_bytes (b ∷ bs) = b + 256 * of_le_bytes bs

-- `Uint256::to_le_bytes`: the words in order, eight bytes each.
unfoldable pub to_le_bytes : Uint256 → List ℕ
to_le_bytes u = le_bytes 8 u.w0 ++ (le_bytes 8 u.w1 ++ (le_bytes 8 u.w2 ++ le_bytes 8 u.w3))

-- `Uint256::to_be_bytes`: the words in reverse order, each by `u64::to_be_bytes`.
unfoldable pub to_be_bytes : Uint256 → List ℕ
to_be_bytes u =
    reverse (le_bytes 8 u.w3)
    ++ (reverse (le_bytes 8 u.w2) ++ (reverse (le_bytes 8 u.w1) ++ reverse (le_bytes 8 u.w0)))

-- `Uint256::from_le_bytes`, of the 32 bytes in chunks of eight.
unfoldable pub from_le_bytes : List ℕ → Uint256
from_le_bytes bytes = record {
  w0 = of_le_bytes (take 8 bytes);
  w1 = of_le_bytes (take 8 (drop 8 bytes));
  w2 = of_le_bytes (take 8 (drop 16 bytes));
  w3 = of_le_bytes (take 8 (drop 24 bytes));
}

-- `Ord::cmp`: the words compared from the last to the first.
unfoldable pub cmp : Uint256 → Uint256 → Ordering
cmp u v = elim (compare u.w3 v.w3) [
  | Ordering.eq ↦ elim (compare u.w2 v.w2) [
    | Ordering.eq ↦ elim (compare u.w1 v.w1) [
      | Ordering.eq ↦ compare u.w0 v.w0
      | Ordering.lt ↦ Ordering.lt
      | Ordering.gt ↦ Ordering.gt
    ]
    | Ordering.lt ↦ Ordering.lt
    | Ordering.gt ↦ Ordering.gt
  ]
  | Ordering.lt ↦ Ordering.lt
  | Ordering.gt ↦ Ordering.gt
]

-- `u <= v`, by `partial_cmp`.
unfoldable pub le : Uint256 → Uint256 → Bool
unfolding cmp
le u v = elim (cmp u v) [ Ordering.gt ↦ false | _ ↦ true ]
