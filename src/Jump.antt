-- ===== src/Jump.antt =====
-- src/xoshiro256starstar.rs: the generator whose jumps seed the threads of a GPU.
pub mod Zeros
use cryptix_miner_test.Base.{
  ℕ, ◌%◌, ◌*◌, ◌-◌, ◌/◌, ◌==◌, ◌^◌, List, [], ◌∷◌, bit_and, bit_or, bit_xor, if◌then◌else◌, suc,
  zero,
}

-- `LONG_JUMP`
abbrev pub long_jump_words : List ℕ
long_jump_words =
    0x76e15d3efefdcbbf ∷ 0xc5004e441c522fb3 ∷ 0x77710069854ee241 ∷ 0x39109bb02acbe635 ∷ []

pub record Xoshiro256StarStar : Type 0 where
  pub s0 : ℕ
  pub s1 : ℕ
  pub s2 : ℕ
  pub s3 : ℕ

-- `rotl`, for a distance between 1 and 63.
abbrev pub rotl : ℕ → ℕ → ℕ
rotl x k = bit_or (x * 2 ^ k % 2 ^ 64) (x / 2 ^ (64 - k))

-- `next_u64`: the state after the call, and the number.
unfoldable pub next_u64 : Xoshiro256StarStar → Xoshiro256StarStar × ℕ
next_u64 self =
    let result = rotl (self.s1 * 5 % 2 ^ 64) 7 * 9 % 2 ^ 64 in
    let t = self.s1 * 2 ^ 17 % 2 ^ 64 in
    let s2 = bit_xor self.s2 self.s0 in
    let s3 = bit_xor self.s3 self.s1 in
    let s1 = bit_xor self.s1 s2 in
    let s0 = bit_xor self.s0 s3 in
    (record { s0 = s0; s1 = s1; s2 = bit_xor s2 t; s3 = rotl s3 45 }, result)

abbrev pub xor_state : Xoshiro256StarStar → Xoshiro256StarStar → Xoshiro256StarStar
xor_state a b = record {
  s0 = bit_xor a.s0 b.s0;
  s1 = bit_xor a.s1 b.s1;
  s2 = bit_xor a.s2 b.s2;
  s3 = bit_xor a.s3 b.s3;
}

-- The inner loop over the bits of a word from the bit b on: the four sums, and the generator.
unfoldable pub jump_bits :
    ℕ → ℕ → ℕ → Xoshiro256StarStar → Xoshiro256StarStar → Xoshiro256StarStar × Xoshiro256StarStar
unfolding next_u64
jump_bits zero b jmp s self = (s, self)
jump_bits (suc n) b jmp s self =
    jump_bits n (suc b) jmp (if bit_and jmp (2 ^ b) == 0 then s else xor_state s self)
      (next_u64 self).0

-- The outer loop, which puts the sums into the state after each word.
unfoldable pub jump_words : List ℕ → Xoshiro256StarStar → Xoshiro256StarStar → Xoshiro256StarStar
unfolding jump_bits
jump_words [] s self = self
jump_words (jmp ∷ words) s self = let s' = (jump_bits 64 0 jmp s self).0 in jump_words words s' s'

abbrev pub zeros : Xoshiro256StarStar
zeros = record { s0 = 0; s1 = 0; s2 = 0; s3 = 0 }

-- `long_jump`
unfoldable pub long_jump : Xoshiro256StarStar → Xoshiro256StarStar
unfolding jump_words
long_jump self = jump_words long_jump_words zeros self

-- `iter_jump_state`, of which a plugin takes n states.
unfoldable pub iter_jump_state : ℕ → Xoshiro256StarStar → List Xoshiro256StarStar
unfolding long_jump
iter_jump_state zero self = []
iter_jump_state (suc n) self = let jumped = long_jump self in jumped ∷ iter_jump_state n jumped
