-- ===== src/Pow/Xoshiro.antt =====
-- src/pow/xoshiro.rs: the generator XoShiRo256PlusPlus that fills the matrix.
use cryptix_miner_test.Base.{◌+◌, ◌%◌, ◌*◌, ◌^◌, bit_xor, ℕ}
use cryptix_miner_test.Base.Rotate.{rotate_left}
use cryptix_miner_test.Target.{Uint256}

pub record XoShiRo256PlusPlus : Type 0 where
  pub s0 : ℕ
  pub s1 : ℕ
  pub s2 : ℕ
  pub s3 : ℕ

-- `new`
abbrev pub xoshiro : Uint256 → XoShiRo256PlusPlus
xoshiro hash = record { s0 = hash.w0; s1 = hash.w1; s2 = hash.w2; s3 = hash.w3 }

-- `u64`: the state after the call, and the number.
unfoldable pub next : XoShiRo256PlusPlus → XoShiRo256PlusPlus × ℕ
next self =
    let res = (self.s0 + rotate_left 64 ((self.s0 + self.s3) % 2 ^ 64) 23) % 2 ^ 64 in
    let t = self.s1 * 2 ^ 17 % 2 ^ 64 in
    let s2 = bit_xor self.s2 self.s0 in
    let s3 = bit_xor self.s3 self.s1 in
    let s1 = bit_xor self.s1 s2 in
    let s0 = bit_xor self.s0 s3 in
    (record { s0 = s0; s1 = s1; s2 = bit_xor s2 t; s3 = rotate_left 64 s3 45 }, res)
