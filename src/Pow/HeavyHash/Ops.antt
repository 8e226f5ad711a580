-- ===== src/Pow/HeavyHash/Ops.antt =====
-- src/pow/heavy_hash.rs: the operations on bytes and words that the heavy hash is made of.
use cryptix_miner_test.Base.{ℕ, ◌%◌, ◌*◌, ◌+◌, List, ◌^◌, bit_and, bit_xor, get_or}

abbrev pub at : List ℕ → ℕ → ℕ
at xs i = get_or xs i 0

-- `x & 0xF`, and `wrapping_mul` and `wrapping_add` at u32 and u8.
abbrev pub nibble : ℕ → ℕ
nibble x = bit_and x 0x0F

abbrev pub mul32 : ℕ → ℕ → ℕ
mul32 x y = x * y % 2 ^ 32

abbrev pub mul8 : ℕ → ℕ → ℕ
mul8 x y = x * y % 2 ^ 8

abbrev pub add8 : ℕ → ℕ → ℕ
add8 x y = (x + y) % 2 ^ 8

infixl 45 ◌⊕◌
abbrev pub ◌⊕◌ : ℕ → ℕ → ℕ
x ⊕ y = bit_xor x y
