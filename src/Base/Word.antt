-- ===== src/Base/Word.antt =====
-- Machine words as numbers: the wrap-around of each width, shifts and rotations.
use Prim.Native.Nat.{ℕ, ◌*◌, ◌/◌, ◌%◌, ◌^◌}

abbrev pub u64_mod : ℕ
u64_mod = 2 ^ 64

abbrev pub u8 : ℕ → ℕ
u8 n = n % 2 ^ 8

abbrev pub u16 : ℕ → ℕ
u16 n = n % 2 ^ 16

abbrev pub u32 : ℕ → ℕ
u32 n = n % 2 ^ 32

abbrev pub u64 : ℕ → ℕ
u64 n = n % 2 ^ 64

-- `x << k` and `x >> k` at u64, for k below 64.
abbrev pub shl64 : ℕ → ℕ → ℕ
shl64 x k = (x * 2 ^ k) % 2 ^ 64

abbrev pub shr64 : ℕ → ℕ → ℕ
shr64 x k = x / 2 ^ k
