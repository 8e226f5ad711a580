-- ===== src/Target/Value.antt =====
-- The number that a `Uint256` stands for.
use cryptix_miner_test.Base.{ℕ, ◌+◌, ◌*◌, ◌^◌, ◌<◌, ◌≡◌, arith}
use cryptix_miner_test.Target.{Uint256, IsWords}

abbrev pub value : Uint256 → ℕ
value u = u.w0 + 2 ^ 64 * u.w1 + 2 ^ 128 * u.w2 + 2 ^ 192 * u.w3

-- A value fits 256 bits.
pub value-lt : (u : Uint256) → IsWords u → value u < 2 ^ 256
value-lt u h = omega arith

-- The words are determined by the value.
pub value-injective : (u v : Uint256) → IsWords u → IsWords v → value u ≡ value v → u ≡ v
value-injective u v hu hv e = ground arith
