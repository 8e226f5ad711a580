-- ===== src/Target/Order.antt =====
-- src/target.rs: the order of the numbers, and the test `pow <= self.target` of `check_pow`.
use cryptix_miner_test.Base.{◌≡◌, arith, true, ◌↔◌, ◌≤◌}
use Prim.Native.Nat.{compare}
use cryptix_miner_test.Target.{Uint256, IsWords, cmp, le}
use cryptix_miner_test.Target.Value.{value}

-- On integers of four u64 words, `cmp`, which goes from the last word down, compares the values.
pub cmp-value : (u v : Uint256) → IsWords u → IsWords v → cmp u v ≡ compare (value u) (value v)
unfolding cmp
cmp-value u v hu hv = ground arith

-- The test succeeds exactly when the value is at most the other's.
pub le-value : (u v : Uint256) → IsWords u → IsWords v → (le u v ≡ true) ↔ (value u ≤ value v)
unfolding le
le-value u v hu hv = ground arith
