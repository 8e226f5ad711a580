-- ===== src/Examples/TargetCases.antt =====
-- src/target.rs at concrete numbers.
use cryptix_miner_test.Base.{ℕ, ◌%◌, ◌*◌, List, ◌^◌, arith, replicate, ◌∷◌, ◌≡◌}
use Prim.Native.Nat.{compare}
use cryptix_miner_test.Target.{Uint256, shl, cmp}
use cryptix_miner_test.Target.Value.{value}
use cryptix_miner_test.Target.Shift.{value-shl}
use cryptix_miner_test.Target.Order.{cmp-value}

abbrev sample : Uint256
sample = record { w0 = 5; w1 = 0x8000000000000001; w2 = 7; w3 = 9 }

abbrev other : Uint256
other = record { w0 = 6; w1 = 0x8000000000000000; w2 = 7; w3 = 9 }

value-shl_example : value (shl sample 65) ≡ value sample * 2 ^ 65 % 2 ^ 256
value-shl_example = value-shl sample 65 (omega arith)

cmp-value_example : cmp sample other ≡ compare (value sample) (value other)
cmp-value_example = cmp-value sample other (omega arith) (omega arith)

abbrev some_bytes : List ℕ
some_bytes = 1 ∷ 255 ∷ replicate 30 7
