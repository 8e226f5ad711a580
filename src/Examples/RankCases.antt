-- ===== src/Examples/RankCases.antt =====
-- The job of a pool's seed whose first matrix has full rank, by the elimination of `compute_rank` over
-- the numbers modulo 97 in the place of the floats.
use cryptix_miner_test.Base.{ℕ, ◌+◌, ◌-◌, ◌*◌, ◌%◌, ◌^◌, ◌==◌, not, false, none, true}
use cryptix_miner_test.Base.Text.{codes}
use cryptix_miner_test.Pow.{BlockSeed, partial_block}
use cryptix_miner_test.Pow.Matrix.Rank.{Floats, compute_rank}
use cryptix_miner_test.Pow.State.{Hashes, State}
use cryptix_miner_test.Stratum
use cryptix_miner_test.Miner.{MinerManager}
use cryptix_miner_test.Target.{Uint256}
use cryptix_miner_test.Examples.PowCases.{hashes}

abbrev modulo_97 : Floats
modulo_97 = record {
  F = ℕ;
  from_u8 = λ n. n;
  divide = λ x y. x * (y ^ 95 % 97) % 97;
  minus = λ x y. (x + 97 - y) % 97;
  times = λ x y. x * y % 97;
  is_big = λ x. not (x == 0);
}

abbrev ranking : Hashes
ranking = record hashes { compute_rank = compute_rank modulo_97 }

abbrev pool_hash : Uint256
pool_hash = record { w0 = 1; w1 = 2; w2 = 3; w3 = 4 }

abbrev pool_seed : BlockSeed
pool_seed = partial_block (record {
  id = codes "job";
  header_hash = pool_hash;
  timestamp = 1;
  nonce = 0;
  target = record { w0 = 0; w1 = 0; w2 = 0; w3 = 9 };
  nonce_mask = 2 ^ 48 - 1;
  nonce_fixed = 2 ^ 48;
  hash = none;
})

abbrev busy_manager : MinerManager
busy_manager = record {
  is_synced = false;
  current_state_id = 6;
  block_channel = record { value = none; id = 3; receivers_count = 2; sender_alive = true };
}
