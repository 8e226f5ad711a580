-- ===== src/Examples/PoolCases.antt =====
-- A conversation with a pool, and the job that comes of it.
use cryptix_miner_test.Base.{ℕ, List, Option, [], ◌∷◌, false, none, some, true}
use cryptix_miner_test.Base.Text.{codes}
use cryptix_miner_test.Miner.{MinerManager}
use cryptix_miner_test.Miner.Pool.{JobPartition, miner_environment, listen-JobPartition}
use cryptix_miner_test.Stratum.Codec
use cryptix_miner_test.Stratum.Codec.{
  StratumLine, stratum_command, set_extranonce_plain_eth, mining_notify, mining_notify_short,
}
use cryptix_miner_test.Stratum.Nonce.Partition.{HasPartition, whole_space}
use cryptix_miner_test.Stratum.Session.{listen}
use cryptix_miner_test.Examples.PowCases.{hashes}
use cryptix_miner_test.Examples.StratumCases.{handler}

abbrev manager : MinerManager
manager = record {
  is_synced = false;
  current_state_id = 0;
  block_channel = record { value = none; id = 1; receivers_count = 2; sender_alive = true };
}

abbrev line : Codec.StratumCommand → Option StratumLine
line c = some (record { id = none; payload = stratum_command c; jsonrpc = none; error = none })

abbrev lines : List (Option StratumLine)
lines =
    line (Codec.set_extranonce (set_extranonce_plain_eth (codes "ab12")))
    ∷ line (mining_notify (mining_notify_short (codes "j") 1 2 3 4 1000))
    ∷ []

abbrev no_hex : List ℕ → Option (List ℕ)
no_hex text = none

listen-JobPartition_example :
    let ended = listen (miner_environment hashes no_hex false) handler manager lines in
    HasPartition ended.0 × JobPartition ended.1
listen-JobPartition_example =
    listen-JobPartition hashes no_hex false handler manager lines whole_space tt
