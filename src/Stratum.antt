-- ===== src/Stratum.antt =====
-- src/client/stratum.rs: the client of a stratum pool. This file has the handler's state;
-- the children have its operations.
pub mod Codec
pub mod Lines
pub mod Nonce
pub mod Difficulty
pub mod Shares
pub mod Session
pub mod Connect
use cryptix_miner_test.Base.{Bool, List, Option, ℕ}
use cryptix_miner_test.Target.{Uint256}

-- `ShareStats`; the map of pending shares is an association list, newest first.
pub record ShareStats : Type 0 where
  pub accepted : ℕ
  pub stale : ℕ
  pub low_diff : ℕ
  pub duplicate : ℕ
  pub shares_pending : List (ℕ × List ℕ)

-- `StratumHandler`, without its channels, its stream and its task handles.
pub record StratumHandler : Type 0 where
  pub miner_address : List ℕ
  pub mine_when_not_synced : Bool
  pub devfund_address : Option (List ℕ)
  pub devfund_percent : ℕ
  pub mining_dev : Option Bool
  pub block_template_ctr : ℕ
  pub target_pool : Uint256
  pub target_real : Uint256
  pub nonce_mask : ℕ
  pub nonce_fixed : ℕ
  pub extranonce : Option (List ℕ)
  pub last_stratum_id : ℕ
  pub shares_stats : ShareStats
  pub submit_worker : List ℕ

-- What a fallible method of the handler returns; `panicked` is an abort of the task.
pub data Reply : Type 0 where
  done : Reply
  failed : Reply
  panicked : Reply
