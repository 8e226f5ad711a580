-- ===== src/Pow.antt =====
-- src/pow.rs: the block seeds that a client hands to the miner. A `RpcBlock` is read for its
-- header alone; its transactions travel with it and are not modelled.
pub mod Hasher
pub mod Xoshiro
pub mod Matrix
pub mod Octonion
pub mod Tables
pub mod HeavyHash
pub mod State
pub mod Report
use cryptix_miner_test.Base.{List, Option, ℕ}
use cryptix_miner_test.Header.{RpcBlockHeader}
use cryptix_miner_test.Target.{Uint256}

pub record RpcBlock : Type 0 where
  pub header : Option RpcBlockHeader

-- The fields of `BlockSeed::PartialBlock`.
pub record PartialBlock : Type 0 where
  pub id : List ℕ
  pub header_hash : Uint256
  pub timestamp : ℕ
  pub nonce : ℕ
  pub target : Uint256
  pub nonce_mask : ℕ
  pub nonce_fixed : ℕ
  pub hash : Option (List ℕ)

pub data BlockSeed : Type 0 where
  full_block : RpcBlock → BlockSeed
  partial_block : PartialBlock → BlockSeed
