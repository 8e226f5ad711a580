-- ===== src/Stratum/Connect.antt =====
-- src/client/stratum.rs: the handler that `connect` makes. The statistics of the shares are
-- static: they outlive a connection, while the ids of the messages begin at 0 again.
use cryptix_miner_test.Base.{◌%◌, ◌-◌, Bool, List, Option, [], ◌^◌, arith, none, refl, some, ℕ, ◌≡◌}
use cryptix_miner_test.Pow.{PartialBlock, partial_block}
use cryptix_miner_test.Stratum.{ShareStats, StratumHandler}
use cryptix_miner_test.Stratum.Codec.{StratumLine}
use cryptix_miner_test.Stratum.Nonce.Partition.{HasPartition, whole_space}
use cryptix_miner_test.Stratum.Shares.{insert, lookup, submit}
use cryptix_miner_test.Stratum.Shares.Accounting.{IsMap, accounted, length-remove}
use cryptix_miner_test.Stratum.Session.{devfund_enabled, pay_address, register, should_mine_dev}
use cryptix_miner_test.Stratum.Session.Conserved.{Sound}

-- `ShareStats::default()`
abbrev pub no_shares : ShareStats
no_shares = record { accepted = 0; stale = 0; low_diff = 0; duplicate = 0; shares_pending = [] }

-- `SHARE_STATS`, which the first connection makes.
unfoldable pub share_state : Option ShareStats → ShareStats
share_state none = no_shares
share_state (some stats) = stats

-- `connect`, once the socket is open; `next_u64` is the number that `thread_rng` gives.
unfoldable pub connect : List ℕ → Bool → Option ℕ → ℕ → Option ShareStats → StratumHandler
unfolding share_state
connect miner_address mine_when_not_synced block_template_ctr next_u64 stats = record {
  miner_address = miner_address;
  mine_when_not_synced = mine_when_not_synced;
  devfund_address = none;
  devfund_percent = 0;
  mining_dev = none;
  block_template_ctr = elim block_template_ctr [
    | none ↦ next_u64 % 10_000 % 2 ^ 16
    | some ctr ↦ ctr
  ];
  target_pool = record { w0 = 0; w1 = 0; w2 = 0; w3 = 0 };
  target_real = record { w0 = 0; w1 = 0; w2 = 0; w3 = 0 };
  nonce_mask = 2 ^ 64 - 1;
  nonce_fixed = 0;
  extranonce = none;
  last_stratum_id = 0;
  shares_stats = share_state stats;
  submit_worker = miner_address;
}

module _ (miner_address : List ℕ) (mine_when_not_synced : Bool) (block_template_ctr : Option ℕ)
    (next_u64 : ℕ) where
  -- A new handler partitions the nonces.
  pub connect-HasPartition :
      (stats : Option ShareStats)
      → HasPartition (connect miner_address mine_when_not_synced block_template_ctr next_u64 stats)
  unfolding connect
  connect-HasPartition stats = whole_space

  -- In the first connection no share waits.
  pub connect-Sound :
      Sound (connect miner_address mine_when_not_synced block_template_ctr next_u64 none)
  unfolding connect share_state
  connect-Sound = record { is_map = unfold IsMap in tt; unused = λ k le. unfold lookup in refl }

  -- A share waits under id 2 when a connection is lost: the first share that is sent after the
  -- next connection has registered takes its place, so that the number of shares on record does
  -- not grow, and the share that waited is on record no more.
  pub reconnect_overwrites :
      (agent job : List ℕ) (stats : ShareStats) (seed : PartialBlock)
      → IsMap stats.shares_pending
      → lookup 2 stats.shares_pending ≡ some job
      → let h =
          connect miner_address mine_when_not_synced block_template_ctr next_u64 (some stats) in
        (h' h'' : StratumHandler) × (lines : List StratumLine) × (line : StratumLine) × (register
            agent h
          ≡ some (h', lines))
        × (submit h' (partial_block seed) ≡ some (h'', line))
        × (lookup 2 h''.shares_stats.shares_pending ≡ some seed.id)
        × (accounted h''.shares_stats ≡ accounted stats)
  unfolding connect share_state register pay_address should_mine_dev devfund_enabled submit insert
  reconnect_overwrites agent job stats seed i e = (
    _,
    _,
    _,
    _,
    refl,
    refl,
    unfold lookup in refl,
    omega (arith, length-remove 2 stats.shares_pending i e),
  )
