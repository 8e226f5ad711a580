-- ===== src/Miner/Jobs.antt =====
-- src/miner.rs and src/pow.rs together: from a block that a client hands to the manager to the job
-- of the workers.
use cryptix_miner_test.Base.{
  ◌<◌, ◌==◌, Bool, Option, ap, arith, false, if◌then◌else◌, refl, true, ◌≡◌,
}
use cryptix_miner_test.Watch.{Result, Shared, channel_closed, ok, replace_value, send}
use cryptix_miner_test.Pow.State.{State}
use cryptix_miner_test.Stratum
use cryptix_miner_test.Stratum.{Reply}
use cryptix_miner_test.Miner.{MinerManager, WorkerCommand, send_all}

-- A send to a channel with a receiver.
pub send_all-done :
    (self : MinerManager) (c : Option WorkerCommand)
    → 0 < self.block_channel.receivers_count
    → send_all self c
      ≡ (record self { block_channel = replace_value self.block_channel c }, Stratum.done)
unfolding send
send_all-done self c pos =
    ap ended (sent (self.block_channel.receivers_count == 0) (ground (arith, pos)))
  where
    ended : Shared (Option WorkerCommand) × Result Unit → MinerManager × Reply
    ended (s, r) = elim r [
      | ok x ↦ (record self { block_channel = s }, Stratum.done)
      | channel_closed ↦ (record self { block_channel = s }, Stratum.failed)
    ]

    sent :
        (b : Bool)
        → b ≡ false
        → ◌≡◌ {A = Shared (Option WorkerCommand) × Result Unit}
            (if b
              then (self.block_channel, channel_closed)
              else (replace_value self.block_channel c, ok tt))
            (replace_value self.block_channel c, ok tt)
    sent true e = absurd (ground (arith, e))
    sent false e = refl
