-- ===== src/Miner/Pool.antt =====
-- src/client/stratum.rs, src/pow.rs and src/miner.rs together: from the pool's lines to the job that
-- the channel hands to the workers.
use cryptix_miner_test.Base.{
  ℕ, Bool, inl, inr, Bool-cases, List, Option, none, some, ◌==◌, refl, ◌≡◌,
}
use cryptix_miner_test.Pow.{BlockSeed}
use cryptix_miner_test.Pow.State.{Hashes, Built, built, missing_header, no_matrix, new_state}
use cryptix_miner_test.Pow.State.Search.{SeedPartition, new_state-BuiltFrom}
use cryptix_miner_test.Watch.{Result, ok, channel_closed, Shared, send, replace_value}
use cryptix_miner_test.Miner.{
  WorkerCommand, job, close, MinerManager, process_block, process_built, Result,
}
use cryptix_miner_test.Stratum
use cryptix_miner_test.Stratum.{StratumHandler, Reply}
use cryptix_miner_test.Stratum.Codec.{StratumLine}
use cryptix_miner_test.Stratum.Nonce.Partition.{IsPartition, HasPartition}
use cryptix_miner_test.Stratum.Session.{Environment, listen}
use cryptix_miner_test.Stratum.Session.Partitions.{listen-Kept}

abbrev pub CommandPartition : Option WorkerCommand → Type 0
CommandPartition none = Unit
CommandPartition (some close) = Unit
CommandPartition (some (job s)) = IsPartition s.nonce_mask s.nonce_fixed

-- The job that the channel has is searched in a partition.
abbrev pub JobPartition : MinerManager → Type 0
JobPartition m = CommandPartition m.block_channel.value

abbrev SentPartition : MinerManager × Reply → Type 0
SentPartition sent = JobPartition sent.0

-- A conversation with this miner. One that searches for a matrix for longer than the fuel does not
-- come back, and the conversation stops there.
abbrev pub or_stuck : MinerManager → Option (MinerManager × Reply) → MinerManager × Reply
or_stuck m none = (m, Stratum.panicked)
or_stuck m (some r) = r

abbrev pub miner_environment : Hashes → (List ℕ → Option (List ℕ)) → Bool → Environment
miner_environment hashes hex_decode overflow_checks = record {
  Miner = MinerManager;
  process_block = λ m b. or_stuck m (process_block hashes m b);
  hex_decode = hex_decode;
  overflow_checks = overflow_checks;
}

send-CommandPartition :
    (s : Shared (Option WorkerCommand)) (c : Option WorkerCommand)
    → CommandPartition s.value
    → CommandPartition c
    → CommandPartition (send s c).0.value
unfolding send replace_value
send-CommandPartition s c old new = elim (Bool-cases (s.receivers_count == 0)) [
  | inl e ↦ rw (send, e) old
  | inr e ↦ rw (send, e) new
]

process_built-JobPartition :
    (hashes : Hashes) (m self : MinerManager) (b : BlockSeed) (id : ℕ) (x : Built)
    → JobPartition m
    → JobPartition self
    → SeedPartition b
    → new_state hashes id b ≡ x
    → JobPartition (or_stuck m (process_built hashes self x)).0
unfolding process_built
process_built-JobPartition hashes m self b id (built s) old p seed e =
    sent_channel (send self.block_channel (some (job s))).0
      (send self.block_channel (some (job s))).1
      (send-CommandPartition self.block_channel (some (job s)) p
        (new_state-BuiltFrom hashes id b s seed e).partition_is)
  where
    sent_channel :
        (c : Shared (Option WorkerCommand)) (r : Result Unit)
        → CommandPartition c.value
        → SentPartition (elim r [
          | ok x ↦ (record self { block_channel = c }, Stratum.done)
          | channel_closed ↦ (record self { block_channel = c }, Stratum.failed)
        ])
    sent_channel c (ok x) kept = kept
    sent_channel c channel_closed kept = kept
process_built-JobPartition hashes m self b id missing_header old p seed e = p
process_built-JobPartition hashes m self b id Built.panicked old p seed e = p
process_built-JobPartition hashes m self b id no_matrix old p seed e = old

pub process_block-JobPartition :
    (hashes : Hashes) (m : MinerManager) (b : BlockSeed)
    → JobPartition m
    → SeedPartition b
    → JobPartition (or_stuck m (process_block hashes m (some b))).0
unfolding process_block
process_block-JobPartition hashes m b old seed =
    process_built-JobPartition hashes m _ b m.current_state_id
      (new_state hashes m.current_state_id b) old old seed refl

-- When the nonces of the handler are partitioned, and the channel has no job or one whose mask and
-- fixed bits are a partition: whatever lines the pool sends, both are so at the end of them, also
-- when a line fails or panics.
pub listen-JobPartition :
    (hashes : Hashes) (hex_decode : List ℕ → Option (List ℕ)) (overflow_checks : Bool)
    (h : StratumHandler) (m : MinerManager) (lines : List (Option StratumLine))
    → HasPartition h
    → JobPartition m
    → let ended = listen (miner_environment hashes hex_decode overflow_checks) h m lines in
      HasPartition ended.0 × JobPartition ended.1
listen-JobPartition hashes hex_decode overflow_checks =
    listen-Kept (miner_environment hashes hex_decode overflow_checks) JobPartition
      (process_block-JobPartition hashes)
