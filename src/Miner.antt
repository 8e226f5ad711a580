-- ===== src/Miner.antt =====
-- src/miner.rs: the manager that turns seeds into work, and the loop of a CPU worker. The state
-- that a seed gives, and the search of a nonce, are those of src/pow.rs.
pub mod Gpu
pub mod Pool
pub mod Specs
pub mod Worker
pub mod Manager
pub mod Jobs
pub mod Client
use cryptix_miner_test.Base.{
  ℕ, ◌%◌, ◌+◌, ◌==◌, Bool, Option, ◌^◌, bit_and, bit_or, false, if◌then◌else◌, none, not, some,
  true,
}
use cryptix_miner_test.Pow.{BlockSeed, full_block, partial_block}
use cryptix_miner_test.Pow.State.{
  State, Hashes, Built, built, missing_header, panicked, no_matrix, new_state,
  generate_block_if_pow,
}
use cryptix_miner_test.Watch.{Shared, Result, ok, channel_closed, send}
use cryptix_miner_test.Stratum.{Reply}
use cryptix_miner_test.Stratum

-- `WorkerCommand`
pub data WorkerCommand : Type 0 where
  job : State → WorkerCommand
  close : WorkerCommand

-- `MinerManager`: the flag, the counter of states, and the channel to the workers.
pub record MinerManager : Type 0 where
  pub is_synced : Bool
  pub current_state_id : ℕ
  pub block_channel : Shared (Option WorkerCommand)

-- The state of a CPU worker's loop.
pub record CpuWorker : Type 0 where
  pub nonce : ℕ
  pub mask : ℕ
  pub fixed : ℕ
  pub state : Option State
  pub hashes_tried : ℕ

-- How a turn of the loop ends: the next turn, the end of the thread, or its failure.
pub data Turn : Type 0 where
  goes_on : CpuWorker → Turn
  stops : Turn
  fails : Turn

-- The nonce that a worker tries: `(nonce & mask) | fixed`.
abbrev pub nonce_of : CpuWorker → ℕ
nonce_of w = bit_or (bit_and w.nonce w.mask) w.fixed

-- The part of a turn without a state: what `wait_for_change` returns is the new state, with its
-- mask and its fixed bits.
unfoldable pub receive : CpuWorker → Result (Option WorkerCommand) → Turn
receive w channel_closed = stops
receive w (ok (some close)) = stops
receive w (ok (some (job s))) =
    goes_on (record w { state = some s; mask = s.nonce_mask; fixed = s.nonce_fixed })
receive w (ok none) = goes_on (record w { state = none })

-- The poll at the end of a turn, by what `get_changed` returns.
unfoldable pub poll : CpuWorker → Result (Option (Option WorkerCommand)) → Turn
poll w channel_closed = fails
poll w (ok none) = goes_on w
poll w (ok (some (some close))) = stops
poll w (ok (some (some (job s)))) = goes_on (record w { state = some s })
poll w (ok (some none)) = goes_on (record w { state = none })

-- `if let BlockSeed::FullBlock(_) = block_seed { state = None; }`
unfoldable pub after_block : State → Option BlockSeed → Option State
after_block s none = some s
after_block s (some (full_block block)) = none
after_block s (some (partial_block seed)) = some s

-- A send to all workers, and what the caller makes of its result.
abbrev pub send_all : MinerManager → Option WorkerCommand → MinerManager × Reply
send_all self state =
    let (channel, sent) = send self.block_channel state in
    let self' : MinerManager = record self { block_channel = channel } in
    elim sent [ ok x ↦ (self', Stratum.done) | channel_closed ↦ (self', Stratum.failed) ]

module _ (hashes : Hashes) where
  -- The search of a turn with a state: the block that is sent, and the worker before the poll.
  unfoldable pub search_nonce : CpuWorker → State → Option BlockSeed × CpuWorker
  unfolding after_block
  search_nonce w s =
      let nonce = nonce_of w in
      let found = generate_block_if_pow hashes s nonce in
      (
        found,
        record w {
          nonce = (nonce + 1) % 2 ^ 64;
          state = after_block s found;
          hashes_tried = (w.hashes_tried + 1) % 2 ^ 64;
        },
      )

  -- A turn with a state; the channel is polled when the next nonce is a multiple of 128.
  unfoldable pub mine_turn :
      CpuWorker → State → Result (Option (Option WorkerCommand)) → Option BlockSeed × Turn
  unfolding search_nonce poll
  mine_turn w s changed =
      let (found, w') = search_nonce w s in
      (found, if w'.nonce % 128 == 0 then poll w' changed else goes_on w')

  -- What a seed becomes; `none` is a search for a matrix that does not end on the fuel.
  unfoldable pub process_built : MinerManager → Built → Option (MinerManager × Reply)
  process_built self (built s) = some (send_all self (some (job s)))
  process_built self missing_header = some (self, Stratum.failed)
  process_built self panicked = some (self, Stratum.panicked)
  process_built self no_matrix = none

  -- `process_block`
  unfoldable pub process_block : MinerManager → Option BlockSeed → Option (MinerManager × Reply)
  unfolding process_built
  process_block self (some b) =
      process_built
        (record self { is_synced = true; current_state_id = (self.current_state_id + 1) % 2 ^ 64 })
        (new_state hashes self.current_state_id b)
  process_block self none =
      if not self.is_synced
      then some (self, Stratum.done)
      else some (send_all (record self { is_synced = false }) none)
