-- ===== src/Miner/Gpu.antt =====
-- src/miner.rs: the thread of a GPU worker, over the device that its plugin drives.
pub mod Run
pub mod Sync
use cryptix_miner_test.Base.{
  ℕ, ◌%◌, ◌+◌, ◌==◌, Bool, List, Option, [], ◌∷◌, ◌^◌, false, if◌then◌else◌, none, not, some, true,
}
use cryptix_miner_test.Target.{Uint256}
use cryptix_miner_test.Pow.{BlockSeed}
use cryptix_miner_test.Pow.State.{State, Hashes, generate_block_if_pow}
use cryptix_miner_test.Watch.{Result, ok, channel_closed}
use cryptix_miner_test.Miner.{WorkerCommand, job, close, after_block}

-- The traits `WorkerSpec` and `Worker` of src/lib.rs, as a plugin fills them: `none` is a panic of
-- `build`, `load_block_constants` or `calculate_hash`; `sync` gives false for an error, and
-- `copy_output_to` gives `none` for one and the first nonce of the output otherwise.
pub record Device : Type 1 where
  pub Worker : Type 0
  pub WorkerSpec : Type 0
  pub build : WorkerSpec → Option Worker
  pub load_block_constants : Worker → List ℕ → List (List ℕ) → Uint256 → Option Worker
  pub calculate_hash : Worker → ℕ → ℕ → Option Worker
  pub sync : Worker → Worker × Bool
  pub get_workload : Worker → ℕ
  pub copy_output_to : Worker → Worker × Option ℕ

-- What the channel has for a turn: the result of `wait_for_change`, read without a state only, and
-- that of `get_changed`, read at the end only.
pub record Offer : Type 0 where
  pub waited : Result (Option WorkerCommand)
  pub changed : Result (Option (Option WorkerCommand))

module _ (device : Device) where
  -- The state of the loop. `hashes_tried` is shared among the workers; here no other adds to it.
  pub record GpuWorker : Type 0 where
    pub gpu : device.Worker
    pub fallback_spec : Option device.WorkerSpec
    pub state : Option State
    pub hashes_tried : ℕ
    pub worker_hashes_tried : ℕ

  -- How a turn of the loop ends: the next turn, the end of the thread, or its error.
  pub data GpuTurn : Type 0 where
    goes_on : GpuWorker → GpuTurn
    stops : GpuTurn
    fails : GpuTurn

  abbrev new_worker : device.Worker → Option device.WorkerSpec → GpuWorker
  new_worker gpu fallback_spec = record {
    gpu = gpu;
    fallback_spec = fallback_spec;
    state = none;
    hashes_tried = 0;
    worker_hashes_tried = 0;
  }

  -- The worker that the thread starts with; `none` is the thread's error.
  unfoldable pub start : device.WorkerSpec → Option device.WorkerSpec → Option GpuWorker
  start spec fallback_spec = elim (device.build spec) [
    | some gpu ↦ some (new_worker gpu fallback_spec)
    | none ↦ elim fallback_spec [
      | none ↦ none
      | some fallback ↦ elim (device.build fallback) [
        | none ↦ none
        | some gpu ↦ some (new_worker gpu none)
      ]
    ]
  ]

  -- `if let Some(fallback) = fallback_spec.take()`, and what the turn does without a fallback.
  unfoldable pub switch : GpuWorker → GpuTurn → GpuTurn
  switch w otherwise = elim w.fallback_spec [
    | none ↦ otherwise
    | some fallback ↦ elim (device.build fallback) [
      | none ↦ fails
      | some gpu ↦ goes_on (record w { gpu = gpu; fallback_spec = none })
    ]
  ]

  -- `load_to_gpu` and `pow_gpu` of src/pow.rs, under `catch_unwind`.
  unfoldable pub load_and_pow : device.Worker → State → Option device.Worker
  load_and_pow gpu s = elim (device.load_block_constants gpu s.pow_hash_header s.matrix s.target) [
    | none ↦ none
    | some loaded ↦ device.calculate_hash loaded s.nonce_mask s.nonce_fixed
  ]

  -- The two `fetch_add`s of the device's workload.
  unfoldable pub count : GpuWorker → GpuWorker
  count w =
      let workload = device.get_workload w.gpu in
      record w {
        hashes_tried = (w.hashes_tried + workload) % 2 ^ 64;
        worker_hashes_tried = (w.worker_hashes_tried + workload) % 2 ^ 64;
      }

  -- The poll at the end of a turn.
  unfoldable pub poll : GpuWorker → Result (Option (Option WorkerCommand)) → GpuTurn
  poll w channel_closed = fails
  poll w (ok none) = goes_on w
  poll w (ok (some (some close))) = stops
  poll w (ok (some (some (job s)))) = goes_on (record w { state = some s })
  poll w (ok (some none)) = goes_on (record w { state = none })

  module _ (hashes : Hashes) where
    -- What a turn does with the nonce of the output; 0 is none.
    unfoldable pub read_nonce :
        GpuWorker → State → ℕ → Result (Option (Option WorkerCommand)) → Option BlockSeed × GpuTurn
    unfolding count poll
    read_nonce w s nonce changed =
        if nonce == 0
        then (none, poll (count w) changed)
        else elim (generate_block_if_pow hashes s nonce) [
          | none ↦ (none, stops)
          | some block_seed ↦ (
            some block_seed,
            goes_on (count (record w { state = after_block s (some block_seed) })),
          )
        ]

    -- The turn after the launch: the wait for the device, and its output.
    unfoldable pub collect :
        GpuWorker → State → Result (Option (Option WorkerCommand)) → Option BlockSeed × GpuTurn
    unfolding switch read_nonce
    collect w s changed =
        let (gpu, synced) = device.sync w.gpu in
        let waited = record w { gpu = gpu } in
        let (read, output) = device.copy_output_to gpu in
        let done = record w { gpu = read } in
        if not synced then (none, switch waited (goes_on waited)) else elim output [
          | none ↦ (none, switch done fails)
          | some nonce ↦ read_nonce done s nonce changed
        ]

    -- A turn with a state: the block that is sent, and the end of the turn.
    unfoldable pub launch :
        GpuWorker → State → Result (Option (Option WorkerCommand)) → Option BlockSeed × GpuTurn
    unfolding load_and_pow collect
    launch w s changed = elim (load_and_pow w.gpu s) [
      | none ↦ (none, switch w fails)
      | some gpu ↦ collect (record w { gpu = gpu }) s changed
    ]

    -- A turn of the loop.
    unfoldable pub gpu_turn : GpuWorker → Offer → Option BlockSeed × GpuTurn
    unfolding launch
    gpu_turn w offer = elim w.state [
      | some s ↦ launch w s offer.changed
      | none ↦ elim offer.waited [
        | channel_closed ↦ (none, stops)
        | ok none ↦ (none, goes_on w)
        | ok (some close) ↦ (none, stops)
        | ok (some (job s)) ↦ launch (record w { state = some s }) s offer.changed
      ]
    ]

    abbrev sent : Option BlockSeed → List BlockSeed → List BlockSeed
    sent none rest = rest
    sent (some b) rest = b ∷ rest

    -- The loop over the turns that the list has offers for: the blocks that are sent, and how the
    -- last turn ends.
    unfoldable pub gpu_run : GpuWorker → List Offer → List BlockSeed × GpuTurn
    gpu_run w [] = ([], goes_on w)
    gpu_run w (offer ∷ offers) =
        let (block, next) = gpu_turn w offer in
        elim next [
          | stops ↦ (sent block [], stops)
          | fails ↦ (sent block [], fails)
          | goes_on w' ↦ let (blocks, end) = gpu_run w' offers in (sent block blocks, end)
        ]
