-- ===== src/Opencl/Worker.antt =====
-- plugins/opencl/src/worker.rs: what a worker writes to its device and reads of it. A buffer is the
-- list of its elements. The calls of `opencl3` are parameters, and a panic is `none`.
pub mod Matrix
pub mod Turn
use cryptix_miner_test.Base.{
  ◌%◌, ◌*◌, ◌++◌, Bool, List, Option, [], ◌^◌, bit_or, false, if◌then◌else◌, none, some, true, ℕ,
  ◌∷◌,
}
use cryptix_miner_test.Base.Fallible.{◌>>=◌}
use cryptix_miner_test.Cuda.Options.{NonceGenEnum, lean, xoshiro}

-- The parts of `OpenCLGPUWorker` that its own code reads and changes.
pub record OpenclGpuWorker : Type 0 where
  pub random : NonceGenEnum
  pub local_size : ℕ
  pub workload : ℕ
  pub random_state : List ℕ
  pub final_nonce : List ℕ
  pub final_hash : List ℕ
  pub hash_header : List ℕ
  pub matrix : List ℕ
  pub target : List ℕ
  pub events : List ℕ
  pub experimental_amd : Bool

-- The arguments of the kernel, in their order, with the size of the launch and the events that it
-- waits for.
pub record HeavyHashCall : Type 0 where
  pub local_size : ℕ
  pub nonce_mask : ℕ
  pub nonce_fixed : ℕ
  pub hash_header : List ℕ
  pub matrix : List ℕ
  pub target : List ℕ
  pub random_type : ℕ
  pub random_state : List ℕ
  pub final_nonce : List ℕ
  pub final_hash : List ℕ
  pub global_work_size : ℕ
  pub event_wait_list : List ℕ

-- What the kernel leaves in its buffers.
pub record HeavyHashOutput : Type 0 where
  pub random_state : List ℕ
  pub final_nonce : List ℕ
  pub final_hash : List ℕ

-- The calls of `opencl3`: a blocking write at offset 0, which gives the buffer after it, and a
-- blocking read of some elements; `none` and false are errors.
pub record Driver : Type 0 where
  pub enqueue_write_buffer : List ℕ → List ℕ → Option (List ℕ)
  pub enqueue_read_buffer : List ℕ → ℕ → Option (List ℕ)
  pub execute_kernel : HeavyHashCall → Option HeavyHashOutput
  pub retain_event : ℕ → Bool
  pub release_event : ℕ → Bool
  pub wait_for_events : List ℕ → Bool

-- The two nibbles of each pair of elements, in a byte; `chunks_exact` leaves a last odd one.
unfoldable pub pack : List ℕ → List ℕ
pack [] = []
pack (a ∷ []) = []
pack (a ∷ b ∷ rest) = bit_or (a * 2 ^ 4 % 2 ^ 8) b ∷ pack rest

abbrev pub flat_map : (List ℕ → List ℕ) → List (List ℕ) → List ℕ
flat_map f [] = []
flat_map f (row ∷ rows) = f row ++ flat_map f rows

-- `cl_uchar_matrix`
unfoldable pub cl_uchar_matrix : Bool → List (List ℕ) → List ℕ
unfolding pack
cl_uchar_matrix true matrix = flat_map pack matrix
cl_uchar_matrix false matrix = flat_map (λ row. row) matrix

module _ (driver : Driver) where
  open driver use {
    enqueue_write_buffer, enqueue_read_buffer, execute_kernel, retain_event, release_event,
    wait_for_events,
  }

  -- The loop of `unwrap`s over the events.
  unfoldable pub each_event : (ℕ → Bool) → List ℕ → Option Bool
  each_event f [] = some true
  each_event f (event ∷ events) = let rest = each_event f events in if f event then rest else none

  -- `load_block_constants`; `copy_target` is the event of the last write.
  unfoldable pub load_block_constants :
      OpenclGpuWorker → List ℕ → List (List ℕ) → List ℕ → ℕ → Option OpenclGpuWorker
  unfolding cl_uchar_matrix each_event
  load_block_constants self hash_header matrix target copy_target = do
    final_nonce ← enqueue_write_buffer self.final_nonce (0 ∷ [])
    header_buffer ← enqueue_write_buffer self.hash_header hash_header
    matrix_buffer ← enqueue_write_buffer self.matrix (cl_uchar_matrix self.experimental_amd matrix)
    target_buffer ← enqueue_write_buffer self.target target
    retained ← each_event retain_event (copy_target ∷ [])
    some (record self {
      final_nonce = final_nonce;
      hash_header = header_buffer;
      matrix = matrix_buffer;
      target = target_buffer;
      events = copy_target ∷ [];
    })

  abbrev random_type : NonceGenEnum → ℕ
  random_type lean = 0
  random_type xoshiro = 1

  unfoldable pub reseed : OpenclGpuWorker → ℕ → Option (List ℕ)
  reseed self next_u64 = elim self.random [
    | lean ↦ enqueue_write_buffer self.random_state (next_u64 ∷ [])
    | xoshiro ↦ some self.random_state
  ]

  -- `calculate_hash`; `next_u64` is the number that `thread_rng` gives.
  unfoldable pub calculate_hash : OpenclGpuWorker → ℕ → ℕ → ℕ → Option OpenclGpuWorker
  unfolding reseed
  calculate_hash self next_u64 nonce_mask nonce_fixed = do
    random_state ← reseed self next_u64
    output ← execute_kernel (record {
      local_size = self.local_size;
      nonce_mask = nonce_mask;
      nonce_fixed = nonce_fixed;
      hash_header = self.hash_header;
      matrix = self.matrix;
      target = self.target;
      random_type = random_type self.random;
      random_state = random_state;
      final_nonce = self.final_nonce;
      final_hash = self.final_hash;
      global_work_size = self.workload;
      event_wait_list = self.events;
    })
    some (record self {
      random_state = output.random_state;
      final_nonce = output.final_nonce;
      final_hash = output.final_hash;
    })

  -- `sync`: false is its error.
  unfoldable pub sync : OpenclGpuWorker → Option Bool
  unfolding each_event
  sync self =
      let released = each_event release_event self.events in
      if wait_for_events self.events then released else some false

  -- `get_workload`
  abbrev pub get_workload : OpenclGpuWorker → ℕ
  get_workload self = self.workload

  -- `copy_output_to`, into a vector of n elements.
  unfoldable pub copy_output_to : OpenclGpuWorker → ℕ → Option (List ℕ)
  copy_output_to self n = enqueue_read_buffer self.final_nonce n
