-- ===== src/Opencl/Worker/Turn.antt =====
-- A turn of a GPU thread with an OpenCL worker: src/miner.rs loads the block, runs the kernel, waits
-- and reads the nonces (plugins/opencl/src/worker.rs).
use cryptix_miner_test.Base.{
  List, Option, [], length, some, true, ℕ, ◌∷◌, ◌≡◌, ap, inl, inr, refl, sym, ◌∙◌, ◌⊎◌, false,
  if◌then◌else◌, none,
}
use cryptix_miner_test.Base.Fallible.{◌>>=◌}
use cryptix_miner_test.Pow.Matrix.Nibbles.{IsMatrix}
use cryptix_miner_test.Cuda.Options.{NonceGenEnum, lean, xoshiro}
use cryptix_miner_test.Opencl.Worker.{
  Driver, HeavyHashCall, HeavyHashOutput, OpenclGpuWorker, calculate_hash, copy_output_to,
  load_block_constants, sync, reseed, random_type, each_event,
}
use cryptix_miner_test.Opencl.Worker.Matrix.{
  IsAllocated, Writes, elements, load_block_constants-Holds, write_whole,
}

-- A driver that answers: writes and reads that fit succeed, events can be kept and waited for, and
-- the kernel runs on the arguments of a call, without a change of its buffers' sizes.
pub record Answers (driver : Driver) (kernel : HeavyHashCall → HeavyHashOutput) : Type 0 where
  pub writes : Writes driver
  pub reads : (buffer : List ℕ) → driver.enqueue_read_buffer buffer (length buffer) ≡ some buffer
  pub retains : (event : ℕ) → driver.retain_event event ≡ true
  pub releases : (event : ℕ) → driver.release_event event ≡ true
  pub waits : (events : List ℕ) → driver.wait_for_events events ≡ true
  pub runs : (call : HeavyHashCall) → driver.execute_kernel call ≡ some (kernel call)
  pub nonce_size :
      (call : HeavyHashCall) → length (kernel call).final_nonce ≡ length call.final_nonce
  pub state_size :
      (call : HeavyHashCall) → length (kernel call).random_state ≡ length call.random_state

-- Allocated, with a random number where one is wanted.
pub record IsReady (self : OpenclGpuWorker) : Type 0 where
  pub allocated : IsAllocated self
  pub seeded : self.random ≡ lean → length self.random_state ≡ 1

abbrev map_some : Option (List ℕ) → Option (Option (List ℕ))
map_some none = none
map_some (some nonces) = some (some nonces)

-- The calls that a turn of the thread makes: the worker, and the nonces, which are not read when
-- `sync` fails.
unfoldable pub opencl_turn :
    Driver
    → OpenclGpuWorker
    → List ℕ
    → List (List ℕ)
    → List ℕ
    → ℕ
    → ℕ
    → ℕ
    → ℕ
    → Option (OpenclGpuWorker × Option (List ℕ))
opencl_turn driver self hash_header matrix target copy_target next_u64 nonce_mask nonce_fixed = do
  loaded ← load_block_constants driver self hash_header matrix target copy_target
  ran ← calculate_hash driver loaded next_u64 nonce_mask nonce_fixed
  synced ← sync driver ran
  nonces ← if synced then map_some (copy_output_to driver ran 1) else some none
  some (ran, nonces)

-- A call of the kernel on a job, with a byte for each element of the matrix.
pub record IsCallOf (self : OpenclGpuWorker) (hash_header : List ℕ) (matrix : List (List ℕ))
    (target : List ℕ) (nonce_mask nonce_fixed : ℕ) (call : HeavyHashCall) : Type 0 where
  pub header_is : call.hash_header ≡ hash_header
  pub matrix_is : call.matrix ≡ elements matrix
  pub target_is : call.target ≡ target
  pub mask_is : call.nonce_mask ≡ nonce_mask
  pub fixed_is : call.nonce_fixed ≡ nonce_fixed
  pub no_nonce : call.final_nonce ≡ 0 ∷ []
  pub threads : call.global_work_size ≡ self.workload

NonceGenEnum-cases : (r : NonceGenEnum) → (r ≡ lean) ⊎ (r ≡ xoshiro)
NonceGenEnum-cases lean = inl refl
NonceGenEnum-cases xoshiro = inr refl

module _ (driver : Driver) (kernel : HeavyHashCall → HeavyHashOutput)
    (a : Answers driver kernel) where
  reseed_lem :
      (self : OpenclGpuWorker) (next_u64 : ℕ)
      → IsReady self
      → (random_state : List ℕ) × (reseed driver self next_u64 ≡ some random_state)
        × (self.random ≡ lean → length random_state ≡ 1)
  unfolding reseed
  reseed_lem self next_u64 r = elim (NonceGenEnum-cases self.random) [
    | inl e ↦ (
      next_u64 ∷ [],
      rw (reseed, e)
          (write_whole driver self.random_state (next_u64 ∷ []) a.writes (sym (r.seeded e))),
      λ e'. refl,
    )
    | inr e ↦ (self.random_state, rw (reseed, e) refl, r.seeded)
  ]

  each_event-released :
      (events : List ℕ) → each_event driver driver.release_event events ≡ some true
  unfolding each_event
  each_event-released [] = refl
  each_event-released (event ∷ events) = rw (a.releases event, each_event-released events) refl

  abbrev call_on : OpenclGpuWorker → List ℕ → ℕ → ℕ → HeavyHashCall
  call_on self random_state nonce_mask nonce_fixed = record {
    local_size = self.local_size;
    nonce_mask = nonce_mask;
    nonce_fixed = nonce_fixed;
    hash_header = self.hash_header;
    matrix = self.matrix;
    target = self.target;
    random_type = random_type driver self.random;
    random_state = random_state;
    final_nonce = self.final_nonce;
    final_hash = self.final_hash;
    global_work_size = self.workload;
    event_wait_list = self.events;
  }

  -- The kernel runs on what the device holds, and its nonce is read.
  calculate_hash_lem :
      (self : OpenclGpuWorker) (next_u64 nonce_mask nonce_fixed : ℕ)
      → IsReady self
      → (random_state : List ℕ) × (self' : OpenclGpuWorker) × (calculate_hash driver self next_u64
            nonce_mask nonce_fixed
          ≡ some self')
        × (sync driver self' ≡ some true)
        × (copy_output_to driver self' 1
            ≡ some (kernel (call_on self random_state nonce_mask nonce_fixed)).final_nonce)
        × IsReady self'
  unfolding calculate_hash sync copy_output_to
  calculate_hash_lem self next_u64 nonce_mask nonce_fixed r =
      let (random_state, made, one) = reseed_lem self next_u64 r in
      let call : HeavyHashCall = call_on self random_state nonce_mask nonce_fixed in
      let size : length (kernel call).final_nonce ≡ 1 =
        a.nonce_size call ∙ r.allocated.final_nonce_length in
      (
        random_state,
        record self {
          random_state = (kernel call).random_state;
          final_nonce = (kernel call).final_nonce;
          final_hash = (kernel call).final_hash;
        },
        rw (calculate_hash, made, a.runs call) refl,
        rw (a.waits self.events) (each_event-released self.events),
        ap (driver.enqueue_read_buffer (kernel call).final_nonce) (sym size)
            ∙ a.reads (kernel call).final_nonce,
        record {
          allocated = record {
            final_nonce_length = size;
            hash_header_length = r.allocated.hash_header_length;
            matrix_length = r.allocated.matrix_length;
            target_length = r.allocated.target_length;
          };
          seeded = λ e. a.state_size call ∙ one e;
        },
      )

  -- On a driver that answers, for a worker that does not pack the matrix, with its buffers allocated:
  -- a turn with a job succeeds, and the worker is ready for the next one. The nonces that are read
  -- are those that the kernel leaves, run once over the whole workload on exactly this job: its
  -- header, its matrix, a byte for each element, its target, its mask and fixed bits, and no nonce
  -- of an earlier job.
  pub opencl_turn-IsCallOf :
      (self : OpenclGpuWorker) (hash_header : List ℕ) (matrix : List (List ℕ)) (target : List ℕ)
      (copy_target next_u64 nonce_mask nonce_fixed : ℕ)
      → IsReady self
      → self.experimental_amd ≡ false
      → length hash_header ≡ 72
      → IsMatrix matrix
      → length target ≡ 4
      → (call : HeavyHashCall) × (self' : OpenclGpuWorker) × (opencl_turn driver self hash_header
            matrix target copy_target next_u64 nonce_mask nonce_fixed
          ≡ some (self', some (kernel call).final_nonce))
        × IsCallOf self hash_header matrix target nonce_mask nonce_fixed call
        × IsReady self'
  unfolding opencl_turn
  opencl_turn-IsCallOf self hash_header matrix target copy_target next_u64 nonce_mask nonce_fixed r
        plain h m t =
      let (loaded, load, holds, allocated, keeps) =
        load_block_constants-Holds driver self hash_header matrix target copy_target a.writes
          (a.retains copy_target) r.allocated h m t in
      let ready : IsReady loaded = record {
        allocated = allocated;
        seeded = λ e. ap length keeps.same_state ∙ r.seeded (sym keeps.same_random ∙ e);
      } in
      let (random_state, self', ran, synced, read, again) =
        calculate_hash_lem loaded next_u64 nonce_mask nonce_fixed ready in
      (
        call_on loaded random_state nonce_mask nonce_fixed,
        self',
        rw (opencl_turn, load, ran, synced, read) refl,
        record {
          header_is = holds.header;
          matrix_is = holds.matrix_is (keeps.same_packing ∙ plain);
          target_is = holds.target_is;
          mask_is = refl;
          fixed_is = refl;
          no_nonce = holds.no_nonce;
          threads = keeps.same_workload;
        },
        again,
      )
