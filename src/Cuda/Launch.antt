-- ===== src/Cuda/Launch.antt =====
-- plugins/cuda/src/worker.rs: how a CUDA worker chooses its kernel and its workload, and how it
-- judges a launch. The crate `cust`, which drives the device, and the floats are parameters.
pub mod Workload
use cryptix_miner_test.Base.{
  Bool, ◌%◌, ◌&&◌, ◌*◌, ◌+◌, ◌-◌, ◌/◌, ◌==◌, List, Option, [], ◌^◌, if◌then◌else◌, leb, ltb, none,
  some, ◌||◌, ℕ, ◌∷◌, false, not,
}
use cryptix_miner_test.Cuda.Autotune.{Floats, AutotuneShared, record_sample}
use cryptix_miner_test.Cuda.Options.{
  KernelVariant, baseline, high_occupancy, low_register, NonceGenEnum, lean, xoshiro,
}

-- The texts of the kernel, by the compute capability that they are built for.
pub data Ptx : Type 0 where
  ptx_90 : Ptx
  ptx_89 : Ptx
  ptx_87 : Ptx
  ptx_86 : Ptx
  ptx_80 : Ptx
  ptx_75 : Ptx
  ptx_72 : Ptx
  ptx_70 : Ptx
  ptx_70_high_occ : Ptx
  ptx_70_low_reg : Ptx
  ptx_62 : Ptx
  ptx_61 : Ptx
  ptx_60 : Ptx
  ptx_52 : Ptx
  ptx_50 : Ptx

-- The text for capability 7.0 of a variant.
unfoldable pub volta_ptx : KernelVariant → Ptx
volta_ptx baseline = ptx_70
volta_ptx high_occupancy = ptx_70_high_occ
volta_ptx low_register = ptx_70_low_reg

-- The text that `CudaGPUWorker::new` loads; `none` is its error.
unfoldable pub choose_ptx : ℕ → ℕ → KernelVariant → Option Ptx
unfolding volta_ptx
choose_ptx major minor kernel_variant =
    if leb 9 major || ((major == 9) && (minor == 0))
    then some ptx_90
    else if leb 8 major && (minor == 9)
    then some ptx_89
    else if leb 8 major && (minor == 7)
    then some ptx_87
    else if leb 8 major && (minor == 6)
    then some ptx_86
    else if leb 8 major && (minor == 0)
    then some ptx_80
    else if leb 7 major && (minor == 5)
    then some ptx_75
    else if leb 7 major && (minor == 2)
    then some ptx_72
    else if leb 7 major && (minor == 0)
    then some (volta_ptx kernel_variant)
    else if leb 6 major && (minor == 2)
    then some ptx_62
    else if leb 6 major && (minor == 1)
    then some ptx_61
    else if leb 6 major && (minor == 0)
    then some ptx_60
    else if leb 5 major && (minor == 2)
    then some ptx_52
    else if leb 5 major
    then some ptx_50
    else none

-- `Kernel`, without its function.
pub record Kernel : Type 0 where
  pub block_size : ℕ
  pub grid_size : ℕ

-- What the driver says of the loaded function and its device.
pub record Launch : Type 0 where
  pub suggested_block_size : ℕ
  pub multiprocessor_count : ℕ
  pub max_active_blocks : ℕ

-- `Kernel::new`
unfoldable pub new_kernel : Launch → Kernel
new_kernel launch = record {
  block_size = launch.suggested_block_size;
  grid_size = launch.multiprocessor_count * launch.max_active_blocks % 2 ^ 32;
}

-- `Kernel::get_workload`
unfoldable pub get_workload : Kernel → ℕ
get_workload self = self.block_size * self.grid_size % 2 ^ 32

-- `Kernel::set_workload`, which divides at u32 and panics on a block size of 0.
unfoldable pub set_workload : Kernel → ℕ → Option Kernel
set_workload self workload =
    if self.block_size == 0
    then none
    else some (record self {
      grid_size = ((workload + self.block_size) % 2 ^ 32 + (2 ^ 32 - 1)) % 2 ^ 32 / self.block_size;
    })

-- The workload before it is scaled; without `is_absolute` it starts at 0, so that the kernel's own
-- takes its place.
unfoldable pub base_workload : Bool → Kernel → ℕ
unfolding get_workload
base_workload is_absolute kernel = if is_absolute then 1 else get_workload kernel

-- The parts of `CudaGPUWorker` that its own code reads and changes.
pub record CudaGpuWorker : Type 0 where
  pub heavy_hash_kernel : Kernel
  pub rand_state : List ℕ
  pub final_nonce_buff : ℕ
  pub workload : ℕ
  pub random : NonceGenEnum

-- The arguments of a launch, with the grid and the block.
pub record HeavyHashCall : Type 0 where
  pub grid_size : ℕ
  pub block_size : ℕ
  pub nonce_mask : ℕ
  pub nonce_fixed : ℕ
  pub workload : ℕ
  pub random : ℕ

-- `scale` is the product of a workload and an f32, given as bits, cast back to a u32; `states` are
-- the first states of the generator's jump sequence.
module _ (scale : ℕ → ℕ → ℕ) (states : ℕ → List ℕ) where
  -- The worker that `CudaGPUWorker::new` makes of the loaded function; `seed` is the random word.
  unfoldable pub new_worker : Launch → ℕ → Bool → NonceGenEnum → ℕ → Option CudaGpuWorker
  unfolding new_kernel base_workload set_workload
  new_worker launch workload is_absolute random seed =
      let kernel = new_kernel launch in
      let chosen_workload = scale (base_workload is_absolute kernel) workload in
      elim (set_workload kernel chosen_workload) [
        | none ↦ none
        | some sized ↦ some (record {
          heavy_hash_kernel = sized;
          rand_state = elim random [ xoshiro ↦ states chosen_workload | lean ↦ seed ∷ [] ];
          final_nonce_buff = 0;
          workload = chosen_workload;
          random = random;
        })
      ]

abbrev call_of : CudaGpuWorker → ℕ → ℕ → ℕ → HeavyHashCall
call_of self nonce_mask nonce_fixed random = record {
  grid_size = self.heavy_hash_kernel.grid_size;
  block_size = self.heavy_hash_kernel.block_size;
  nonce_mask = nonce_mask;
  nonce_fixed = nonce_fixed;
  workload = self.workload;
  random = random;
}

-- `calculate_hash`: the worker and the launch; `seed` is the random word.
unfoldable pub calculate_hash : CudaGpuWorker → ℕ → ℕ → ℕ → CudaGpuWorker × HeavyHashCall
calculate_hash self nonce_mask nonce_fixed seed =
    let cleared : CudaGpuWorker = record self { final_nonce_buff = 0 } in
    elim self.random [
      | lean ↦ (record cleared { rand_state = seed ∷ [] }, call_of self nonce_mask nonce_fixed 0)
      | xoshiro ↦ (cleared, call_of self nonce_mask nonce_fixed 1)
    ]

module _ (floats : Floats) where
  -- The time between the two events of a launch, in seconds, beside the workload as a float, and
  -- whether it is above the 1000 ms of a block.
  pub record Elapsed : Type 0 where
    pub hashes : floats.F
    pub secs : floats.F
    pub is_late : Bool

  -- `sync` at the time `now_ns`: the samples, and whether it succeeds; an event that cannot be
  -- waited for or read has no time.
  unfoldable pub sync :
      ℕ → Option (AutotuneShared floats) → Option Elapsed → Option (AutotuneShared floats) × Bool
  sync now_ns shared none = (shared, false)
  sync now_ns none (some elapsed) = (none, not elapsed.is_late)
  sync now_ns (some shared) (some elapsed) =
      (some (record_sample floats now_ns shared elapsed.hashes elapsed.secs), not elapsed.is_late)
