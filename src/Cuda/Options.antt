-- ===== src/Cuda/Options.antt =====
-- plugins/cuda/src/lib.rs: what each GPU gets of the lists of options, in a build with the feature
-- `overclock`.
use cryptix_miner_test.Base.{
  ℕ, ◌%◌, ◌*◌, ◌++◌, Bool, List, Option, [], ◌^◌, false, if◌then◌else◌, length, ltb, max, none, not,
  some, suc, tabulate_from, true, zero, ◌∷◌,
}
use cryptix_miner_test.Cuda.Autotune.{AutotuneConfig}

module _ {ℓ} {A : Type ℓ} where
  abbrev pub get : List A → ℕ → Option A
  get [] i = none
  get (x ∷ xs) zero = some x
  get (x ∷ xs) (suc i) = get xs i

  abbrev pub last_of : List A → Option A
  last_of [] = none
  last_of (x ∷ []) = some x
  last_of (x ∷ y ∷ xs) = last_of (y ∷ xs)

  -- `pick_indexed`, and the same match for the other options: the value at the GPU's place, or the
  -- last one.
  unfoldable pub pick_indexed : Option (List A) → ℕ → Option A
  pick_indexed none i = none
  pick_indexed (some v) i = if ltb i (length v) then get v i else last_of v

-- `KernelVariant`, whose default is the first.
pub data KernelVariant : Type 0 where
  baseline : KernelVariant
  high_occupancy : KernelVariant
  low_register : KernelVariant

-- `NonceGenEnum`
pub data NonceGenEnum : Type 0 where
  lean : NonceGenEnum
  xoshiro : NonceGenEnum

-- `pick_kernel_variant`
unfoldable pub pick_kernel_variant : Option (List KernelVariant) → ℕ → KernelVariant
unfolding pick_indexed
pick_kernel_variant values i = elim (pick_indexed values i) [ none ↦ baseline | some v ↦ v ]

-- `CudaOpt` and its overclock options. A workload is a float, kept as its bits.
pub record CudaOpt : Type 0 where
  pub cuda_device : Option (List ℕ)
  pub cuda_workload : Option (List ℕ)
  pub cuda_workload_absolute : Bool
  pub cuda_disable : Bool
  pub cuda_no_blocking_sync : Bool
  pub cuda_nonce_gen : NonceGenEnum
  pub cuda_kernel_variant : Option (List KernelVariant)
  pub cuda_lock_core_clocks : Option (List ℕ)
  pub cuda_lock_mem_clocks : Option (List ℕ)
  pub cuda_power_limits : Option (List ℕ)
  pub cuda_autotune : Bool
  pub cuda_autotune_interval_secs : ℕ
  pub cuda_autotune_power_step_watts : ℕ
  pub cuda_autotune_min_power_watts : Option (List ℕ)
  pub cuda_autotune_max_power_watts : Option (List ℕ)
  pub cuda_autotune_max_temp_c : ℕ

-- `max_power_w`, which falls back on the static limit.
unfoldable pub autotune_max : CudaOpt → ℕ → Option ℕ
autotune_max opts i = elim (pick_indexed opts.cuda_autotune_max_power_watts i) [
  | none ↦ pick_indexed opts.cuda_power_limits i
  | some w ↦ some w
]

-- `build_autotune_setting`
unfoldable pub build_autotune_setting : CudaOpt → ℕ → Option AutotuneConfig
unfolding autotune_max
build_autotune_setting opts i =
    if opts.cuda_autotune
    then some (record {
      interval_secs = opts.cuda_autotune_interval_secs;
      step_w = max opts.cuda_autotune_power_step_watts 1;
      min_power_w = pick_indexed opts.cuda_autotune_min_power_watts i;
      max_power_w = autotune_max opts i;
      max_temp_c = opts.cuda_autotune_max_temp_c;
    })
    else none

pub record CudaWorkerSpec : Type 0 where
  pub device_id : ℕ
  pub workload : ℕ
  pub is_absolute : Bool
  pub blocking_sync : Bool
  pub random : NonceGenEnum
  pub kernel_variant : KernelVariant
  pub autotune : Option AutotuneConfig

-- What a GPU's static settings ask of NVML, in this order, for the GPU's own options.
pub data Overclock : Type 0 where
  set_mem_locked_clocks : ℕ → ℕ → Overclock
  set_gpu_locked_clocks : ℕ → ℕ → Overclock
  set_power_management_limit : ℕ → ℕ → Overclock

abbrev each : Option ℕ → (ℕ → Overclock) → List Overclock → List Overclock
each none f rest = rest
each (some x) f rest = f x ∷ rest

-- The turn of the loop for the GPU at place i.
unfoldable pub overclock_gpu : CudaOpt → ℕ → ℕ → List Overclock
overclock_gpu opts i gpu =
    each (pick_indexed opts.cuda_lock_mem_clocks i) (λ lmc. set_mem_locked_clocks gpu lmc)
      (each (pick_indexed opts.cuda_lock_core_clocks i) (λ lcc. set_gpu_locked_clocks gpu lcc)
        (each (pick_indexed opts.cuda_power_limits i)
          (λ pl. set_power_management_limit gpu (pl * 1000 % 2 ^ 32)) []))

unfoldable pub overclock_from : CudaOpt → ℕ → List ℕ → List Overclock
unfolding overclock_gpu
overclock_from opts i [] = []
overclock_from opts i (gpu ∷ gpus) = overclock_gpu opts i gpu ++ overclock_from opts (suc i) gpus

-- `DEFAULT_WORKLOAD_SCALE`, 1024 as an f32.
abbrev pub default_workload_scale : ℕ
default_workload_scale = 0x44800000

unfoldable pub spec_of : CudaOpt → ℕ → ℕ → CudaWorkerSpec
unfolding pick_indexed pick_kernel_variant build_autotune_setting
spec_of opts i gpu = record {
  device_id = gpu;
  workload = elim (pick_indexed opts.cuda_workload i) [
    | none ↦ default_workload_scale
    | some w ↦ w
  ];
  is_absolute = opts.cuda_workload_absolute;
  blocking_sync = not opts.cuda_no_blocking_sync;
  random = opts.cuda_nonce_gen;
  kernel_variant = pick_kernel_variant opts.cuda_kernel_variant i;
  autotune = build_autotune_setting opts i;
}

unfoldable pub specs_from : CudaOpt → ℕ → List ℕ → List CudaWorkerSpec
unfolding spec_of
specs_from opts i [] = []
specs_from opts i (gpu ∷ gpus) = spec_of opts i gpu ∷ specs_from opts (suc i) gpus

-- The plugin: whether it is enabled, and its specs.
pub record CudaPlugin : Type 0 where
  pub enabled : Bool
  pub specs : List CudaWorkerSpec

abbrev pub gpus_of : CudaOpt → ℕ → List ℕ
gpus_of opts num_devices = elim opts.cuda_device [
  | some devices ↦ devices
  | none ↦ tabulate_from 0 (num_devices % 2 ^ 16) (λ i. i)
]

-- `process_option`, when every device of the list opens: the plugin, the calls of NVML, and the
-- number of workers.
unfoldable pub process_option : CudaPlugin → CudaOpt → ℕ → CudaPlugin × List Overclock × ℕ
unfolding overclock_from specs_from
process_option self opts num_devices =
    if opts.cuda_disable
    then (record self { enabled = false }, [], length self.specs)
    else let gpus = gpus_of opts num_devices in
      let specs = specs_from opts 0 gpus in
      (record { enabled = true; specs = specs }, overclock_from opts 0 gpus, length specs)
