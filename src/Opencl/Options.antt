-- ===== src/Opencl/Options.antt =====
-- plugins/opencl/src/lib.rs: the platform, the devices and the specs of the plugin. What the
-- OpenCL runtime reports is a parameter, and a panic is `none`.
pub mod Choice
pub mod Specs
pub mod Started
use cryptix_miner_test.Base.{
  ◌&&◌, Bool, List, Option, [], false, if◌then◌else◌, length, none, not, some, suc, true, ℕ, ◌∷◌,
}
use cryptix_miner_test.Base.Fallible.{◌>>=◌}
use cryptix_miner_test.Base.Text.{codes}
use cryptix_miner_test.Base.Ascii.{eq_text}
use cryptix_miner_test.Cuda.Options.{NonceGenEnum, get, pick_indexed}

-- `OpenCLOpt`. A workload is a float, kept as its bits.
pub record OpenclOpt : Type 0 where
  pub opencl_platform : Option ℕ
  pub opencl_device : Option (List ℕ)
  pub opencl_workload : Option (List ℕ)
  pub opencl_workload_absolute : Bool
  pub opencl_enable : Bool
  pub opencl_disable : Bool
  pub opencl_amd_disable : Bool
  pub opencl_no_amd_binary : Bool
  pub experimental_amd : Bool
  pub opencl_nonce_gen : NonceGenEnum

-- A platform, by the answers of `vendor` and `get_devices`; `none` is an error. A device id is a
-- handle.
pub record Platform : Type 0 where
  pub vendor : Option (List ℕ)
  pub devices : Option (List ℕ)

pub record OpenclWorkerSpec : Type 0 where
  pub platform : Platform
  pub index : ℕ
  pub device_id : ℕ
  pub workload : ℕ
  pub is_absolute : Bool
  pub experimental_amd : Bool
  pub use_amd_binary : Bool
  pub random : NonceGenEnum

-- The plugin: whether it is enabled, and its specs.
pub record OpenclPlugin : Type 0 where
  pub enabled : Bool
  pub specs : List OpenclWorkerSpec

abbrev pub or_default {ℓ} : {A : Type ℓ} → A → Option A → A
or_default d none = d
or_default d (some x) = x

abbrev pub has_any {ℓ} : {A : Type ℓ} → List A → Bool
has_any [] = false
has_any (x ∷ xs) = true

-- The test of the filter that gives `amd_platforms`.
unfoldable pub is_amd : Platform → Bool
is_amd p =
    eq_text (or_default (codes "Unk") p.vendor) (codes "Advanced Micro Devices, Inc.")
    && has_any (or_default [] p.devices)

unfoldable pub amd_platforms : List Platform → List Platform
unfolding is_amd
amd_platforms [] = []
amd_platforms (p ∷ ps) = let rest = amd_platforms ps in if is_amd p then p ∷ rest else rest

-- `_platform`; an index out of range panics.
unfoldable pub choose_platform : OpenclOpt → List Platform → Option Platform
unfolding amd_platforms
choose_platform opts platforms = elim opts.opencl_platform [
  | some idx ↦ get platforms idx
  | none ↦
      if not opts.opencl_amd_disable && has_any (amd_platforms platforms)
      then get (amd_platforms platforms) 0
      else get platforms 0
]

-- `dev.iter().map(|d| device_ids[*d as usize])`
unfoldable pub pick_devices : List ℕ → List ℕ → Option (List ℕ)
pick_devices device_ids [] = some []
pick_devices device_ids (d ∷ ds) = do
  id ← get device_ids d
  rest ← pick_devices device_ids ds
  some (id ∷ rest)

unfoldable pub gpus_of : OpenclOpt → List ℕ → Option (List ℕ)
unfolding pick_devices
gpus_of opts device_ids = elim opts.opencl_device [
  | some dev ↦ pick_devices device_ids dev
  | none ↦ some device_ids
]

-- `DEFAULT_WORKLOAD_SCALE`, 512 as an f32.
abbrev pub default_workload_scale : ℕ
default_workload_scale = 0x44000000

unfoldable pub spec_of : OpenclOpt → Platform → ℕ → ℕ → OpenclWorkerSpec
unfolding pick_indexed
spec_of opts platform i gpu = record {
  platform = platform;
  index = i;
  device_id = gpu;
  workload = or_default default_workload_scale (pick_indexed opts.opencl_workload i);
  is_absolute = opts.opencl_workload_absolute;
  experimental_amd = opts.experimental_amd;
  use_amd_binary = not opts.opencl_no_amd_binary;
  random = opts.opencl_nonce_gen;
}

unfoldable pub specs_from : OpenclOpt → Platform → ℕ → List ℕ → List OpenclWorkerSpec
unfolding spec_of
specs_from opts platform i [] = []
specs_from opts platform i (gpu ∷ gpus) =
    spec_of opts platform i gpu ∷ specs_from opts platform (suc i) gpus

abbrev pub off : OpenclPlugin × ℕ
off = (record { enabled = false; specs = [] }, 0)

-- `process_option` from the list of platforms on, which is not empty.
unfoldable pub enable : OpenclOpt → List Platform → Option (OpenclPlugin × ℕ)
unfolding choose_platform gpus_of specs_from
enable opts platforms = do
  platform ← choose_platform opts platforms
  device_ids ← platform.devices
  gpus ← gpus_of opts device_ids
  let specs = specs_from opts platform 0 gpus
  some (record { enabled = true; specs = specs }, length specs)

-- `process_option`: the plugin, and the number of workers. `get_platforms` is the runtime's list,
-- or its error.
unfoldable pub process_option :
    OpenclPlugin → OpenclOpt → Option (List Platform) → Option (OpenclPlugin × ℕ)
unfolding enable
process_option self opts get_platforms =
    if opts.opencl_disable then some off else elim get_platforms [
      | none ↦ some off
      | some [] ↦ some off
      | some (p ∷ ps) ↦ enable opts (p ∷ ps)
    ]
