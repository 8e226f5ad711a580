-- ===== src/Opencl/Build.antt =====
-- plugins/opencl/src/worker.rs: how a worker is made, from a binary of the device or from the
-- source of the kernel. Names of devices are ASCII texts. `build` of lib.rs turns an error into a
-- panic, and both are `none`.
pub mod Ready
use cryptix_miner_test.Base.{
  ◌%◌, ◌&&◌, ◌*◌, ◌++◌, Bool, List, Option, [], ◌^◌, false, if◌then◌else◌, map, none, not, some,
  true, ◌||◌, ℕ, ◌∷◌,
}
use cryptix_miner_test.Base.Fallible.{◌>>=◌}
use cryptix_miner_test.Base.Text.{codes}
use cryptix_miner_test.Base.Ascii.{
  decimal_u32, eq_text, is_ascii_alphanumeric, split_once, to_ascii_lowercase, to_ascii_uppercase,
}
use cryptix_miner_test.Jump.{Xoshiro256StarStar, iter_jump_state}
use cryptix_miner_test.Cuda.Options.{NonceGenEnum, lean, xoshiro}
use cryptix_miner_test.Opencl.Options.{or_default}
use cryptix_miner_test.Opencl.Worker.{Driver, OpenclGpuWorker}

-- A device, by the answers of `opencl3`; `none` is an error. Every device has a platform, of which
-- the name is asked.
pub record Device : Type 0 where
  pub name : Option (List ℕ)
  pub platform_name : Option (List ℕ)
  pub max_work_group_size : Option ℕ
  pub max_compute_units : Option ℕ
  pub compute_capability_major_nv : Option ℕ
  pub compute_capability_minor_nv : Option ℕ
  pub pcie_id_amd : Option ℕ

-- What a program is built from: the bytes of a binary, or the source with options.
pub data Program : Type 0 where
  of_binary : List ℕ → Program
  of_source : List ℕ → Program

-- What `new` has of `opencl3`, of the directory of binaries and of the floats. A workload is an
-- f32, given by its bits: `scaled` is its product with a number, cast back.
pub record Runtime : Type 0 where
  pub cl_mad_enable : List ℕ
  pub cl_finite_math_only : List ℕ
  pub get_file : List ℕ → Option (List ℕ)
  pub build_from_binary : List ℕ → Bool
  pub build_from_source : List ℕ → Bool
  pub context_from_device : Bool
  pub create_kernel : Program → Bool
  pub create_queue : Bool
  pub try_fill : Bool
  pub create_buffer : ℕ → Option (List ℕ)
  pub map_buffer : List ℕ → List ℕ → Option (List ℕ)
  pub as_usize : ℕ → ℕ
  pub scaled : ℕ → ℕ → ℕ

abbrev pub to_lowercase : List ℕ → List ℕ
to_lowercase text = map to_ascii_lowercase text

-- The macro that names the platform.
unfoldable pub platform_macro : List ℕ → List ℕ
platform_macro name =
    map (λ c. to_ascii_uppercase (if is_ascii_alphanumeric c then c else b'_')) (to_lowercase name)

abbrev define_number : List ℕ → Option ℕ → List ℕ
define_number name none = []
define_number name (some n) = codes "-D " ++ (name ++ (codes "=" ++ (decimal_u32 n ++ codes " ")))

abbrev define_amd : Device → List ℕ
define_amd device = elim device.pcie_id_amd [
  | none ↦ []
  | some id ↦
      codes "-D OPENCL_PLATFORM_AMD -D __"
      ++ (to_lowercase (or_default (codes "Unknown") device.name) ++ codes "__ ")
]

-- The options that `from_source` compiles with.
unfoldable pub compile_options : Runtime → Device → List ℕ → List ℕ
unfolding platform_macro decimal_u32
compile_options runtime device options =
    options
    ++ (runtime.cl_mad_enable
        ++ (runtime.cl_finite_math_only
            ++ (codes "-cl-std=CL1.2 -D"
                ++ (platform_macro (or_default (codes "Unknown") device.platform_name)
                    ++ (codes " "
                        ++ (define_number (codes "__COMPUTE_MAJOR__")
                              device.compute_capability_major_nv
                            ++ (define_number (codes "__COMPUTE_MINOR__")
                                  device.compute_capability_minor_nv
                                ++ define_amd device)))))))

-- `from_source`, with its `unwrap_or_else`.
unfoldable pub from_source : Runtime → Device → List ℕ → Option Program
unfolding compile_options
from_source runtime device options =
    let text = compile_options runtime device options in
    if runtime.build_from_source text then some (of_source text) else none

-- The options of `new`.
abbrev pub options_of : Bool → List ℕ
options_of true = codes "-D __FORCE_AMD_V_DOT8_U32_U4__=1 "
options_of false = []

-- The program from the source, and `use_binary` reset.
unfoldable pub compile : Runtime → Device → Bool → Option (Program × Bool)
unfolding from_source
compile runtime device experimental_amd = do
  program ← from_source runtime device (options_of experimental_amd)
  some (program, false)

-- The name of the file with the binary of a device.
unfoldable pub binary_file : Device → List ℕ
binary_file device =
    let device_name = to_lowercase (or_default (codes "Unknown") device.name) in
    elim (split_once b':' device_name) [ none ↦ device_name | some (first, rest) ↦ first ]
    ++ codes "_cryptix-opencl.bin"

-- `program`, and `use_binary` after it.
unfoldable pub build_program : Runtime → Device → Bool → Bool → Option (Program × Bool)
unfolding compile binary_file
build_program runtime device experimental_amd use_binary =
    let compiled : Option (Program × Bool) = compile runtime device experimental_amd in
    if use_binary
    then elim (runtime.get_file (binary_file device)) [
      | none ↦ compiled
      | some binary ↦
          if runtime.build_from_binary binary then some (of_binary binary, true) else compiled
    ]
    else compiled

-- `experimental_amd_use`
unfoldable pub experimental_amd_use : Device → Bool
experimental_amd_use device =
    let name = to_lowercase (or_default (codes "Unknown") device.name) in
    not (
      eq_text name (codes "tahiti")
      || eq_text name (codes "ellesmere")
      || eq_text name (codes "gfx1010")
      || eq_text name (codes "gfx906")
      || eq_text name (codes "gfx908"))

-- `chosen_workload`
unfoldable pub chosen_workload : Runtime → Device → ℕ → ℕ → Bool → Option ℕ
chosen_workload runtime device local_size workload true = some (runtime.as_usize workload)
chosen_workload runtime device local_size workload false = do
  units ← device.max_compute_units
  some (runtime.scaled workload (local_size * units % 2 ^ 64))

abbrev pub words_of : List Xoshiro256StarStar → List ℕ
words_of [] = []
words_of (s ∷ states) = s.s0 ∷ s.s1 ∷ s.s2 ∷ s.s3 ∷ words_of states

-- `random_state`; `seed` and `next_u64` are what the random generator gives.
unfoldable pub random_state_of :
    Runtime → Driver → NonceGenEnum → ℕ → Xoshiro256StarStar → ℕ → Option (List ℕ)
random_state_of runtime driver xoshiro workload seed next_u64 = do
  buffer ← runtime.create_buffer (4 * workload % 2 ^ 64)
  runtime.map_buffer buffer (words_of (iter_jump_state workload seed))
random_state_of runtime driver lean workload seed next_u64 = do
  buffer ← runtime.create_buffer 1
  driver.enqueue_write_buffer buffer (next_u64 ∷ [])

-- A call of `opencl3` or of the random generator that gives a handle or fails.
abbrev pub expect : Bool → Option Bool
expect true = some true
expect false = none

-- `OpenCLGPUWorker::new`, with the program of its kernel. The buffer of the hash is that of its
-- four words.
unfoldable pub new :
    Runtime
    → Driver
    → Device
    → ℕ
    → Bool
    → Bool
    → Bool
    → NonceGenEnum
    → Xoshiro256StarStar
    → ℕ
    → Option (OpenclGpuWorker × Program)
unfolding chosen_workload build_program random_state_of experimental_amd_use
new runtime driver device workload is_absolute experimental_amd use_binary random seed next_u64 = do
  local_size ← device.max_work_group_size
  chosen ← chosen_workload runtime device local_size workload is_absolute
  context ← expect runtime.context_from_device
  built ← build_program runtime device experimental_amd use_binary
  kernel ← expect (runtime.create_kernel built.0)
  queue ← expect runtime.create_queue
  final_nonce ← runtime.create_buffer 1
  final_hash ← runtime.create_buffer 4
  hash_header ← runtime.create_buffer 72
  matrix ← runtime.create_buffer (64 * 64)
  target ← runtime.create_buffer 4
  filled ← expect runtime.try_fill
  random_state ← random_state_of runtime driver random chosen seed next_u64
  some (
    record {
      random = random;
      local_size = local_size;
      workload = chosen;
      random_state = random_state;
      final_nonce = final_nonce;
      final_hash = final_hash;
      hash_header = hash_header;
      matrix = matrix;
      target = target;
      events = [];
      experimental_amd = (experimental_amd || built.1) && experimental_amd_use device;
    },
    built.0,
  )
