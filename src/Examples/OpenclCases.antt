-- ===== src/Examples/OpenclCases.antt =====
-- The OpenCL plugin on two platforms, and a worker of a concrete device.
use cryptix_miner_test.Base.{
  All, List, [], arith, false, length, none, refl, some, suc, zero, ℕ, ◌∷◌, ◌≡◌, ◌*◌, ◌++◌, ◌==◌,
  drop, if◌then◌else◌, leb, length-replicate, replicate, take, true, ◌≤◌,
}
use cryptix_miner_test.Base.Text.{codes}
use cryptix_miner_test.Jump.{Xoshiro256StarStar}
use cryptix_miner_test.Cuda.Options.{lean}
use cryptix_miner_test.Pow.Matrix.Nibbles.{IsNibble, IsRow}
use cryptix_miner_test.Opencl.Options.{OpenclOpt, Platform}
use cryptix_miner_test.Opencl.Options.Started.{Started}
use cryptix_miner_test.Opencl.Worker.{Driver, OpenclGpuWorker}
use cryptix_miner_test.Opencl.Worker.Matrix.{IsAllocated, Writes}
use cryptix_miner_test.Opencl.Build.{Device, Runtime}

abbrev opencl_opts : OpenclOpt
opencl_opts = record {
  opencl_platform = none;
  opencl_device = some (1 ∷ 0 ∷ []);
  opencl_workload = some (0x43000000 ∷ []);
  opencl_workload_absolute = false;
  opencl_enable = false;
  opencl_disable = false;
  opencl_amd_disable = false;
  opencl_no_amd_binary = false;
  experimental_amd = false;
  opencl_nonce_gen = lean;
}

abbrev other_platform : Platform
other_platform = record { vendor = some (codes "Intel"); devices = some (70 ∷ 71 ∷ []) }

abbrev amd_platform : Platform
amd_platform = record {
  vendor = some (codes "Advanced Micro Devices, Inc.");
  devices = some (90 ∷ 91 ∷ []);
}

abbrev both_platforms : List Platform
both_platforms = other_platform ∷ amd_platform ∷ []

abbrev pub opencl_driver : Driver
opencl_driver = record {
  enqueue_write_buffer = λ buffer xs.
      if leb (length xs) (length buffer) then some (xs ++ drop (length xs) buffer) else none;
  enqueue_read_buffer = λ buffer n. some (take n buffer);
  execute_kernel = λ call. some (record {
    random_state = call.random_state;
    final_nonce = 5 ∷ [];
    final_hash = call.final_hash;
  });
  retain_event = λ event. true;
  release_event = λ event. true;
  wait_for_events = λ events. true;
}

le-leb : (m n : ℕ) → m ≤ n → leb m n ≡ true
le-leb m n le = ground (arith, le)

pub opencl_driver-Writes : Writes opencl_driver
opencl_driver-Writes = record {
  write_fits = λ buffer xs le. rw (le-leb (length xs) (length buffer) le) refl;
}

abbrev pub plain_worker : OpenclGpuWorker
plain_worker = record {
  random = lean;
  local_size = 256;
  workload = 1024;
  random_state = 3 ∷ [];
  final_nonce = 9 ∷ [];
  final_hash = replicate 4 0;
  hash_header = replicate 72 0;
  matrix = replicate 4096 0;
  target = replicate 4 0;
  events = [];
  experimental_amd = false;
}

abbrev pub opencl_row : List ℕ
opencl_row = replicate 64 11

opencl_row-is : (n : ℕ) → All IsNibble (replicate n 11)
opencl_row-is zero = tt
opencl_row-is (suc n) = (omega arith, opencl_row-is n)

pub opencl_rows-are : (n : ℕ) → All IsRow (replicate n opencl_row)
opencl_rows-are zero = tt
opencl_rows-are (suc n) = ((opencl_row-is 64, refl), opencl_rows-are n)

pub plain_worker-IsAllocated : IsAllocated plain_worker
plain_worker-IsAllocated = record {
  final_nonce_length = refl;
  hash_header_length = refl;
  matrix_length = length-replicate {A = ℕ} 4096 0;
  target_length = refl;
}

abbrev opencl_runtime : Runtime
opencl_runtime = record {
  cl_mad_enable = codes "-cl-mad-enable ";
  cl_finite_math_only = codes "-cl-finite-math-only ";
  get_file = λ name. none;
  build_from_binary = λ binary. false;
  build_from_source = λ text. true;
  context_from_device = true;
  create_kernel = λ program. true;
  create_queue = true;
  try_fill = true;
  create_buffer = λ n. some (replicate n 0);
  map_buffer = λ buffer xs. if length buffer == length xs then some xs else none;
  as_usize = λ bits. bits;
  scaled = λ bits n. 512 * n;
}

abbrev opencl_device : Device
opencl_device = record {
  name = some (codes "gfx1030");
  platform_name = some (codes "AMD Accelerated");
  max_work_group_size = some 256;
  max_compute_units = some 36;
  compute_capability_major_nv = none;
  compute_capability_minor_nv = none;
  pcie_id_amd = some 3;
}

abbrev opencl_seed : Xoshiro256StarStar
opencl_seed = record { s0 = 1; s1 = 2; s2 = 3; s3 = 4 }
