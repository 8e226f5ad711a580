-- ===== src/Examples/TurnCases.antt =====
-- A turn of an OpenCL worker whose kernel finds the nonce 42.
use cryptix_miner_test.Base.{
  ◌==◌, arith, if◌then◌else◌, length, length-replicate, none, refl, replicate, some, true, ℕ, ◌≡◌,
}
use cryptix_miner_test.Opencl.Worker.{Driver, HeavyHashCall, HeavyHashOutput, OpenclGpuWorker}
use cryptix_miner_test.Opencl.Worker.Turn.{
  Answers, IsCallOf, IsReady, opencl_turn, opencl_turn-IsCallOf,
}
use cryptix_miner_test.Examples.OpenclCases.{
  opencl_driver, opencl_driver-Writes, opencl_row, opencl_rows-are, plain_worker,
  plain_worker-IsAllocated,
}

abbrev finds_42 : HeavyHashCall → HeavyHashOutput
finds_42 call = record {
  random_state = call.random_state;
  final_nonce = replicate (length call.final_nonce) 42;
  final_hash = call.final_hash;
}

abbrev finding_driver : Driver
finding_driver = record opencl_driver {
  execute_kernel = λ call. some (finds_42 call);
  enqueue_read_buffer = λ buffer n. if length buffer == n then some buffer else none;
}

equal_itself : (n : ℕ) → (n == n) ≡ true
equal_itself n = ground arith

finding_driver-Answers : Answers finding_driver finds_42
finding_driver-Answers = record {
  writes = record { write_fits = λ buffer xs le. opencl_driver-Writes.write_fits buffer xs le };
  reads = λ buffer. rw (equal_itself (length buffer)) refl;
  retains = λ event. refl;
  releases = λ event. refl;
  waits = λ events. refl;
  runs = λ call. refl;
  nonce_size = λ call. length-replicate {A = ℕ} (length call.final_nonce) 42;
  state_size = λ call. refl;
}

opencl_turn-IsCallOf_example :
    (call : HeavyHashCall) × (self' : OpenclGpuWorker) × (opencl_turn finding_driver plain_worker
        (replicate 72 1)
        (replicate 64 opencl_row)
        (replicate 4 8)
        77
        5
        255
        256
      ≡ some (self', some (finds_42 call).final_nonce))
    × IsCallOf plain_worker (replicate 72 1) (replicate 64 opencl_row) (replicate 4 8) 255 256 call
    × IsReady self'
opencl_turn-IsCallOf_example =
    opencl_turn-IsCallOf finding_driver finds_42 finding_driver-Answers plain_worker
      (replicate 72 1) (replicate 64 opencl_row) (replicate 4 8) 77 5 255 256
      (record { allocated = plain_worker-IsAllocated; seeded = λ e. refl }) refl refl
      (opencl_rows-are 64, refl) refl
