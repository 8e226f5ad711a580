-- ===== src/Opencl/Build/Ready.antt =====
-- plugins/opencl/src/worker.rs: the buffers and the program of a worker that is made.
use cryptix_miner_test.Base.{Bool, List, [], false, length, some, true, ℕ, ◌∷◌, ◌≡◌, ◌<◌}
use cryptix_miner_test.Jump.{Xoshiro256StarStar, iter_jump_state}
use cryptix_miner_test.Cuda.Options.{NonceGenEnum, lean, xoshiro}
use cryptix_miner_test.Opencl.Build.{
  Device, Program, Runtime, binary_file, compile_options, of_binary, of_source, options_of,
  words_of,
}

-- The context, the kernel, the queue and the seed can be made; buffers that are not empty have the
-- size that was asked for, one that is mapped and filled holds what was copied, and the kernel's
-- source compiles.
pub record Works (runtime : Runtime) : Type 0 where
  pub context : runtime.context_from_device ≡ true
  pub kernel : (program : Program) → runtime.create_kernel program ≡ true
  pub queue : runtime.create_queue ≡ true
  pub fills : runtime.try_fill ≡ true
  pub allocates :
      (n : ℕ)
      → 0 < n
      → (buffer : List ℕ) × (runtime.create_buffer n ≡ some buffer) × (length buffer ≡ n)
  pub maps :
      (buffer xs : List ℕ) → length buffer ≡ length xs → runtime.map_buffer buffer xs ≡ some xs
  pub compiles : (text : List ℕ) → runtime.build_from_source text ≡ true

unfoldable pub is_binary : Program → Bool
is_binary (of_binary binary) = true
is_binary (of_source text) = false

-- What the generator of the nonces starts from: a state for each thread, or a single number.
unfoldable pub seeds : NonceGenEnum → ℕ → Xoshiro256StarStar → ℕ → List ℕ
seeds xoshiro workload seed next_u64 = words_of (iter_jump_state workload seed)
seeds lean workload seed next_u64 = next_u64 ∷ []

-- What a program was made of: the device's binary, when that is wanted, found and accepted, and the
-- source otherwise.
unfoldable pub IsMadeFor : Runtime → Device → Bool → Bool → Program → Type 0
IsMadeFor runtime device experimental_amd use_binary (of_source text) =
    (text ≡ compile_options runtime device (options_of experimental_amd))
    × (use_binary ≡ true
        → (binary : List ℕ) → runtime.get_file (binary_file device) ≡ some binary
        → runtime.build_from_binary binary ≡ false)
IsMadeFor runtime device experimental_amd use_binary (of_binary binary) =
    (use_binary ≡ true)
    × (runtime.get_file (binary_file device) ≡ some binary)
    × (runtime.build_from_binary binary ≡ true)
