-- ===== src/Lib.antt =====
-- cryptix-miner: a miner that takes work from a pool (stratum) or a node (gRPC), searches nonces
-- on CPU and GPU workers, and sends back what it finds.
--
-- The parts and their files:
--   Target        src/target.rs: 256-bit integers as four u64 words, and the compact target.
--   Header        src/pow.rs: `serialize_header` and `decode_to_slice`, the bytes that are hashed.
--   Pow           src/pow.rs and src/pow/: block seeds, the hashers (Pow.Hasher), the generator
--                 (Pow.Xoshiro), the matrix (Pow.Matrix, its rank in Pow.Matrix.Rank, its products
--                 by AVX2 in Pow.Matrix.Avx2), the octonions (Pow.Octonion), the heavy hash
--                 (Pow.HeavyHash, Pow.Tables), the state of a search (Pow.State) and the report of
--                 a block (Pow.Report).
--   Stratum       src/client/stratum.rs and src/client/stratum/statum_codec.rs: the handler's
--                 state, its messages (Stratum.Codec), extranonces (Stratum.Nonce), difficulty
--                 (Stratum.Difficulty), shares (Stratum.Shares), conversation (Stratum.Session),
--                 connection (Stratum.Connect) and codec of lines (Stratum.Lines).
--   Grpc          src/client/grpc.rs: the client of a node.
--   Watch         src/watch.rs: the channel from the manager to the workers, a call at a time, and
--                 in Watch.Threads an access at a time.
--   Miner         src/miner.rs: `process_block` and the loop of a CPU worker; in Miner.Gpu the
--                 thread of a GPU worker, in Miner.Specs which of them are started, in
--                 Miner.Manager the start and end of the threads and the counters of hashes, in
--                 Miner.Pool and Miner.Jobs the way from a message to a job, and in Miner.Client
--                 `client_main` (src/main.rs) with a pool, from the connection to its end.
--   Jump          src/xoshiro256starstar.rs: the generator that seeds the threads of a GPU.
--   Cli           src/cli.rs and src/main.rs: the options, what `Opt::process` makes of them, and
--                 the client that they start.
--   Cuda          plugins/cuda/src: the options of each GPU (Cuda.Options), the choice of the
--                 kernel and its workload (Cuda.Launch), and the tuner of the power limit
--                 (Cuda.Autotune).
--   Opencl        plugins/opencl/src: the options of each GPU (Opencl.Options), the construction
--                 of a worker (Opencl.Build), its operations (Opencl.Worker), and a turn of its
--                 thread (Opencl.Worker.Turn).
--   Plugins       src/lib.rs: the manager of the plugins; in Plugins.Load which are found
--                 (src/main.rs) and loaded.
--   Base          lists, words, bits, rotations, texts and counters that the parts share.
--   Examples      the theorems at concrete inputs.
--
-- A client's handler turns a message into a seed and gives it to `process_block`, which builds a
-- state and sends it over the watch channel; a worker receives the state, searches its nonces and
-- sends back the seed with the nonce that it found, which the client submits.
--
-- Numbers are naturals and the wrap-around of a machine word is written out. An i64 of the octonion
-- product is its residue modulo 2 ^ 64. A panic is `none` or `panicked`, and an error is `failed`.
-- A stateful method is a function from the state to the state and its outcome; a handler's step has
-- the locks that it tries to itself, and the panic of one that is held is left out. `Matrix::generate`
-- runs on fuel; it is enough when it exceeds the place of the first matrix of full rank; without
-- it the call counts as one that does not come back. A state is for any rank of a matrix. The
-- hashes of other crates (Keccak, SHA3, BLAKE2b, BLAKE3), the decoder of the crate hex and the parser
-- of versions are parameters; so are the JSON and the lines of the codec.
--
-- A GPU worker drives a device that is a parameter: its traits' operations, with a panic or an
-- error as an outcome. A loop that waits for others (a GPU worker, the tuner) runs over the list of
-- what it meets, one entry for each turn. In Watch.Threads the steps of a sender and any number of
-- receivers interleave, each access sees the last store, and fewer than 2 ^ 64 sends are made.
-- Floats are parameters, and so are the instructions of AVX2, the CUDA driver, and the runtime and
-- the driver of OpenCL.
--
-- Not modelled: the network, the inside of the JSON and of the lines of the codec, logging, the
-- parser of arguments, the opening of dynamic libraries, the kernels in OpenCL C and PTX, the
-- permutation in assembly and the build scripts: they are input and output or not Rust.
pub mod Base
pub mod Target
pub mod Header
pub mod Pow
pub mod Stratum
pub mod Watch
pub mod Miner
pub mod Jump
pub mod Grpc
pub mod Examples
pub mod Cuda
pub mod Opencl
pub mod Plugins
pub mod Cli
