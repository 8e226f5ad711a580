-- ===== src/Miner/Manager.antt =====
-- src/miner.rs: how a manager starts its workers, how it ends them, and how it counts what they
-- tried. A thread is given by what it was started with.
pub mod Lifetime
pub mod Hashrate
use cryptix_miner_test.Base.{
  ◌++◌, Bool, List, Option, [], if◌then◌else◌, none, some, suc, true, zero, ℕ, ◌∷◌,
}
use cryptix_miner_test.Watch.{Receiver, Shared, channel, clone, drop, send}
use cryptix_miner_test.Base.Ascii.{eq_text}
use cryptix_miner_test.Miner.{MinerManager, WorkerCommand, close, send_all}

-- What `launch_cpu_miner` and `launch_gpu_miner` start: a thread has its receiver, and that of a
-- GPU its specs and the place of its counter.
pub data Thread (S : Type 0) : Type 0 where
  cpu_thread : Receiver → Thread S
  gpu_thread : Receiver → S → Option S → ℕ → Thread S

-- `get_num_cpus`; `physical` is the number of physical cores.
unfoldable pub get_num_cpus : Option ℕ → ℕ → ℕ
get_num_cpus none physical = physical
get_num_cpus (some n) physical = n

-- `HashMap::insert`, of the counter of a worker under its id.
unfoldable pub insert_counter : List ℕ → ℕ → List (List ℕ × ℕ) → List (List ℕ × ℕ)
insert_counter id counter [] = (id, counter) ∷ []
insert_counter id counter ((k, c) ∷ m) =
    let rest = insert_counter id counter m in
    if eq_text k id then (k, counter) ∷ m else (k, c) ∷ rest

module _ {S : Type 0} where
  -- `launch_cpu_threads`
  unfoldable pub launch_cpu_threads :
      ℕ → Shared (Option WorkerCommand) → Receiver → Shared (Option WorkerCommand) × List (Thread S)
  unfolding clone
  launch_cpu_threads zero s recv = (s, [])
  launch_cpu_threads (suc n) s recv =
      let (s', r) = clone s recv in
      let (s'', threads) = launch_cpu_threads n s' recv in (s'', cpu_thread r ∷ threads)

  -- `launch_gpu_threads` over the planned specs, whose counters are numbered from one on.
  unfoldable pub launch_gpu_threads :
      (S → List ℕ)
      → ℕ
      → List (S × Option S)
      → Shared (Option WorkerCommand)
      → Receiver
      → List (List ℕ × ℕ)
      → Shared (Option WorkerCommand) × List (Thread S) × List (List ℕ × ℕ)
  unfolding clone insert_counter
  launch_gpu_threads id counter [] s recv by_worker = (s, [], by_worker)
  launch_gpu_threads id counter ((spec, fallback_spec) ∷ planned) s recv by_worker =
      let (s', r) = clone s recv in
      let (s'', threads, by_worker') =
        launch_gpu_threads id (suc counter) planned s' recv
          (insert_counter (id spec) counter by_worker) in
      (s'', gpu_thread r spec fallback_spec counter ∷ threads, by_worker')

  -- `MinerManager::new`: the manager, its threads, and the counters of the workers. A clone of the
  -- receiver goes to the CPU threads, the receiver itself to the GPU threads, and both are dropped
  -- when the threads have theirs.
  unfoldable pub new :
      (S → List ℕ)
      → Option ℕ
      → ℕ
      → Bool
      → List (S × Option S)
      → MinerManager × List (Thread S) × List (List ℕ × ℕ)
  unfolding channel clone drop launch_cpu_threads launch_gpu_threads get_num_cpus
  new id n_cpus physical has_specs planned =
      let (s0, recv) = channel none in
      let (s1, cpu_recv) = clone s0 recv in
      let (s2, cpus) = launch_cpu_threads (get_num_cpus n_cpus physical) s1 cpu_recv in
      let s3 = drop s2 cpu_recv in
      let (s4, gpus, by_worker) : Shared (Option WorkerCommand)
          × List (Thread S)
          × List (List ℕ × ℕ) =
        if has_specs then launch_gpu_threads id 0 planned s3 recv [] else (s3, [], []) in
      (
        record { is_synced = true; current_state_id = 0; block_channel = drop s4 recv },
        cpus ++ gpus,
        by_worker,
      )

-- `Drop for MinerManager`, before its threads are joined: a `Close`, or a warning when no thread
-- is left.
unfoldable pub drop_manager : MinerManager → MinerManager
drop_manager self = (send_all self (some close)).0
