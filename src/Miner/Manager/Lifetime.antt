-- ===== src/Miner/Manager/Lifetime.antt =====
-- src/miner.rs: the channel and the threads, from the manager's start to its end.
use cryptix_miner_test.Base.{
  ◌+◌, ◌<◌, Bool, List, Option, [], ◌^◌, ap, arith, if◌then◌else◌, length, refl, suc, true, zero, ℕ,
  ◌∷◌, ◌≡◌, false, length-append, none, ◌∙◌, ◌≤◌, ◌%◌, ◌==◌, some, subst, sym,
}
use cryptix_miner_test.Stratum.{Reply}
use cryptix_miner_test.Watch.{
  Result, wake, Receiver, Shared, channel, clone, decrement_receivers_count, drop, get_changed,
  increment_receiver_count, ok, replace_value, wait_for_change,
}
use cryptix_miner_test.Miner
use cryptix_miner_test.Miner.{CpuWorker, MinerManager, WorkerCommand, close, receive, send_all}
use cryptix_miner_test.Miner.Jobs.{send_all-done}
use cryptix_miner_test.Miner.Gpu
use cryptix_miner_test.Pow.State.{Hashes}
use cryptix_miner_test.Miner.Gpu.{gpu_turn, Device, GpuTurn, GpuWorker}
use cryptix_miner_test.Miner.Manager.{
  drop_manager, get_num_cpus, launch_cpu_threads, launch_gpu_threads, new,
}

launch_cpu_threads-count :
    (S : Type 0) (n : ℕ) (s : Shared (Option WorkerCommand)) (recv : Receiver)
    → s.receivers_count + n < 2 ^ 64
    → let (s', threads) = launch_cpu_threads {S = S} n s recv in
      (s'.receivers_count ≡ s.receivers_count + n)
      × (length threads ≡ n)
      × (s'.sender_alive ≡ s.sender_alive)
      × (s'.id ≡ s.id)
      × (s'.value ≡ s.value)
unfolding launch_cpu_threads clone increment_receiver_count
launch_cpu_threads-count S zero s recv lt = (omega arith, refl, refl, refl, refl)
launch_cpu_threads-count S (suc n) s recv lt =
    let s' = increment_receiver_count s in
    let (count, size, alive, id, value) = launch_cpu_threads-count S n s' recv (omega arith) in
    (omega (arith, count), ap suc size, alive, id, value)

module _ {S : Type 0} where
  launch_gpu_threads-count :
      (id : S → List ℕ) (counter : ℕ) (planned : List (S × Option S))
      (s : Shared (Option WorkerCommand)) (recv : Receiver) (by_worker : List (List ℕ × ℕ))
      → s.receivers_count + length planned < 2 ^ 64
      → let (s', threads, by_worker') = launch_gpu_threads id counter planned s recv by_worker in
        (s'.receivers_count ≡ s.receivers_count + length planned)
        × (length threads ≡ length planned)
        × (s'.sender_alive ≡ s.sender_alive)
        × (s'.id ≡ s.id)
        × (s'.value ≡ s.value)
  unfolding launch_gpu_threads clone increment_receiver_count
  launch_gpu_threads-count id counter [] s recv by_worker lt = (omega arith, refl, refl, refl, refl)
  launch_gpu_threads-count id counter ((spec, fallback) ∷ planned) s recv by_worker lt =
      let s' = increment_receiver_count s in
      let (count, size, alive, same, value) =
        launch_gpu_threads-count id (suc counter) planned s' recv _ (omega arith) in
      (omega (arith, count), ap suc size, alive, same, value)

  -- When the number of threads is below that of a usize, less two: a new manager is synced, its
  -- channel has no command under the id 1, and the channel lives and counts one receiver for each of its threads, which are as many as the
  -- CPUs asked for, or found, and with plugins one for each planned worker.
  pub new-count :
      (id : S → List ℕ) (n_cpus : Option ℕ) (physical : ℕ) (has_specs : Bool)
      (planned : List (S × Option S))
      → get_num_cpus n_cpus physical + length planned + 2 < 2 ^ 64
      → let (manager, threads, by_worker) = new id n_cpus physical has_specs planned in
        (manager.is_synced ≡ true)
        × (manager.block_channel.value ≡ none)
        × (manager.block_channel.id ≡ 1)
        × (manager.block_channel.sender_alive ≡ true)
        × (manager.block_channel.receivers_count ≡ length threads)
        × (length threads
            ≡ get_num_cpus n_cpus physical + (if has_specs then length planned else 0))
  unfolding new channel clone drop decrement_receivers_count increment_receiver_count
  new-count id n_cpus physical true planned lt =
      let n = get_num_cpus n_cpus physical in
      let recv : Receiver = record { last_observed = 0 } in
      let s1 : Shared (Option WorkerCommand) = increment_receiver_count (channel none).0 in
      let (count, size, alive, same, value) = launch_cpu_threads-count S n s1 recv (omega arith) in
      let s3 = decrement_receivers_count (launch_cpu_threads {S = S} n s1 recv).0 in
      let (count', size', alive', same', value') =
        launch_gpu_threads-count id 0 planned s3 recv [] (omega (arith, count)) in
      let cpus = (launch_cpu_threads {S = S} n s1 recv).1 in
      let gpus = (launch_gpu_threads id 0 planned s3 recv []).1 in
      (
        refl,
        value' ∙ value,
        same' ∙ same,
        alive' ∙ alive,
        omega (arith, count, count', size, size', length-append cpus gpus),
        omega (arith, size, size', length-append cpus gpus),
      )
  new-count id n_cpus physical false planned lt =
      let n = get_num_cpus n_cpus physical in
      let recv : Receiver = record { last_observed = 0 } in
      let s1 : Shared (Option WorkerCommand) = increment_receiver_count (channel none).0 in
      let (count, size, alive, same, value) = launch_cpu_threads-count S n s1 recv (omega arith) in
      let cpus = (launch_cpu_threads {S = S} n s1 recv).1 in
      (
        refl,
        value,
        same,
        alive,
        omega (arith, count, size, length-append cpus []),
        omega (arith, size, length-append cpus []),
      )

dropped :
    (self : MinerManager)
    → 0 < self.block_channel.receivers_count
    → (drop_manager self).block_channel ≡ replace_value self.block_channel (some close)
unfolding drop_manager
dropped self pos =
    ap (λ (x : MinerManager × Reply). x.0.block_channel) (send_all-done self (some close) pos)

-- What a look at the channel finds after a send that it has not seen.
module _ (s : Shared (Option WorkerCommand)) (r : Receiver) (v : Option WorkerCommand)
    (alive : s.sender_alive ≡ true) (lt : s.id + 1 < 2 ^ 64) (older : r.last_observed ≤ s.id) where
  unseen : (r.last_observed == (s.id + 1) % 2 ^ 64) ≡ false
  unseen = ground arith

  sent-get_changed : (get_changed (replace_value s v) r).1 ≡ ok (some v)
  unfolding get_changed replace_value
  sent-get_changed = simp (alive, unseen)

  sent-wait_for_change :
      (locked woken : Shared (Option WorkerCommand))
      → (wait_for_change (replace_value s v) locked woken r).1 ≡ ok v
  unfolding wait_for_change get_changed replace_value
  sent-wait_for_change locked woken = ground (arith, unseen)

  -- A receiver that found nothing new at its two looks and sleeps.
  woken-wait_for_change :
      (called locked : Shared (Option WorkerCommand))
      → get_changed called r ≡ (r, ok none)
      → get_changed locked r ≡ (r, ok none)
      → (wait_for_change called locked (replace_value s v) r).1 ≡ ok v
  unfolding wait_for_change wake replace_value
  woken-wait_for_change called locked e e' =
      let first = ap (λ (x : Receiver × Result (Option (Option WorkerCommand))). x.1) e in
      let kept = ap (λ (x : Receiver × Result (Option (Option WorkerCommand))). x.0) e in
      let second = ap (λ (x : Receiver × Result (Option (Option WorkerCommand))). x.1) e' in
      rw (wait_for_change, first, kept, second, wake, alive) refl

-- A thread that looks at a channel with this receiver ends: at a wait that it calls, at one in which
-- it sleeps after two looks that found nothing, and at a poll; on a GPU without a state, the turn.
pub record Stops (after : Shared (Option WorkerCommand)) (r : Receiver) : Type 1 where
  pub cpu_wait :
      (woken locked : Shared (Option WorkerCommand)) (cpu : CpuWorker)
      → receive cpu (wait_for_change after locked woken r).1 ≡ Miner.stops
  pub cpu_asleep :
      (called locked : Shared (Option WorkerCommand))
      → get_changed called r ≡ (r, ok none)
      → get_changed locked r ≡ (r, ok none)
      → (cpu : CpuWorker) → receive cpu (wait_for_change called locked after r).1 ≡ Miner.stops
  pub cpu_poll : (cpu : CpuWorker) → Miner.poll cpu (get_changed after r).1 ≡ Miner.stops
  pub gpu_wait :
      (woken locked : Shared (Option WorkerCommand)) (device : Device) (hashes : Hashes)
      (gpu : GpuWorker device) (changed : Result (Option (Option WorkerCommand)))
      → gpu.state ≡ none
      → gpu_turn device hashes gpu
          (record { waited = (wait_for_change after locked woken r).1; changed = changed })
        ≡ (none, Gpu.stops)
  pub gpu_asleep :
      (called locked : Shared (Option WorkerCommand))
      → get_changed called r ≡ (r, ok none)
      → get_changed locked r ≡ (r, ok none)
      → (device : Device) (hashes : Hashes) (gpu : GpuWorker device)
        (changed : Result (Option (Option WorkerCommand)))
      → gpu.state ≡ none
      → gpu_turn device hashes gpu
          (record { waited = (wait_for_change called locked after r).1; changed = changed })
        ≡ (none, Gpu.stops)
  pub gpu_poll :
      (device : Device) (gpu : GpuWorker device)
      → Gpu.poll device gpu (get_changed after r).1 ≡ Gpu.stops

gpu_turn-close :
    (device : Device) (hashes : Hashes) (gpu : GpuWorker device)
    (waited : Result (Option WorkerCommand)) (changed : Result (Option (Option WorkerCommand)))
    → gpu.state ≡ none
    → waited ≡ ok (some close)
    → gpu_turn device hashes gpu (record { waited = waited; changed = changed }) ≡ (none, Gpu.stops)
unfolding gpu_turn
gpu_turn-close device hashes gpu waited changed idle e = rw (gpu_turn, idle, e) refl

-- While the sender and a thread live and the id has not run out, a thread with a receiver of an
-- older id ends once the manager is dropped, on a CPU as on a GPU: at its next look at the channel.
pub drop_manager-Stops :
    (self : MinerManager) (r : Receiver)
    → self.block_channel.sender_alive ≡ true
    → 0 < self.block_channel.receivers_count
    → self.block_channel.id + 1 < 2 ^ 64
    → r.last_observed ≤ self.block_channel.id
    → Stops (drop_manager self).block_channel r
unfolding receive Miner.poll Gpu.poll
drop_manager-Stops self r alive pos lt older =
    subst (λ (c : Shared (Option WorkerCommand)). Stops c r) (sym (dropped self pos))
      (record {
        cpu_wait = λ woken locked cpu. ap (receive cpu) (waits locked woken);
        cpu_asleep = λ called locked e e' cpu. ap (receive cpu) (sleeps called locked e e');
        cpu_poll = λ cpu. ap (Miner.poll cpu) looks;
        gpu_wait = λ woken locked device hashes gpu changed idle.
            gpu_turn-close device hashes gpu _ changed idle (waits locked woken);
        gpu_asleep = λ called locked e e' device hashes gpu changed idle.
            gpu_turn-close device hashes gpu _ changed idle (sleeps called locked e e');
        gpu_poll = λ device gpu. ap (Gpu.poll device gpu) looks;
      })
  where
    s : Shared (Option WorkerCommand)
    s = self.block_channel

    looks : (get_changed (replace_value s (some close)) r).1 ≡ ok (some (some close))
    looks = sent-get_changed s r (some close) alive lt older

    waits :
        (locked woken : Shared (Option WorkerCommand))
        → (wait_for_change (replace_value s (some close)) locked woken r).1 ≡ ok (some close)
    waits locked woken = sent-wait_for_change s r (some close) alive lt older locked woken

    sleeps :
        (called locked : Shared (Option WorkerCommand))
        → get_changed called r ≡ (r, ok none)
        → get_changed locked r ≡ (r, ok none)
        → (wait_for_change called locked (replace_value s (some close)) r).1 ≡ ok (some close)
    sleeps called locked e e' =
        woken-wait_for_change s r (some close) alive lt older called locked e e'
