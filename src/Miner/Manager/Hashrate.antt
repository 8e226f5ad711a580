-- ===== src/Miner/Manager/Hashrate.antt =====
-- src/miner.rs: the log of the hash rate, which takes what the workers counted since the last one.
-- The floats are a parameter.
use cryptix_miner_test.Base.{
  ◌%◌, ◌+◌, ◌<◌, ◌==◌, Bool, List, [], ◌^◌, arith, if◌then◌else◌, true, ℕ, ◌∷◌, ◌≡◌,
}
use cryptix_miner_test.Base.Text.{codes}

-- The operations on f64 of the log.
pub record Rates : Type 1 where
  pub F : Type 0
  pub of_u64 : ℕ → F
  pub divide : F → F → F
  pub less : F → F → Bool

module _ (rates : Rates) where
  open rates use {F, of_u64, divide, less}

  -- What is logged: a warning, with the prefix or without, or a rate and its unit.
  pub data Report : Type 0 where
    stalled : Bool → Report
    rate_is : F → List ℕ → Report

  -- `hash_suffix`
  unfoldable pub hash_suffix : F → F × List ℕ
  hash_suffix n =
      if less n (of_u64 1000)
      then (n, codes "hash/s")
      else if less n (of_u64 1000000)
      then (divide n (of_u64 1000), codes "Khash/s")
      else if less n (of_u64 1000000000)
      then (divide n (of_u64 1000000), codes "Mhash/s")
      else if less n (of_u64 1000000000000)
      then (divide n (of_u64 1000000000), codes "Ghash/s")
      else if less n (of_u64 1000000000000000)
      then (divide n (of_u64 1000000000000), codes "Thash/s")
      else (n, codes "hash/s")

  -- `log_single_hashrate`: the counter after its `swap(0)`, and what is logged.
  unfoldable pub log_single_hashrate : ℕ → F → Bool → ℕ × Report
  unfolding hash_suffix
  log_single_hashrate counter duration keep_prefix =
      let (rate, suffix) = hash_suffix (divide (of_u64 counter) duration) in
      (0, if counter == 0 then stalled keep_prefix else rate_is rate suffix)

  -- The loop of `log_hashrate` over the counters of the workers.
  unfoldable pub log_workers : List (List ℕ × ℕ) → F → List (List ℕ × ℕ) × List (List ℕ × Report)
  unfolding log_single_hashrate
  log_workers [] duration = ([], [])
  log_workers ((device, counter) ∷ workers) duration =
      let (counter', report) = log_single_hashrate counter duration true in
      let (workers', reports) = log_workers workers duration in
      ((device, counter') ∷ workers', (device, report) ∷ reports)

  -- What happens to a counter: a worker adds to it, or it is logged.
  pub data CounterEvent : Type 0 where
    tried : ℕ → CounterEvent
    logged : F → CounterEvent

  -- The counter after some events, and the hashes that the logs were given.
  unfoldable pub count_events : ℕ → Bool → List CounterEvent → ℕ × ℕ
  unfolding log_single_hashrate
  count_events counter keep_prefix [] = (counter, 0)
  count_events counter keep_prefix (tried n ∷ events) =
      count_events ((counter + n) % 2 ^ 64) keep_prefix events
  count_events counter keep_prefix (logged duration ∷ events) =
      let (last, sum) =
        count_events (log_single_hashrate counter duration keep_prefix).0 keep_prefix events in
      (last, counter + sum)

  unfoldable pub total_tried : List CounterEvent → ℕ
  total_tried [] = 0
  total_tried (tried n ∷ events) = n + total_tried events
  total_tried (logged duration ∷ events) = total_tried events

  -- When the hashes stay below a u64, whatever the order in which workers count and logs read: the
  -- hashes that the logs were given and those still in the counter are all that were tried.
  pub count_events-total_tried :
      (counter : ℕ) (keep_prefix : Bool) (events : List CounterEvent)
      → counter + total_tried events < 2 ^ 64
      → let (last, sum) = count_events counter keep_prefix events in
        last + sum ≡ counter + total_tried events
  unfolding count_events total_tried log_single_hashrate
  count_events-total_tried counter keep_prefix [] lt = omega arith
  count_events-total_tried counter keep_prefix (tried n ∷ events) lt =
      omega
        (arith, count_events-total_tried ((counter + n) % 2 ^ 64) keep_prefix events (omega arith))
  count_events-total_tried counter keep_prefix (logged duration ∷ events) lt =
      omega (arith, count_events-total_tried 0 keep_prefix events (omega arith))
