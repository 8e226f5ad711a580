-- ===== src/Examples/CudaCases.antt =====
-- The CUDA plugin at concrete inputs, with whole numbers in the place of the floats.
use cryptix_miner_test.Base.{
  ℕ, ◌*◌, ◌-◌, ◌/◌, ◌+◌, ◌<◌, ◌≡◌, ◌≤◌, All, List, [], ◌∷◌, arith, leb, max, none, refl, some, true,
}
use cryptix_miner_test.Cuda.Autotune.{
  AutotuneConfig, Constraints, Floats, Tick, Tuner, timeout, down, hard_min_mw, hard_max_mw,
  step_mw_of, run_autotune_loop, tune, stale_ns,
}
use cryptix_miner_test.Cuda.Autotune.Limits.{run_autotune_loop-IsAllowed}
use cryptix_miner_test.Cuda.Autotune.Cooling.{IsHot, tune_cooling}
use cryptix_miner_test.Cuda.Launch.{Kernel, set_workload, get_workload}
use cryptix_miner_test.Cuda.Launch.Workload.{set_workload-get_workload}

abbrev whole_numbers : Floats
whole_numbers = record {
  F = ℕ;
  from_bits = λ n. n;
  to_bits = λ n. n;
  divide = λ a b. a / b;
  of_milliwatts = λ n. n;
  is_le = λ a b. leb a b;
  zero_float = 0;
}

abbrev config : AutotuneConfig
config = record {
  interval_secs = 10;
  step_w = 5;
  min_power_w = some 100;
  max_power_w = some 200;
  max_temp_c = 80;
}

abbrev constraints : Constraints
constraints = record { min_limit = 90000; max_limit = 250000 }

abbrev tick_at : ℕ → Tick whole_numbers
tick_at temp_c = record {
  wait = timeout;
  sample = some (5000000, 1000);
  temperature = some temp_c;
  power_usage = some 150000;
  accepts = true;
}

abbrev ticks : List (Tick whole_numbers)
ticks = tick_at 60 ∷ tick_at 85 ∷ tick_at 60 ∷ []

run_autotune_loop-IsAllowed_example :
    All
      (λ l.
        (hard_min_mw config constraints ≤ l) × (l ≤ max (hard_max_mw config constraints) 180000))
      (run_autotune_loop whole_numbers config constraints 180000 ticks)
run_autotune_loop-IsAllowed_example =
    run_autotune_loop-IsAllowed whole_numbers config constraints 180000 ticks

abbrev tuner : Tuner whole_numbers
tuner = record {
  current_limit_mw = 180000;
  best_score = none;
  direction = down;
  consecutive_errors = 0;
}

hot : IsHot whole_numbers config constraints (tick_at 85)
unfolding stale_ns
hot = record {
  hashrate = 5000000;
  age = 1000;
  temp_c = 85;
  waits = refl;
  sampled = refl;
  is_fresh = omega arith;
  measured = refl;
  too_hot = omega arith;
  takes = refl;
}

tune_cooling_example :
    ((tune whole_numbers config constraints tuner (tick_at 85 ∷ tick_at 85 ∷ [])).1.current_limit_mw
      ≡ max (hard_min_mw config constraints) (180000 - 2 * step_mw_of config))
    × ((tune whole_numbers config constraints tuner
          (tick_at 85 ∷ tick_at 85 ∷ [])).1.current_limit_mw
        ≤ 180000)
tune_cooling_example =
    tune_cooling whole_numbers config constraints tuner (tick_at 85) (tick_at 85 ∷ [])
      (unfold hard_min_mw in omega arith) (hot, (hot, tt))

abbrev kernel : Kernel
kernel = record { block_size = 256; grid_size = 64 }

set_workload-get_workload_example :
    (sized : Kernel) × (set_workload kernel 100000 ≡ some sized)
    × (sized.block_size ≡ 256)
    × (100000 ≤ get_workload sized)
    × (get_workload sized < 100000 + 256)
set_workload-get_workload_example =
    set_workload-get_workload kernel 100000 (omega arith) (omega arith)
