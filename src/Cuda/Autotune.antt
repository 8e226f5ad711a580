-- ===== src/Cuda/Autotune.antt =====
-- plugins/cuda/src/autotune.rs: the loop that tunes one GPU's power limit. The answers of NVML and
-- of the clock come in one `Tick` for each turn, and floats are a parameter. Limits are in
-- milliwatts, temperatures in degrees, and products of u32 wrap around, as in a release build.
pub mod Limits
pub mod Cooling
pub mod Samples
use cryptix_miner_test.Base.{
  ℕ, ◌%◌, ◌*◌, ◌+◌, ◌-◌, ◌/◌, ◌==◌, Bool, List, Option, [], ◌^◌, false, if◌then◌else◌, leb, ltb,
  max, min, none, some, true, ◌||◌, ◌∷◌,
}

pub record AutotuneConfig : Type 0 where
  pub interval_secs : ℕ
  pub step_w : ℕ
  pub min_power_w : Option ℕ
  pub max_power_w : Option ℕ
  pub max_temp_c : ℕ

-- The constraints that the driver reports.
pub record Constraints : Type 0 where
  pub min_limit : ℕ
  pub max_limit : ℕ

-- The floats of `f64`: the division and the comparison that the tuner uses.
pub record Floats : Type 1 where
  pub F : Type 0
  pub from_bits : ℕ → F
  pub to_bits : F → ℕ
  pub divide : F → F → F
  pub of_milliwatts : ℕ → F
  pub is_le : F → F → Bool
  pub zero_float : F

-- `unwrap_or`
abbrev pub unwrap_or : Option ℕ → ℕ → ℕ
unwrap_or none d = d
unwrap_or (some a) d = a

abbrev pub to_milliwatts : Option ℕ → Option ℕ
to_milliwatts none = none
to_milliwatts (some w) = some (w * 1000 % 2 ^ 32)

-- `hard_min_mw` and `hard_max_mw`
unfoldable pub hard_min_mw : AutotuneConfig → Constraints → ℕ
hard_min_mw config constraints =
    max (unwrap_or (to_milliwatts config.min_power_w) constraints.min_limit) constraints.min_limit

unfoldable pub hard_max_mw : AutotuneConfig → Constraints → ℕ
hard_max_mw config constraints =
    min (unwrap_or (to_milliwatts config.max_power_w) constraints.max_limit) constraints.max_limit

unfoldable pub step_mw_of : AutotuneConfig → ℕ
step_mw_of config = max config.step_w 1 * 1000 % 2 ^ 32

-- The sign of `direction`, whose size is always `step_mw`.
pub data Direction : Type 0 where
  down : Direction
  up : Direction

unfoldable pub negate : Direction → Direction
negate down = up
negate up = down

-- What `recv_timeout` returns.
pub data Wait : Type 0 where
  received : Wait
  disconnected : Wait
  timeout : Wait

-- `proposed.clamp(hard_min_mw, hard_max_mw)`. Below zero is below `hard_min_mw`, so a difference
-- that stops at 0 is clamped to the same.
unfoldable pub clamped_limit : Direction → ℕ → ℕ → ℕ → ℕ → ℕ
clamped_limit down current step low high = min (max (current - step) low) high
clamped_limit up current step low high = min (max (current + step) low) high

-- The limit of the safety override.
unfoldable pub safe_limit_of : ℕ → ℕ → ℕ → ℕ
safe_limit_of current step low = max low (current - step)

-- The limits that a turn asks for, before those of the later turns.
abbrev pub requests : Option ℕ → List ℕ → List ℕ
requests none rest = rest
requests (some l) rest = l ∷ rest

module _ (floats : Floats) where
  open floats use {F, from_bits, to_bits, divide, of_milliwatts, is_le, zero_float}

  -- What the loop sees in a turn; `sample` is a hashrate and its age in nanoseconds, and `none` is
  -- a call that fails, or no sample yet.
  pub record Tick : Type 0 where
    pub wait : Wait
    pub sample : Option (F × ℕ)
    pub temperature : Option ℕ
    pub power_usage : Option ℕ
    pub accepts : Bool

  pub record Tuner : Type 0 where
    pub current_limit_mw : ℕ
    pub best_score : Option F
    pub direction : Direction
    pub consecutive_errors : ℕ

  -- A turn's limit for the device, if it sets one, and how the loop goes on.
  pub record Turn : Type 0 where
    pub requested : Option ℕ
    pub tuner : Tuner
    pub stops : Bool

  -- `AutotuneShared`, without its start instant; the clock counts nanoseconds from there.
  pub record AutotuneShared : Type 0 where
    pub last_hashrate_bits : ℕ
    pub last_sample_ms : ℕ

  abbrev pub new_shared : AutotuneShared
  new_shared = record { last_hashrate_bits = 0; last_sample_ms = 0 }

  -- `record_sample`, called at the time `now_ns`.
  unfoldable pub record_sample : ℕ → AutotuneShared → F → F → AutotuneShared
  record_sample now_ns self hashes elapsed_secs =
      if is_le elapsed_secs zero_float || is_le hashes zero_float then self else record {
        last_hashrate_bits = to_bits (divide hashes elapsed_secs);
        last_sample_ms = max (now_ns / 10 ^ 6 % 2 ^ 64) 1;
      }

  -- `latest`, called at the time `now_ns`: the hashrate, and its age in nanoseconds.
  unfoldable pub latest : ℕ → AutotuneShared → Option (F × ℕ)
  latest now_ns self =
      if self.last_sample_ms == 0
      then none
      else some (from_bits self.last_hashrate_bits, now_ns - self.last_sample_ms * 10 ^ 6)

  abbrev idle : Tuner → Turn
  idle t = record { requested = none; tuner = t; stops = false }

  -- `score <= prev` turns the climb round.
  unfoldable pub next_direction : Option F → F → Direction → Direction
  next_direction none score d = d
  next_direction (some prev) score d = if is_le score prev then negate d else d

  -- The age, in nanoseconds, above which a sample is stale.
  unfoldable pub stale_ns : AutotuneConfig → ℕ
  stale_ns config = max (min (config.interval_secs * 3) (2 ^ 64 - 1)) 30 * 10 ^ 9

  module _ (config : AutotuneConfig) (constraints : Constraints) where
    -- The safety override.
    unfoldable pub cool : Tuner → Bool → Turn
    cool t accepts =
        let safe_limit =
          safe_limit_of t.current_limit_mw (step_mw_of config) (hard_min_mw config constraints) in
        record {
          requested = some safe_limit;
          tuner =
              if accepts then record t { current_limit_mw = safe_limit; best_score = none } else t;
          stops = false;
        }

    -- The request for a new limit, or the turn at a bound.
    unfoldable pub request : Tuner → ℕ → Bool → Turn
    request t clamped accepts =
        if clamped == t.current_limit_mw
        then idle (record t { direction = negate t.direction })
        else if accepts
        then record {
          requested = some clamped;
          tuner = record t { current_limit_mw = clamped; consecutive_errors = 0 };
          stops = false;
        }
        else record {
          requested = some clamped;
          tuner = record t { consecutive_errors = t.consecutive_errors + 1 };
          stops = leb 5 (t.consecutive_errors + 1);
        }

    -- A step of the climb, for a hashrate and a power draw.
    unfoldable pub climb : Tuner → F → ℕ → Bool → Turn
    climb t hashrate power_mw accepts =
        let score = divide hashrate (of_milliwatts power_mw) in
        let d = next_direction t.best_score score t.direction in
        request (record t { best_score = some score; direction = d })
          (clamped_limit d t.current_limit_mw (step_mw_of config) (hard_min_mw config constraints)
            (hard_max_mw config constraints))
          accepts

    -- A turn once a fresh sample and the temperature are read.
    unfoldable pub act : Tuner → F → ℕ → Option ℕ → Bool → Turn
    act t hashrate temp_c power_usage accepts =
        if leb config.max_temp_c temp_c then cool t accepts else elim power_usage [
          | none ↦ idle t
          | some power_mw ↦ if power_mw == 0 then idle t else climb t hashrate power_mw accepts
        ]

    -- The part of a turn after the wait.
    unfoldable pub look : Tuner → Tick → Turn
    look t tick = elim tick.sample [
      | none ↦ idle t
      | some (hashrate, age) ↦ if ltb (stale_ns config) age then idle t else elim tick.temperature [
        | none ↦ idle t
        | some temp_c ↦ act t hashrate temp_c tick.power_usage tick.accepts
      ]
    ]

    -- A turn of the loop.
    unfoldable pub turn : Tuner → Tick → Turn
    turn t tick = elim tick.wait [
      | received ↦ record (idle t) { stops = true }
      | disconnected ↦ record (idle t) { stops = true }
      | timeout ↦ look t tick
    ]

    -- The loop: the limits that the device is asked for, and the tuner at the end.
    unfoldable pub tune : Tuner → List Tick → List ℕ × Tuner
    tune t [] = ([], t)
    tune t (tick ∷ ticks) =
        let step = turn t tick in
        let (later, last) = tune step.tuner ticks in
        if step.stops
        then (requests step.requested [], step.tuner)
        else (requests step.requested later, last)

    -- `run_autotune_loop` from the current limit on; without a range it does not start.
    unfoldable pub run_autotune_loop : ℕ → List Tick → List ℕ
    run_autotune_loop current ticks =
        if leb (hard_max_mw config constraints) (hard_min_mw config constraints)
        then []
        else (tune
            (record {
              current_limit_mw = current;
              best_score = none;
              direction = down;
              consecutive_errors = 0;
            })
            ticks).0
