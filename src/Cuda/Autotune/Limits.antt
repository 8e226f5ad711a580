-- ===== src/Cuda/Autotune/Limits.antt =====
-- plugins/cuda/src/autotune.rs: the limits that the autotuner asks of the device.
use cryptix_miner_test.Base.{
  ℕ, ◌+◌, ◌<◌, ◌==◌, All, Bool, Bool-cases, [], arith, false, if◌then◌else◌, inl, inr, leb, none,
  some, true, ◌≡◌, ◌≤◌, ◌⊎◌, List, Option, ltb, refl, ◌∷◌, dec_lt, max,
}
use cryptix_miner_test.Cuda.Autotune.{
  AutotuneConfig, Constraints, Floats, Direction, down, up, Wait, timeout, Tick, Tuner, Turn,
  hard_min_mw, hard_max_mw, step_mw_of, clamped_limit, safe_limit_of, cool, request, climb, act,
  look, turn, tune, run_autotune_loop, requests, stale_ns,
}

clamped_limit-bounds :
    (d : Direction) (current step low high : ℕ)
    → low < high
    → (low ≤ clamped_limit d current step low high) × (clamped_limit d current step low high ≤ high)
unfolding clamped_limit
clamped_limit-bounds down current step low high lt = omega arith
clamped_limit-bounds up current step low high lt = omega arith

module _ (floats : Floats) (config : AutotuneConfig) (constraints : Constraints) (ceiling : ℕ) where
  -- A limit of the range that the user and the driver allow, with a ceiling that the tuner may have
  -- started from.
  abbrev pub IsAllowed : ℕ → Type 0
  IsAllowed l = (hard_min_mw config constraints ≤ l) × (l ≤ ceiling)

  -- What every turn keeps: it asks for allowed limits, the tuner's own limit stays allowed from
  -- above, and a loop that goes on has seen fewer than five refusals in a row.
  pub record Sound (r : Turn floats) : Type 0 where
    pub allowed : All IsAllowed (requests r.requested [])
    pub current_is : r.tuner.current_limit_mw ≤ ceiling
    pub errors_are : (r.stops ≡ true) ⊎ (r.tuner.consecutive_errors < 5)

  module _ (range : hard_min_mw config constraints < hard_max_mw config constraints)
      (over : hard_max_mw config constraints ≤ ceiling) where
    idle-Sound :
        (t : Tuner floats)
        → t.current_limit_mw ≤ ceiling
        → t.consecutive_errors < 5
        → Sound (record { requested = none; tuner = t; stops = false })
    idle-Sound t c e = record { allowed = tt; current_is = c; errors_are = inr e }

    cool-Sound :
        (t : Tuner floats) (accepts : Bool)
        → t.current_limit_mw ≤ ceiling
        → t.consecutive_errors < 5
        → Sound (cool floats config constraints t accepts)
    unfolding cool safe_limit_of
    cool-Sound t true c e = record {
      allowed = (omega (arith, range, over), tt);
      current_is = omega (arith, range, over);
      errors_are = inr e;
    }
    cool-Sound t false c e = record {
      allowed = (omega (arith, range, over), tt);
      current_is = c;
      errors_are = inr e;
    }

    request-Sound :
        (t : Tuner floats) (clamped : ℕ) (accepts : Bool)
        → IsAllowed clamped
        → t.current_limit_mw ≤ ceiling
        → t.consecutive_errors < 5
        → Sound (request floats config constraints t clamped accepts)
    unfolding request
    request-Sound t clamped accepts ok c e = elim (Bool-cases (clamped == t.current_limit_mw)) [
      | inl same ↦ rw (request, same) (idle-Sound _ c e)
      | inr ne ↦ rw (request, ne) (go accepts)
    ]
      where
        go :
            (a : Bool)
            → Sound (
                if a
                then record {
                  requested = some clamped;
                  tuner = record t { current_limit_mw = clamped; consecutive_errors = 0 };
                  stops = false;
                }
                else record {
                  requested = some clamped;
                  tuner = record t { consecutive_errors = t.consecutive_errors + 1 };
                  stops = leb 5 (t.consecutive_errors + 1);
                })
        go true = record { allowed = (ok, tt); current_is = ok.1; errors_are = inr (omega arith) }
        go false = record { allowed = (ok, tt); current_is = c; errors_are = ground arith }

    climb-Sound :
        (t : Tuner floats) (hashrate : floats.F) (power_mw : ℕ) (accepts : Bool)
        → t.current_limit_mw ≤ ceiling
        → t.consecutive_errors < 5
        → Sound (climb floats config constraints t hashrate power_mw accepts)
    unfolding climb
    climb-Sound t hashrate power_mw accepts c e =
        request-Sound _ _ accepts
          (omega (
            arith,
            range,
            over,
            clamped_limit-bounds _ t.current_limit_mw (step_mw_of config) _ _ range,
          ))
          c e

    act-Sound :
        (t : Tuner floats) (hashrate : floats.F) (temp_c : ℕ) (power_usage : Option ℕ)
        (accepts : Bool)
        → t.current_limit_mw ≤ ceiling
        → t.consecutive_errors < 5
        → Sound (act floats config constraints t hashrate temp_c power_usage accepts)
    unfolding act
    act-Sound t hashrate temp_c power_usage accepts c e =
        go (leb config.max_temp_c temp_c) power_usage
      where
        measured :
            (p : ℕ) (zero_power : Bool)
            → Sound (
                if zero_power
                then record { requested = none; tuner = t; stops = false }
                else climb floats config constraints t hashrate p accepts)
        measured p true = idle-Sound t c e
        measured p false = climb-Sound t hashrate p accepts c e

        go :
            (hot : Bool) (power : Option ℕ)
            → Sound (
                if hot then cool floats config constraints t accepts else elim power [
                  | none ↦ record { requested = none; tuner = t; stops = false }
                  | some p ↦
                      if p == 0
                      then record { requested = none; tuner = t; stops = false }
                      else climb floats config constraints t hashrate p accepts
                ])
        go true power = cool-Sound t accepts c e
        go false none = idle-Sound t c e
        go false (some p) = measured p (p == 0)

    look-Sound :
        (t : Tuner floats) (tick : Tick floats)
        → t.current_limit_mw ≤ ceiling
        → t.consecutive_errors < 5
        → Sound (look floats config constraints t tick)
    unfolding look
    look-Sound t tick c e = go tick.sample tick.temperature
      where
        fresh :
            (hashrate : floats.F) (stale : Bool) (temperature : Option ℕ)
            → Sound (
                if stale
                then record { requested = none; tuner = t; stops = false }
                else elim temperature [
                  | none ↦ record { requested = none; tuner = t; stops = false }
                  | some temp_c ↦
                      act floats config constraints t hashrate temp_c tick.power_usage tick.accepts
                ])
        fresh hashrate true temperature = idle-Sound t c e
        fresh hashrate false none = idle-Sound t c e
        fresh hashrate false (some temp_c) =
            act-Sound t hashrate temp_c tick.power_usage tick.accepts c e

        go :
            (sample : Option (floats.F × ℕ)) (temperature : Option ℕ)
            → Sound (elim sample [
              | none ↦ record { requested = none; tuner = t; stops = false }
              | some (hashrate, age) ↦
                  if ltb (stale_ns floats config) age
                  then record { requested = none; tuner = t; stops = false }
                  else elim temperature [
                    | none ↦ record { requested = none; tuner = t; stops = false }
                    | some temp_c ↦
                        act floats config constraints t hashrate temp_c tick.power_usage
                          tick.accepts
                  ]
            ])
        go none temperature = idle-Sound t c e
        go (some (hashrate, age)) temperature =
            fresh hashrate (ltb (stale_ns floats config) age) temperature

    pub turn-Sound :
        (t : Tuner floats) (tick : Tick floats)
        → t.current_limit_mw ≤ ceiling
        → t.consecutive_errors < 5
        → Sound (turn floats config constraints t tick)
    unfolding turn
    turn-Sound t tick c e = go tick.wait
      where
        go :
            (w : Wait)
            → Sound (elim w [
              | Wait.received ↦ record { requested = none; tuner = t; stops = true }
              | Wait.disconnected ↦ record { requested = none; tuner = t; stops = true }
              | timeout ↦ look floats config constraints t tick
            ])
        go Wait.received = record { allowed = tt; current_is = c; errors_are = inl refl }
        go Wait.disconnected = record { allowed = tt; current_is = c; errors_are = inl refl }
        go timeout = look-Sound t tick c e

    requests-All :
        (o : Option ℕ) (rest : List ℕ)
        → All IsAllowed (requests o [])
        → All IsAllowed rest
        → All IsAllowed (requests o rest)
    requests-All none rest h r = r
    requests-All (some l) rest h r = (h.0, r)

    tune-IsAllowed :
        (t : Tuner floats) (ticks : List (Tick floats))
        → t.current_limit_mw ≤ ceiling
        → t.consecutive_errors < 5
        → All IsAllowed (tune floats config constraints t ticks).0
    unfolding tune
    tune-IsAllowed t [] c e = tt
    tune-IsAllowed t (tick ∷ ticks) c e =
        go (Bool-cases step.stops) s.errors_are
          (λ small. tune-IsAllowed step.tuner ticks s.current_is small)
      where
        step : Turn floats
        step = turn floats config constraints t tick

        s : Sound step
        s = turn-Sound t tick c e

        later : List ℕ × Tuner floats
        later = tune floats config constraints step.tuner ticks

        go :
            (step.stops ≡ true) ⊎ (step.stops ≡ false)
            → (step.stops ≡ true) ⊎ (step.tuner.consecutive_errors < 5)
            → (step.tuner.consecutive_errors < 5 → All IsAllowed later.0)
            → All IsAllowed
                (if◌then◌else◌ {A = List ℕ × Tuner floats} step.stops
                  (requests step.requested [], step.tuner)
                  (requests step.requested later.0, later.1)).0
        go (inl stop) errors rest = rw stop s.allowed
        go (inr on) (inl stop) rest = absurd (ground (arith, on, stop))
        go (inr on) (inr small) rest =
            rw on (requests-All step.requested later.0 s.allowed (rest small))

-- Whatever the GPU reports, the autotuner asks the device only for limits of the configured range,
-- clamped to the driver's, or below the limit that it found at its start, if that was higher.
pub run_autotune_loop-IsAllowed :
    (floats : Floats) (config : AutotuneConfig) (constraints : Constraints) (current : ℕ)
    (ticks : List (Tick floats))
    → All
        (λ l.
          (hard_min_mw config constraints ≤ l) × (l ≤ max (hard_max_mw config constraints) current))
        (run_autotune_loop floats config constraints current ticks)
unfolding run_autotune_loop
run_autotune_loop-IsAllowed floats config constraints current ticks =
    elim (dec_lt (hard_min_mw config constraints) (hard_max_mw config constraints)) [
      | yes range ↦
          rw (run_autotune_loop, open_range range)
            (tune-IsAllowed floats config constraints (max (hard_max_mw config constraints) current)
              range (omega arith) _ ticks (omega arith) (omega arith))
      | no empty ↦ rw (run_autotune_loop, empty_range (omega arith)) tt
    ]
  where
    open_range :
        hard_min_mw config constraints < hard_max_mw config constraints
        → leb (hard_max_mw config constraints) (hard_min_mw config constraints) ≡ false
    open_range lt = ground arith

    empty_range :
        hard_max_mw config constraints ≤ hard_min_mw config constraints
        → leb (hard_max_mw config constraints) (hard_min_mw config constraints) ≡ true
    empty_range le = ground arith
