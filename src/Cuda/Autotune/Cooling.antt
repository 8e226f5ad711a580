-- ===== src/Cuda/Autotune/Cooling.antt =====
-- plugins/cuda/src/autotune.rs: the autotuner on a hot GPU.
use native.Mathlib.Nat.{suc-mul}
use cryptix_miner_test.Base.{
  ℕ, ◌*◌, ◌-◌, All, List, [], arith, false, leb, length, ltb, max, refl, some, true, ◌∷◌, ◌≡◌, ◌≤◌,
  ap, suc, ◌∙◌,
}
use cryptix_miner_test.Cuda.Autotune.{
  AutotuneConfig, Constraints, Floats, timeout, Tick, Tuner, hard_min_mw, step_mw_of, safe_limit_of,
  cool, act, look, turn, tune, stale_ns,
}

module _ (floats : Floats) (config : AutotuneConfig) (constraints : Constraints) where
  -- A turn with a fresh sample, a temperature at the ceiling or above it, and a device that takes
  -- the limit it is given.
  pub record IsHot (tick : Tick floats) : Type 0 where
    pub hashrate : floats.F
    pub age : ℕ
    pub temp_c : ℕ
    pub waits : tick.wait ≡ timeout
    pub sampled : tick.sample ≡ some (hashrate, age)
    pub is_fresh : age ≤ stale_ns floats config
    pub measured : tick.temperature ≡ some temp_c
    pub too_hot : config.max_temp_c ≤ temp_c
    pub takes : tick.accepts ≡ true

  hot_turn :
      (t : Tuner floats) (tick : Tick floats)
      → IsHot tick
      → turn floats config constraints t tick ≡ cool floats config constraints t true
  unfolding turn look act
  hot_turn t tick h = rw (turn, h.waits, look, h.sampled, stale, h.measured, act, hot, h.takes) refl
    where
      stale : ltb (stale_ns floats config) h.age ≡ false
      stale = ground (arith, h.is_fresh)

      hot : leb config.max_temp_c h.temp_c ≡ true
      hot = ground (arith, h.too_hot)

  abbrev low : ℕ
  low = hard_min_mw config constraints

  abbrev step : ℕ
  step = step_mw_of config

  tune_cons :
      (t : Tuner floats) (tick : Tick floats) (ticks : List (Tick floats))
      → IsHot tick
      → (tune floats config constraints t (tick ∷ ticks)).1
        ≡ (tune floats config constraints (cool floats config constraints t true).tuner ticks).1
  unfolding tune cool
  tune_cons t tick ticks h = rw (tune, hot_turn t tick h, cool) refl

  steps_down : (n s c l : ℕ) → max l (max l (c - s) - n * s) ≡ max l (c - suc n * s)
  steps_down n s c l = omega (arith, suc-mul n s)

  cooled :
      (t : Tuner floats) (tick : Tick floats) (ticks : List (Tick floats))
      → All IsHot (tick ∷ ticks)
      → (tune floats config constraints t (tick ∷ ticks)).1.current_limit_mw
        ≡ max low (t.current_limit_mw - length (tick ∷ ticks) * step)
  unfolding cool safe_limit_of
  cooled t tick [] h =
      ap (λ (x : Tuner floats). x.current_limit_mw) (tune_cons t tick [] h.0)
      ∙ (unfold tune in omega arith)
  cooled t tick (next ∷ ticks) h =
      ap (λ (x : Tuner floats). x.current_limit_mw) (tune_cons t tick (next ∷ ticks) h.0)
      ∙ cooled (cool floats config constraints t true).tuner next ticks h.1
      ∙ steps_down (length (next ∷ ticks)) step t.current_limit_mw low

  -- From a limit that is not below the lower bound, over a row of turns, one at least, each with a
  -- fresh sample, a temperature at the ceiling or above it and a device that takes its limit: the
  -- limit falls by a step for each, or to the lower bound, and is never raised.
  pub tune_cooling :
      (t : Tuner floats) (tick : Tick floats) (ticks : List (Tick floats))
      → low ≤ t.current_limit_mw
      → All IsHot (tick ∷ ticks)
      → ((tune floats config constraints t (tick ∷ ticks)).1.current_limit_mw
          ≡ max low (t.current_limit_mw - length (tick ∷ ticks) * step))
        × ((tune floats config constraints t (tick ∷ ticks)).1.current_limit_mw
            ≤ t.current_limit_mw)
  tune_cooling t tick ticks above h =
      let lowered = cooled t tick ticks h in (lowered, omega (arith, lowered, above))
