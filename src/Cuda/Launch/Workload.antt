-- ===== src/Cuda/Launch/Workload.antt =====
-- plugins/cuda/src/worker.rs: the launches of a workload, and the kernel for a device.
use cryptix_miner_test.Base.{
  Bool, ◌*◌, ◌+◌, ◌-◌, ◌/◌, ◌<◌, ◌^◌, some, ℕ, ◌≡◌, ◌≤◌, ◌&&◌, ◌==◌, Option, arith, false,
  if◌then◌else◌, leb, none, refl, true, ◌%◌, ◌||◌,
}
use native.Mathlib.Nat.{lt-mul-div-succ, mul-div-le}
use cryptix_miner_test.Cuda.Options.{KernelVariant, baseline, high_occupancy, low_register}
use cryptix_miner_test.Cuda.Launch.{
  Ptx, ptx_90, ptx_89, ptx_87, ptx_86, ptx_80, ptx_75, ptx_72, ptx_70, ptx_70_high_occ,
  ptx_70_low_reg, ptx_62, ptx_61, ptx_60, ptx_52, ptx_50, choose_ptx, volta_ptx, Kernel,
  get_workload, set_workload,
}

-- A ceiling, times its divisor.
ceil : ℕ → ℕ → ℕ
ceil n b = (n + (b - 1)) / b

ceil_bounds : (n b : ℕ) → 0 < b → (n ≤ b * ceil n b) × (b * ceil n b < n + b)
unfolding ceil
ceil_bounds n b positive = (
  omega (arith, lt-mul-div-succ (n + (b - 1)) positive, mul-succ),
  omega (arith, mul-div-le (n + (b - 1)) b),
)
  where
    mul-succ : b * (ceil n b + 1) ≡ b * ceil n b + b
    mul-succ = omega arith

-- On a block size above 0, the grid that is set for a workload has a thread for each unit of it,
-- and less than a block more, as long as a further block stays below 2^32.
pub set_workload-get_workload :
    (kernel : Kernel) (workload : ℕ)
    → 0 < kernel.block_size
    → workload + kernel.block_size ≤ 2 ^ 32
    → (sized : Kernel) × (set_workload kernel workload ≡ some sized)
      × (sized.block_size ≡ kernel.block_size)
      × (workload ≤ get_workload sized)
      × (get_workload sized < workload + kernel.block_size)
unfolding set_workload get_workload ceil
set_workload-get_workload kernel workload positive fits = (
  record kernel { grid_size = ceil workload b },
  rw (set_workload, test, wraps) refl,
  refl,
  omega (arith, low, high),
  omega (arith, low, high),
)
  where
    b : ℕ
    b = kernel.block_size

    test : (b == 0) ≡ false
    test = ground (arith, positive)

    wraps : ((workload + b) % 2 ^ 32 + (2 ^ 32 - 1)) % 2 ^ 32 ≡ workload + (b - 1)
    wraps = omega (arith, positive, fits)

    low : workload ≤ b * ceil workload b
    low = (ceil_bounds workload b positive).0

    high : b * ceil workload b < workload + b
    high = (ceil_bounds workload b positive).1

-- The capability that a text is built for, as ten times its major number and its minor one.
abbrev capability : Ptx → ℕ
capability ptx_90 = 90
capability ptx_89 = 89
capability ptx_87 = 87
capability ptx_86 = 86
capability ptx_80 = 80
capability ptx_75 = 75
capability ptx_72 = 72
capability ptx_70 = 70
capability ptx_70_high_occ = 70
capability ptx_70_low_reg = 70
capability ptx_62 = 62
capability ptx_61 = 61
capability ptx_60 = 60
capability ptx_52 = 52
capability ptx_50 = 50

module _ (major minor : ℕ) where
  abbrev IsFit : Option Ptx → Type 0
  IsFit none = Unit
  IsFit (some ptx) = capability ptx ≤ 10 * major + minor

  test-IsFit :
      (b : Bool) (x y : Option Ptx) → (b ≡ true → IsFit x) → IsFit y → IsFit (if b then x else y)
  test-IsFit true x y h k = h refl
  test-IsFit false x y h k = k

  version : (m n : ℕ) → leb m major && (minor == n) ≡ true → 10 * m + n ≤ 10 * major + minor
  version m n e = ground (arith, e)

  newest : leb 9 major || ((major == 9) && (minor == 0)) ≡ true → 90 ≤ 10 * major + minor
  newest e = ground (arith, e)

  oldest : leb 5 major ≡ true → 50 ≤ 10 * major + minor
  oldest e = ground (arith, e)

  volta_ptx-IsFit : (v : KernelVariant) → 70 ≤ 10 * major + minor → IsFit (some (volta_ptx v))
  unfolding volta_ptx
  volta_ptx-IsFit baseline h = h
  volta_ptx-IsFit high_occupancy h = h
  volta_ptx-IsFit low_register h = h

  -- The text that is loaded for a device needs no capability above the device's own.
  pub choose_ptx-IsFit : (v : KernelVariant) → IsFit (choose_ptx major minor v)
  unfolding choose_ptx
  choose_ptx-IsFit v = test-IsFit _ _ _ newest (
      test-IsFit _ _ _ (version 8 9) (
        test-IsFit _ _ _ (version 8 7) (
          test-IsFit _ _ _ (version 8 6) (
            test-IsFit _ _ _ (version 8 0) (
              test-IsFit _ _ _ (version 7 5) (
                test-IsFit _ _ _ (version 7 2) (
                  test-IsFit _ _ _ (λ e. volta_ptx-IsFit v (version 7 0 e))
                    (test-IsFit _ _ _ (version 6 2) (
                      test-IsFit _ _ _ (version 6 1) (
                        test-IsFit _ _ _ (version 6 0)
                          (test-IsFit _ _ _ (version 5 2) (test-IsFit _ _ _ oldest tt))))))))))))
