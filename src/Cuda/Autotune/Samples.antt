-- ===== src/Cuda/Autotune/Samples.antt =====
-- The sample that the worker hands to the autotuner.
use cryptix_miner_test.Base.{
  ℕ, ◌*◌, ◌-◌, ◌/◌, ◌<◌, ◌^◌, false, max, some, ◌≡◌, ◌%◌, ◌==◌, arith, refl,
}
use cryptix_miner_test.Cuda.Autotune.{Floats, AutotuneShared, record_sample, latest}

module _ (floats : Floats) where
  open floats use {F, from_bits, to_bits, divide, is_le, zero_float}

  -- When the bits of a float give it back, and the launch took time and tried nonces, `latest` gives
  -- the launch's hashrate, and an age that is the time since the millisecond of the record, the
  -- first millisecond counting as the second; it is never taken for a missing sample.
  pub latest-record_sample :
      (then_ns now_ns : ℕ) (shared : AutotuneShared floats) (hashes elapsed_secs : F)
      → from_bits (to_bits (divide hashes elapsed_secs)) ≡ divide hashes elapsed_secs
      → is_le elapsed_secs zero_float ≡ false
      → is_le hashes zero_float ≡ false
      → then_ns / 10 ^ 6 < 2 ^ 64
      → latest floats now_ns (record_sample floats then_ns shared hashes elapsed_secs)
        ≡ some (divide hashes elapsed_secs, now_ns - max (then_ns / 10 ^ 6) 1 * 10 ^ 6)
  unfolding latest record_sample
  latest-record_sample then_ns now_ns shared hashes elapsed_secs bits took tried small =
      rw (latest, record_sample, took, tried, whole, is_set, bits) refl
    where
      ms : ℕ
      ms = max (then_ns / 10 ^ 6) 1

      whole : then_ns / 10 ^ 6 % 2 ^ 64 ≡ then_ns / 10 ^ 6
      whole = omega arith

      is_set : (ms == 0) ≡ false
      is_set = ground arith
