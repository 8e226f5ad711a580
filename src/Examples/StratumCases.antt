-- ===== src/Examples/StratumCases.antt =====
-- The stratum client at a concrete handler.
use cryptix_miner_test.Base.{
  ◌+◌, ◌-◌, [], ◌^◌, arith, false, if◌then◌else◌, length, none, refl, some, true, ◌∷◌, ◌≡◌, ◌%◌,
  ◌*◌, ◌/◌, ◌<◌, inl, ◌≤◌, ◌⊎◌,
}
use cryptix_miner_test.Base.Text.{codes, from_str_radix_16, some_digits, hex_digits, hex_digit}
use cryptix_miner_test.Target.{Uint256}
use cryptix_miner_test.Stratum.{ShareStats, StratumHandler, done, failed, panicked}
use cryptix_miner_test.Stratum.Codec.{Reciprocal, job_not_found}
use cryptix_miner_test.Stratum.Nonce.{set_extranonce, set_extranonce_eth, without_prefix}
use cryptix_miner_test.Stratum.Nonce.Partition.{
  HasPartition, whole_space, set_extranonce-HasPartition, set_extranonce_eth-HasPartition,
  set_extranonce_eth-prefix,
}
use cryptix_miner_test.Stratum.Difficulty.{set_difficulty}
use cryptix_miner_test.Stratum.Difficulty.Exact.{meant}
use cryptix_miner_test.Stratum.Difficulty.Outcome.{
  exponent_of, set_difficulty-exact, set_difficulty_too_big, set_difficulty_boundary,
}
use cryptix_miner_test.Target.{IsWords}
use cryptix_miner_test.Target.Value.{value}
use cryptix_miner_test.Base.Text.{strip_prefix}
use cryptix_miner_test.Stratum.Shares.{lookup, reject}
use cryptix_miner_test.Stratum.Shares.Accounting.{IsMap, Settled, accounted, is_counted, reject_lem}
use cryptix_miner_test.Stratum.Session.{devfund_enabled}
use cryptix_miner_test.Stratum.Session.Devfund.{dev_turns, dev_turns_cycle}

abbrev zero_target : Uint256
zero_target = record { w0 = 0; w1 = 0; w2 = 0; w3 = 0 }

abbrev stats : ShareStats
stats = record {
  accepted = 3;
  stale = 1;
  low_diff = 0;
  duplicate = 0;
  shares_pending = (5, codes "a") ∷ (6, codes "b") ∷ [];
}

abbrev pub handler : StratumHandler
handler = record {
  miner_address = codes "miner";
  mine_when_not_synced = false;
  devfund_address = some (codes "dev");
  devfund_percent = 200;
  mining_dev = none;
  block_template_ctr = 150;
  target_pool = zero_target;
  target_real = zero_target;
  nonce_mask = 2 ^ 64 - 1;
  nonce_fixed = 0;
  extranonce = none;
  last_stratum_id = 7;
  shares_stats = stats;
  submit_worker = codes "miner";
}

set_extranonce-HasPartition_example : HasPartition (set_extranonce handler (codes "0xab12") 2).0
set_extranonce-HasPartition_example =
    set_extranonce-HasPartition handler (codes "0xab12") 2 whole_space

set_extranonce_eth-HasPartition_example : HasPartition (set_extranonce_eth handler (codes "ab12")).0
set_extranonce_eth-HasPartition_example =
    set_extranonce_eth-HasPartition handler (codes "ab12") whole_space

stats-IsMap : IsMap stats.shares_pending
unfolding IsMap lookup
stats-IsMap = (refl, (refl, tt))

reject_lem_example :
    let h' = (reject handler 6 job_not_found).0 in
    Settled 6 stats.shares_pending h'.shares_stats.shares_pending
    × ((reject handler 6 job_not_found).1 ≡ (if is_counted job_not_found then done else failed))
    × (accounted h'.shares_stats + (if is_counted job_not_found then 0 else 1) ≡ accounted stats)
reject_lem_example =
    reject_lem handler 6 (codes "b") job_not_found stats-IsMap (unfold lookup in refl) (omega arith)

dev_turns_cycle_example : dev_turns 10_000 handler ≡ 200
dev_turns_cycle_example =
    dev_turns_cycle handler (unfold devfund_enabled in refl) (omega arith) (omega arith)

-- Reciprocals of a difficulty at an exponent off the word boundaries, on one, and too large.
abbrev off_boundary : Reciprocal
off_boundary = record { mantissa = 0x800000; biased_exponent = 107 }

abbrev on_boundary : Reciprocal
on_boundary = record { mantissa = 0x800000; biased_exponent = 70 }

abbrev huge : Reciprocal
huge = record { mantissa = 0x800000; biased_exponent = 190 }

set_difficulty-exact_example :
    let (h', r) = set_difficulty true handler off_boundary in
    (r ≡ done) × (value h'.target_pool ≡ meant off_boundary) × IsWords h'.target_pool
set_difficulty-exact_example =
    set_difficulty-exact true handler off_boundary (omega arith) (omega arith) (inl (omega arith))
      (omega arith)

set_difficulty_too_big_example :
    ((exponent_of huge < 256) × (set_difficulty true handler huge ≡ (handler, failed)))
    ⊎ ((256 ≤ exponent_of huge) × (set_difficulty true handler huge ≡ (handler, panicked)))
set_difficulty_too_big_example =
    set_difficulty_too_big true handler huge (omega arith) (omega arith) (omega arith)

set_difficulty_boundary_example :
    (set_difficulty true handler on_boundary ≡ (handler, panicked))
    × ((set_difficulty false handler on_boundary).1 ≡ done)
    × (value (set_difficulty false handler on_boundary).0.target_pool
        ≡ meant on_boundary * (2 ^ 64 + 1))
set_difficulty_boundary_example =
    set_difficulty_boundary handler on_boundary (omega arith) refl (omega arith)

set_extranonce_eth-prefix_example :
    let size = (length (without_prefix (codes "ab12")) + 1) / 2 in
    let h' = set_extranonce_eth handler (codes "ab12") in
    (h'.1 ≡ done)
    × (h'.0.nonce_mask ≡ 2 ^ (8 * size) - 1)
    × (h'.0.nonce_fixed ≡ 0xab12 % 2 ^ (64 - 8 * size) * 2 ^ (8 * size))
set_extranonce_eth-prefix_example =
    set_extranonce_eth-prefix handler (codes "ab12") 0xab12
      (unfold without_prefix strip_prefix from_str_radix_16 some_digits hex_digits hex_digit in
        refl)
      (unfold without_prefix strip_prefix in omega arith)
