-- ===== src/Examples/MinerCases.antt =====
-- The workers and their channel at concrete states.
use cryptix_miner_test.Base.{◌%◌, ◌+◌, ◌/◌, ◌^◌, arith, refl, some, ◌≡◌}
use cryptix_miner_test.Watch.{ok}
use cryptix_miner_test.Miner.{job, CpuWorker, goes_on, nonce_of, receive, poll}
use cryptix_miner_test.Miner.Worker.{receive_partition, poll_partition, searches, searches_sweep}
use cryptix_miner_test.Stratum.Nonce.Partition.{IsPartition}
use cryptix_miner_test.Examples.PowCases.{hashes, work}

abbrev worker : CpuWorker
worker = record {
  nonce = 0xabcde;
  mask = 0xffff;
  fixed = 0x70000;
  state = some work;
  hashes_tried = 0;
}

part : IsPartition 0xffff 0x70000
part = record {
  width = 16;
  prefix = 7;
  fits = omega arith;
  at_least_byte = omega arith;
  mask_is = refl;
  fixed_is = refl;
  fixed_fits = omega arith;
}

receive_partition_example :
    (w' : CpuWorker) × (receive worker (ok (some (job work))) ≡ goes_on w')
    × (w'.state ≡ some work)
    × (nonce_of w' / 2 ^ part.width ≡ part.prefix)
    × (nonce_of w' % 2 ^ part.width ≡ 0xabcde % 2 ^ part.width)
receive_partition_example = receive_partition worker work part

poll_partition_example :
    (w' : CpuWorker) × (poll worker (ok (some (some (job work)))) ≡ goes_on w')
    × (w'.state ≡ some work)
    × (nonce_of w' / 2 ^ part.width ≡ part.prefix)
poll_partition_example = poll_partition worker work part

searches_sweep_example :
    (nonce_of (searches hashes work 3 worker) / 2 ^ part.width ≡ part.prefix)
    × (nonce_of (searches hashes work 3 worker) % 2 ^ part.width ≡ (0xabcde + 3) % 2 ^ part.width)
searches_sweep_example = searches_sweep hashes work 3 worker part
