-- ===== src/Examples/GpuCases.antt =====
-- GPU workers on devices that are stood in for by functions.
use cryptix_miner_test.Base.{ℕ, ◌≡◌, All, [], ◌∷◌, arith, false, none, refl, some, true, suc}
use cryptix_miner_test.Target.{IsWords}
use cryptix_miner_test.Pow.State.{State}
use cryptix_miner_test.Watch.{ok}
use cryptix_miner_test.Miner.{job, close}
use cryptix_miner_test.Miner.Gpu.{Device, Offer, GpuWorker, goes_on, gpu_run, load_and_pow}
use cryptix_miner_test.Miner.Gpu.Run.{OfferIn, IsAnswer, gpu_run-IsAnswer}
use cryptix_miner_test.Miner.Gpu.Sync.{IsSlow, gpu_run-sync_error}
use cryptix_miner_test.Examples.PowCases.{hashes, work}

-- A device that counts its launches and gives the count as the nonce.
abbrev counting : Device
counting = record {
  Worker = ℕ;
  WorkerSpec = Unit;
  build = λ spec. some 0;
  load_block_constants = λ gpu header matrix target. some gpu;
  calculate_hash = λ gpu mask fixed. some (suc gpu);
  sync = λ gpu. (gpu, true);
  get_workload = λ gpu. 1024;
  copy_output_to = λ gpu. (gpu, some gpu);
}

abbrev slow : Device
slow = record counting { sync = λ (gpu : ℕ). (gpu, false) }

abbrev offer : Offer
offer = record { waited = ok (some (job work)); changed = ok none }

abbrev worker : GpuWorker counting
worker = record {
  gpu = 6;
  fallback_spec = some tt;
  state = some work;
  hashes_tried = 0;
  worker_hashes_tried = 0;
}

abbrev OfWords : State → Type 0
OfWords s = IsWords s.target

offer-OfferIn : OfferIn OfWords offer
offer-OfferIn = record { waited_in = omega arith; changed_in = tt }

gpu_run-IsAnswer_example :
    All (IsAnswer OfWords hashes) (gpu_run counting hashes worker (offer ∷ offer ∷ [])).0
gpu_run-IsAnswer_example =
    gpu_run-IsAnswer OfWords counting hashes (λ state. omega arith) (λ s h. h) worker
      (offer ∷ offer ∷ []) (omega arith) (offer-OfferIn, (offer-OfferIn, tt))

slow-IsSlow : IsSlow slow hashes
unfolding load_and_pow
slow-IsSlow = record { launches = λ gpu s. (suc gpu, refl); sync_fails = λ gpu. refl }

abbrev closing : Offer
closing = record { waited = ok (some close); changed = ok (some (some close)) }

abbrev stuck : GpuWorker slow
stuck = record {
  gpu = 6;
  fallback_spec = none;
  state = some work;
  hashes_tried = 0;
  worker_hashes_tried = 0;
}

gpu_run-sync_error_example :
    (w' : GpuWorker slow) × (gpu_run slow hashes stuck (closing ∷ closing ∷ []) ≡ ([], goes_on w'))
    × (w'.state ≡ some work)
    × (w'.hashes_tried ≡ 0)
gpu_run-sync_error_example =
    gpu_run-sync_error slow hashes slow-IsSlow stuck work (closing ∷ closing ∷ []) refl refl
