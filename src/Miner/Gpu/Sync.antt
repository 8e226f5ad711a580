-- ===== src/Miner/Gpu/Sync.antt =====
-- src/miner.rs: a GPU worker whose device fails, with no fallback left.
use cryptix_miner_test.Base.{List, [], false, none, refl, some, ◌∷◌, ◌≡◌, ◌∙◌}
use cryptix_miner_test.Pow.State.{State, Hashes}
use cryptix_miner_test.Miner.Gpu.{
  Device, Offer, GpuWorker, goes_on, load_and_pow, switch, collect, launch, gpu_turn, gpu_run,
  GpuTurn,
}

module _ (device : Device) (hashes : Hashes) where
  -- A device whose launches go through and whose wait always ends in an error, as a launch that
  -- takes longer than a second does.
  pub record IsSlow : Type 0 where
    pub launches :
        (gpu : device.Worker) (s : State)
        → (gpu' : device.Worker) × (load_and_pow device gpu s ≡ some gpu')
    pub sync_fails : (gpu : device.Worker) → (device.sync gpu).1 ≡ false

  switch-none :
      (w : GpuWorker device) (otherwise : GpuTurn device)
      → w.fallback_spec ≡ none
      → switch device w otherwise ≡ otherwise
  unfolding switch
  switch-none w otherwise alone = rw (switch, alone) refl

  gpu_turn-some :
      (w : GpuWorker device) (s : State) (offer : Offer)
      → w.state ≡ some s
      → gpu_turn device hashes w offer ≡ launch device hashes w s offer.changed
  unfolding gpu_turn
  gpu_turn-some w s offer here = simp (gpu_turn, here)

  slow_turn :
      IsSlow
      → (w : GpuWorker device) (s : State) (offer : Offer) → w.state ≡ some s
      → w.fallback_spec ≡ none
      → (gpu : device.Worker) × (gpu_turn device hashes w offer
          ≡ (none, goes_on (record w { gpu = gpu })))
  unfolding launch collect
  slow_turn slow w s offer here alone =
      let (gpu, launched) = slow.launches w.gpu s in
      let waited = record w { gpu = (device.sync gpu).0 } in
      (
        (device.sync gpu).0,
        gpu_turn-some w s offer here
            ∙ rw
                (
                  launch,
                  launched,
                  collect,
                  slow.sync_fails gpu,
                  switch-none waited (goes_on waited) alone,
                )
                refl,
      )

  -- On a device whose wait always fails, a worker without a fallback goes on with the state that it
  -- has, whatever the channel offers, `Close` included, and sends nothing.
  pub gpu_run-sync_error :
      IsSlow
      → (w : GpuWorker device) (s : State) (offers : List Offer) → w.state ≡ some s
      → w.fallback_spec ≡ none
      → (w' : GpuWorker device) × (gpu_run device hashes w offers ≡ ([], goes_on w'))
        × (w'.state ≡ some s)
        × (w'.hashes_tried ≡ w.hashes_tried)
  unfolding gpu_run
  gpu_run-sync_error slow w s [] here alone = (w, refl, here, refl)
  gpu_run-sync_error slow w s (offer ∷ offers) here alone =
      let (gpu, turned) = slow_turn slow w s offer here alone in
      let (w', ran, same, tried) =
        gpu_run-sync_error slow (record w { gpu = gpu }) s offers here alone in
      (w', simp (gpu_run, turned, ran), same, tried)
