-- ===== src/Miner/Gpu/Run.antt =====
-- src/miner.rs: what a GPU worker sends.
use cryptix_miner_test.Base.{
  All, ℕ, Option, ◌≢◌, ◌≡◌, ◌≤◌, List, ◌==◌, Bool-cases, Option-cases, arith, inl, inr, none, some,
  Bool, if◌then◌else◌, leb, sym, true, ◌∙◌, [], ◌∷◌,
}
use cryptix_miner_test.Target.{IsWords}
use cryptix_miner_test.Target.Value.{value}
use cryptix_miner_test.Pow.{BlockSeed, full_block, partial_block}
use cryptix_miner_test.Pow.State.{State, Hashes, calculate_pow, found, generate_block_if_pow}
use cryptix_miner_test.Pow.State.Search.{generate_block_if_pow-found, IsWord}
use cryptix_miner_test.Watch.{Result, ok, channel_closed}
use cryptix_miner_test.Miner.{WorkerCommand, job, close, after_block}
use cryptix_miner_test.Miner.Gpu.{
  Device, Offer, GpuWorker, GpuTurn, goes_on, stops, fails, load_and_pow, switch, poll, count,
  read_nonce, collect, launch, gpu_turn, sent, gpu_run,
}

-- The states that an offer hands over are of a class.
module _ (P : State → Type 0) where
  abbrev CommandIn : Option WorkerCommand → Type 0
  CommandIn none = Unit
  CommandIn (some close) = Unit
  CommandIn (some (job s)) = P s

  abbrev ChangedIn : Result (Option (Option WorkerCommand)) → Type 0
  ChangedIn channel_closed = Unit
  ChangedIn (ok none) = Unit
  ChangedIn (ok (some command)) = CommandIn command

  abbrev WaitedIn : Result (Option WorkerCommand) → Type 0
  WaitedIn channel_closed = Unit
  WaitedIn (ok command) = CommandIn command

  pub record OfferIn (offer : Offer) : Type 0 where
    pub waited_in : WaitedIn offer.waited
    pub changed_in : ChangedIn offer.changed

  abbrev pub StateIn : Option State → Type 0
  StateIn none = Unit
  StateIn (some s) = P s

  -- The seed of a state of the class, with a nonce whose hash is at most the state's target.
  pub record IsAnswer (hashes : Hashes) (b : BlockSeed) : Type 0 where
    pub s : State
    pub nonce : ℕ
    pub of_class : P s
    pub is_nonce : nonce ≢ 0
    pub small : value (calculate_pow hashes s nonce) ≤ value s.target
    pub seed_is : b ≡ found hashes s nonce s.block

  module _ (device : Device) (hashes : Hashes) where
    abbrev SentIn : Option BlockSeed → Type 0
    SentIn none = Unit
    SentIn (some b) = IsAnswer hashes b

    abbrev NextIn : GpuTurn device → Type 0
    NextIn (goes_on w) = StateIn w.state
    NextIn stops = Unit
    NextIn fails = Unit

    abbrev TurnIn : Option BlockSeed × GpuTurn device → Type 0
    TurnIn turned = SentIn turned.0 × NextIn turned.1

    abbrev RunIn : List BlockSeed × GpuTurn device → Type 0
    RunIn ran = All (IsAnswer hashes) ran.0

    switch-NextIn :
        (w : GpuWorker device) (otherwise : GpuTurn device)
        → StateIn w.state
        → NextIn otherwise
        → NextIn (switch device w otherwise)
    unfolding switch
    switch-NextIn w otherwise here h = elim (Option-cases w.fallback_spec) [
      | inl alone ↦ rw (switch, alone) h
      | inr (spec, spare) ↦ elim (Option-cases (device.build spec)) [
        | inl broken ↦ rw (switch, spare, broken) tt
        | inr (gpu, built) ↦ rw (switch, spare, built) here
      ]
    ]

    poll-NextIn :
        (w : GpuWorker device) (changed : Result (Option (Option WorkerCommand)))
        → StateIn w.state
        → ChangedIn changed
        → NextIn (poll device w changed)
    unfolding poll
    poll-NextIn w channel_closed here h = tt
    poll-NextIn w (ok none) here h = here
    poll-NextIn w (ok (some none)) here h = tt
    poll-NextIn w (ok (some (some close))) here h = tt
    poll-NextIn w (ok (some (some (job s)))) here h = h

    after_block-StateIn : (s : State) (b : Option BlockSeed) → P s → StateIn (after_block s b)
    unfolding after_block
    after_block-StateIn s none h = h
    after_block-StateIn s (some (full_block block)) h = tt
    after_block-StateIn s (some (partial_block seed)) h = h

    module _ (words : (state : List ℕ) → All IsWord (hashes.f1600 state))
        (targets : (s : State) → P s → IsWords s.target) where
      answer :
          (s : State) (nonce : ℕ) (b : BlockSeed)
          → P s
          → nonce ≢ 0
          → generate_block_if_pow hashes s nonce ≡ some b
          → IsAnswer hashes b
      answer s nonce b h positive e = record {
        s = s;
        nonce = nonce;
        of_class = h;
        is_nonce = positive;
        small = ground (arith, small);
        seed_is = ground (arith, small, solved);
      }
        where
          bound : Bool
          bound = leb (value (calculate_pow hashes s nonce)) (value s.target)

          solved : (if bound then some (found hashes s nonce s.block) else none) ≡ some b
          solved = sym (generate_block_if_pow-found hashes s nonce words (targets s h)) ∙ e

          small : bound ≡ true
          small = ground (arith, solved)

      read_nonce-TurnIn :
          (w : GpuWorker device) (s : State) (nonce : ℕ)
          (changed : Result (Option (Option WorkerCommand)))
          → P s
          → StateIn w.state
          → ChangedIn changed
          → TurnIn (read_nonce device hashes w s nonce changed)
      unfolding read_nonce count
      read_nonce-TurnIn w s nonce changed of_class here h = elim (Bool-cases (nonce == 0)) [
        | inl none_found ↦
            rw (read_nonce, none_found) (tt, poll-NextIn (count device w) changed here h)
        | inr nonzero ↦ elim (Option-cases (generate_block_if_pow hashes s nonce)) [
          | inl wrong ↦ rw (read_nonce, nonzero, wrong) (tt, tt)
          | inr (b, right) ↦
              rw (read_nonce, nonzero, right)
                (
                  answer s nonce b of_class (ground (arith, nonzero)) right,
                  after_block-StateIn s (some b) of_class,
                )
        ]
      ]

      collect-TurnIn :
          (w : GpuWorker device) (s : State) (changed : Result (Option (Option WorkerCommand)))
          → P s
          → StateIn w.state
          → ChangedIn changed
          → TurnIn (collect device hashes w s changed)
      unfolding collect
      collect-TurnIn w s changed of_class here h =
          let gpu = (device.sync w.gpu).0 in
          let read = (device.copy_output_to gpu).0 in
          elim (Bool-cases (device.sync w.gpu).1) [
            | inr failed ↦
                rw (collect, failed) (tt, switch-NextIn (record w { gpu = gpu }) _ here here)
            | inl synced ↦ elim (Option-cases (device.copy_output_to gpu).1) [
              | inl failed ↦
                  rw (collect, synced, failed)
                    (tt, switch-NextIn (record w { gpu = read }) fails here tt)
              | inr (nonce, output) ↦
                  rw (collect, synced, output)
                    (read_nonce-TurnIn (record w { gpu = read }) s nonce changed of_class here h)
            ]
          ]

      launch-TurnIn :
          (w : GpuWorker device) (s : State) (changed : Result (Option (Option WorkerCommand)))
          → P s
          → StateIn w.state
          → ChangedIn changed
          → TurnIn (launch device hashes w s changed)
      unfolding launch
      launch-TurnIn w s changed of_class here h =
          elim (Option-cases (load_and_pow device w.gpu s)) [
            | inl panicked ↦ rw (launch, panicked) (tt, switch-NextIn w fails here tt)
            | inr (gpu, launched) ↦
                rw (launch, launched)
                  (collect-TurnIn (record w { gpu = gpu }) s changed of_class here h)
          ]

      gpu_turn-TurnIn :
          (w : GpuWorker device) (offer : Offer)
          → StateIn w.state
          → OfferIn offer
          → TurnIn (gpu_turn device hashes w offer)
      unfolding gpu_turn
      gpu_turn-TurnIn w offer here h = go w.state here
        where
          waited :
              (r : Result (Option WorkerCommand))
              → WaitedIn r
              → TurnIn (elim r [
                | channel_closed ↦ (none, stops)
                | ok none ↦ (none, goes_on w)
                | ok (some close) ↦ (none, stops)
                | ok (some (job s)) ↦
                    launch device hashes (record w { state = some s }) s offer.changed
              ])
          waited channel_closed p = (tt, tt)
          waited (ok none) p = (tt, here)
          waited (ok (some close)) p = (tt, tt)
          waited (ok (some (job s))) p =
              launch-TurnIn (record w { state = some s }) s offer.changed p p h.changed_in

          go :
              (o : Option State)
              → StateIn o
              → TurnIn (elim o [
                | some s ↦ launch device hashes w s offer.changed
                | none ↦ elim offer.waited [
                  | channel_closed ↦ (none, stops)
                  | ok none ↦ (none, goes_on w)
                  | ok (some close) ↦ (none, stops)
                  | ok (some (job s)) ↦
                      launch device hashes (record w { state = some s }) s offer.changed
                ]
              ])
          go none p = waited offer.waited h.waited_in
          go (some s) p = launch-TurnIn w s offer.changed p here h.changed_in

      sent-All :
          (b : Option BlockSeed) (rest : List BlockSeed)
          → SentIn b
          → All (IsAnswer hashes) rest
          → All (IsAnswer hashes) (sent device hashes b rest)
      sent-All none rest b h = h
      sent-All (some b) rest a h = (a, h)

      -- If every state that a GPU worker has or is handed is of a class, then whatever its device
      -- reports, each block that it sends is the seed of a state of the class with a nonce whose
      -- hash is at most the state's target; nonce 0 is never sent. The permutation gives words, and
      -- so do the targets of the class.
      pub gpu_run-IsAnswer :
          (w : GpuWorker device) (offers : List Offer)
          → StateIn w.state
          → All OfferIn offers
          → All (IsAnswer hashes) (gpu_run device hashes w offers).0
      unfolding gpu_run
      gpu_run-IsAnswer w [] here h = tt
      gpu_run-IsAnswer w (offer ∷ offers) here (h, hs) =
          go turned.0 turned.1 (gpu_turn-TurnIn w offer here h)
            (λ w' p. gpu_run-IsAnswer w' offers p hs)
        where
          turned : Option BlockSeed × GpuTurn device
          turned = gpu_turn device hashes w offer

          go :
              (b : Option BlockSeed) (next : GpuTurn device)
              → TurnIn (b, next)
              → ((w' : GpuWorker device)
                  → StateIn w'.state
                  → All (IsAnswer hashes) (gpu_run device hashes w' offers).0)
              → RunIn (elim next [
                | stops ↦ (sent device hashes b [], stops)
                | fails ↦ (sent device hashes b [], fails)
                | goes_on w' ↦
                    let (blocks, end) = gpu_run device hashes w' offers in
                    (sent device hashes b blocks, end)
              ])
          go b stops p rest = sent-All b [] p.0 tt
          go b fails p rest = sent-All b [] p.0 tt
          go b (goes_on w') p rest = sent-All b _ p.0 (rest w' p.1)
