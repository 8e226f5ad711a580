-- ===== src/Miner/Worker.antt =====
-- src/miner.rs: the nonces that a CPU worker tries, after a job that it waited for and after one
-- that comes with a poll.
use cryptix_miner_test.Base.{
  ℕ, ◌%◌, ◌/◌, ◌^◌, refl, some, suc, zero, ◌≡◌, ◌*◌, ◌+◌, ◌-◌, ap, arith, sym, ◌∙◌,
}
use Prim.Native.Nat.{◌∣◌}
use native.Mathlib.Nat.{
  mod-mod, mod-add-mod, mod-mod_of_dvd, add-mul-mod_self_right, dvd_of_mod-eq-zero, mul-mod_right,
}
use cryptix_miner_test.Base.Pow.{pow-sub}
use cryptix_miner_test.Pow.State.{State, Hashes}
use cryptix_miner_test.Watch.{ok}
use cryptix_miner_test.Miner.{job, CpuWorker, goes_on, nonce_of, receive, poll, search_nonce}
use cryptix_miner_test.Stratum.Nonce.Partition.{IsPartition, tried_lem}

abbrev WorkerPartition : CpuWorker → Type 0
WorkerPartition w = IsPartition w.mask w.fixed

-- The low bits of the nonce that is tried are those of the counter.
nonce_of-low :
    (w : CpuWorker) (part : WorkerPartition w)
    → nonce_of w % 2 ^ part.width ≡ w.nonce % 2 ^ part.width
nonce_of-low w part =
    ap (λ (t : ℕ). t % 2 ^ part.width)
      ((tried_lem w.mask w.fixed w.nonce part).0
        ∙ ap (λ (t : ℕ). w.nonce % 2 ^ part.width + t) part.fixed_is)
    ∙ add-mul-mod_self_right (w.nonce % 2 ^ part.width) part.prefix (2 ^ part.width)
    ∙ mod-mod w.nonce (2 ^ part.width)

-- After a state with a partition is received, the nonce that is tried has the state's fixed bits
-- on high and the counter's bits below.
pub receive_partition :
    (w : CpuWorker) (s : State) (part : IsPartition s.nonce_mask s.nonce_fixed)
    → (w' : CpuWorker) × (receive w (ok (some (job s))) ≡ goes_on w')
      × (w'.state ≡ some s)
      × (nonce_of w' / 2 ^ part.width ≡ part.prefix)
      × (nonce_of w' % 2 ^ part.width ≡ w.nonce % 2 ^ part.width)
unfolding receive
receive_partition w s part = (
  record w { state = some s; mask = s.nonce_mask; fixed = s.nonce_fixed },
  refl,
  refl,
  (tried_lem s.nonce_mask s.nonce_fixed w.nonce part).2,
  nonce_of-low (record w { state = some s; mask = s.nonce_mask; fixed = s.nonce_fixed }) part,
)

-- A job that comes with a poll is searched with the mask and the fixed bits of the state before
-- it: the next nonce has the old prefix.
pub poll_partition :
    (w : CpuWorker) (s : State) (part : IsPartition w.mask w.fixed)
    → (w' : CpuWorker) × (poll w (ok (some (some (job s)))) ≡ goes_on w')
      × (w'.state ≡ some s)
      × (nonce_of w' / 2 ^ part.width ≡ part.prefix)
unfolding poll
poll_partition w s part =
    (record w { state = some s }, refl, refl, (tried_lem w.mask w.fixed w.nonce part).2)

-- The worker after k searches of one state, when no event of the channel comes between.
unfoldable pub searches : Hashes → State → ℕ → CpuWorker → CpuWorker
searches hashes s zero w = w
searches hashes s (suc k) w = searches hashes s k (search_nonce hashes w s).1

search_nonce-low :
    (hashes : Hashes) (s : State) (w : CpuWorker) (part : WorkerPartition w)
    → (search_nonce hashes w s).1.nonce % 2 ^ part.width ≡ (w.nonce + 1) % 2 ^ part.width
unfolding search_nonce
search_nonce-low hashes s w part =
    mod-mod_of_dvd (2 ^ part.width) (nonce_of w + 1) divides
    ∙ sym (mod-add-mod (nonce_of w) (2 ^ part.width) 1)
    ∙ ap (λ (t : ℕ). (t + 1) % 2 ^ part.width) (nonce_of-low w part)
    ∙ mod-add-mod w.nonce (2 ^ part.width) 1
  where
    whole : 2 ^ 64 ≡ 2 ^ part.width * 2 ^ (64 - part.width)
    whole = sym (pow-sub part.width 64 part.fits)

    divides : 2 ^ part.width ∣ 2 ^ 64
    divides = dvd_of_mod-eq-zero (2 ^ part.width) (
        ap (λ (t : ℕ). t % 2 ^ part.width) whole
        ∙ mul-mod_right (2 ^ part.width) (2 ^ (64 - part.width)))

-- Under a partition, after k searches of one state a worker tries the nonce of its own prefix whose
-- low bits stand k further than those of its counter.
pub searches_sweep :
    (hashes : Hashes) (s : State) (k : ℕ) (w : CpuWorker) (part : WorkerPartition w)
    → (nonce_of (searches hashes s k w) / 2 ^ part.width ≡ part.prefix)
      × (nonce_of (searches hashes s k w) % 2 ^ part.width ≡ (w.nonce + k) % 2 ^ part.width)
unfolding searches search_nonce
searches_sweep hashes s zero w part = (
  (tried_lem w.mask w.fixed w.nonce part).2,
  nonce_of-low w part ∙ ap (λ (t : ℕ). t % 2 ^ part.width) (omega arith),
)
searches_sweep hashes s (suc k) w part =
    let (high, low) = searches_sweep hashes s k (search_nonce hashes w s).1 part in
    (high, low ∙ later)
  where
    p : ℕ
    p = 2 ^ part.width

    n' : ℕ
    n' = (search_nonce hashes w s).1.nonce

    later : (n' + k) % p ≡ (w.nonce + suc k) % p
    later =
        sym (mod-add-mod n' p k)
        ∙ ap (λ (t : ℕ). (t + k) % p) (search_nonce-low hashes s w part)
        ∙ mod-add-mod (w.nonce + 1) p k
        ∙ ap (λ (t : ℕ). t % p) (omega arith)
