-- ===== src/Stratum/Session/Devfund.antt =====
-- How the work is divided between the miner's address and the devfund's, and when `listen` ends.
use cryptix_miner_test.Base.{
  ◌+◌, ◌<◌, List, Option, [], ap₂, arith, false, if◌then◌else◌, ltb, none, refl, some, suc, true,
  zero, ℕ, ◌∙◌, ◌∷◌, ◌≡◌, ◌≤◌, Bool-cases, inl, inr, sym, ◌⊎◌,
}
use cryptix_miner_test.Base.Cycle.{turns, turns_cycle}
use cryptix_miner_test.Stratum.{StratumHandler, done}
use cryptix_miner_test.Stratum.Codec.{StratumLine}
use cryptix_miner_test.Stratum.Session.{
  devfund_enabled, should_mine_dev, pay_address, changed, register, next_template, Environment,
  handle_message, listen, registered,
}

-- The number of the next n templates that are mined for the devfund.
pub dev_turns : ℕ → StratumHandler → ℕ
dev_turns zero h = 0
dev_turns (suc n) h = (if should_mine_dev h then 1 else 0) + dev_turns n (next_template h)

turn :
    (h : StratumHandler)
    → devfund_enabled h ≡ true
    → should_mine_dev h ≡ ltb h.block_template_ctr h.devfund_percent
unfolding should_mine_dev devfund_enabled
turn h e = rw e refl

dev_turns-eq-turns :
    (n : ℕ) (h : StratumHandler)
    → devfund_enabled h ≡ true
    → dev_turns n h ≡ turns h.devfund_percent n h.block_template_ctr
unfolding dev_turns turns
dev_turns-eq-turns zero h e = refl
dev_turns-eq-turns (suc n) h e =
    ap₂ ◌+◌ first (dev_turns-eq-turns n (next_template h) (unfold devfund_enabled in e))
  where
    first :
        ◌≡◌ {A = ℕ}
          (if should_mine_dev h then 1 else 0)
          (if ltb h.block_template_ctr h.devfund_percent then 1 else 0)
    first = rw (turn h e) refl

-- With a devfund, a counter below 10000 and a `devfund_percent` of at most 10000, exactly
-- `devfund_percent` of 10000 templates in a row are mined for the devfund.
pub dev_turns_cycle :
    (h : StratumHandler)
    → devfund_enabled h ≡ true
    → h.block_template_ctr < 10_000
    → h.devfund_percent ≤ 10_000
    → dev_turns 10_000 h ≡ h.devfund_percent
dev_turns_cycle h e lt le =
    dev_turns-eq-turns 10_000 h e
    ∙ turns_cycle h.devfund_percent 10_000 h.block_template_ctr refl lt le

no_address : (h : StratumHandler) → h.devfund_address ≡ none → should_mine_dev h ≡ false
unfolding should_mine_dev
no_address h e = unfold devfund_enabled in rw e (ground arith)

pub pay_address_total : (h : StratumHandler) → (address : List ℕ) × (pay_address h ≡ some address)
unfolding pay_address
pay_address_total h = go h.devfund_address refl (Bool-cases (should_mine_dev h))
  where
    go :
        (a : Option (List ℕ))
        → h.devfund_address ≡ a
        → (should_mine_dev h ≡ true) ⊎ (should_mine_dev h ≡ false)
        → (address : List ℕ) × ((if should_mine_dev h
              then h.devfund_address
              else some h.miner_address)
            ≡ some address)
    go a e (inr no_dev) = (h.miner_address, rw no_dev refl)
    go (some address) e (inl dev) = (address, rw (dev, e) refl)
    go none e (inl dev) = absurd (ground (arith, dev, no_address h e))

registered-changed :
    (agent : List ℕ) (h : StratumHandler) (address : List ℕ)
    → changed (registered agent h address).0 ≡ false
unfolding changed should_mine_dev
registered-changed agent h address = ground arith

-- `register` does not panic, and asks for the address that the counter calls for: the devfund's
-- in its turns, the miner's otherwise. After it `changed` is false.
pub register_lem :
    (agent : List ℕ) (h : StratumHandler)
    → (h' : StratumHandler) × (lines : List StratumLine) × (register agent h ≡ some (h', lines))
      × (some h'.submit_worker
          ≡ (if should_mine_dev h then h.devfund_address else some h.miner_address))
      × (changed h' ≡ false)
unfolding register
register_lem agent h =
    let (address, e) = pay_address_total h in
    let (h', lines) = registered agent h address in
    (
      h',
      lines,
      rw (register, e) refl,
      sym e ∙ (unfold pay_address in refl),
      registered-changed agent h address,
    )

-- `listen` returns without an error only when the turn has passed to the other address.
pub listen_done :
    (env : Environment) (h : StratumHandler) (m : env.Miner) (msgs : List (Option StratumLine))
    → (listen env h m msgs).2 ≡ done
    → (devfund_enabled (listen env h m msgs).0 ≡ true) × (changed (listen env h m msgs).0 ≡ true)
unfolding listen
listen_done env h m [] e = ground arith
listen_done env h m (none ∷ rest) e = ground arith
listen_done env h m (some msg ∷ rest) e =
    let (h', m', r) = handle_message env h m msg in ground (arith, listen_done env h' m' rest)
