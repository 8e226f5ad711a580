-- ===== src/Stratum/Session/Partitions.antt =====
-- src/client/stratum.rs: the nonces of the jobs that a conversation hands to the miner.
use cryptix_miner_test.Base.{
  ℕ, Bool, true, false, inl, inr, Option-cases, List, Option, none, some, ◌&&◌, Bool-cases, [], ◌∷◌,
}
use cryptix_miner_test.Pow.{BlockSeed}
use cryptix_miner_test.Pow.State.Search.{SeedPartition}
use cryptix_miner_test.Stratum.{StratumHandler, Reply, done, failed, panicked}
use cryptix_miner_test.Stratum.Codec
use cryptix_miner_test.Stratum.Codec.{
  Reciprocal, ErrorCode, StratumLine, StratumError, StratumCommand, StratumResult, plain, eth,
  subscribed, stratum_command, stratum_result, authorize, subscribe, set_extranonce_plain,
  set_extranonce_plain_eth, mining_set_difficulty, mining_notify, mining_submit,
  mining_notify_short, mining_notify_header_hex, mining_notify_long,
}
use cryptix_miner_test.Stratum.Nonce.Partition.{
  HasPartition, set_extranonce-HasPartition, set_extranonce_eth-HasPartition,
}
use cryptix_miner_test.Stratum.Difficulty.{set_difficulty, target_of, install, Stored}
use cryptix_miner_test.Stratum.Shares.{accept, reject, lookup}
use cryptix_miner_test.Stratum.Session.{
  devfund_enabled, changed, Environment, handle_result, handle_command, dispatch, handle_message,
  listen, hex32_to_u64x4,
}

accept-HasPartition : (h : StratumHandler) (id : ℕ) → HasPartition h → HasPartition (accept h id).0
unfolding accept
accept-HasPartition h id p = elim (Option-cases (lookup id h.shares_stats.shares_pending)) [
  | inl e ↦ rw (accept, e) p
  | inr (job, e) ↦ rw (accept, e) p
]

reject-HasPartition :
    (h : StratumHandler) (id : ℕ) (code : ErrorCode)
    → HasPartition h
    → HasPartition (reject h id code).0
unfolding reject
reject-HasPartition h id code p = elim (Option-cases (lookup id h.shares_stats.shares_pending)) [
  | inl e ↦ rw (reject, e) p
  | inr (job, e) ↦ rw (reject, e) p
]

install-HasPartition :
    (h : StratumHandler) (s : Stored) → HasPartition h → HasPartition (install h s).0
unfolding install
install-HasPartition h (Stored.stored target) p = p
install-HasPartition h Stored.too_big p = p
install-HasPartition h Stored.aborted p = p

set_difficulty-HasPartition :
    (checks : Bool) (h : StratumHandler) (d : Reciprocal)
    → HasPartition h
    → HasPartition (set_difficulty checks h d).0
unfolding set_difficulty
set_difficulty-HasPartition checks h d p = install-HasPartition h (target_of checks d) p

-- A property of the miner that the jobs with partitioned nonces keep.
module _ (env : Environment) (P : env.Miner → Type 0)
    (keeps : (m : env.Miner) (b : BlockSeed)
      → P m
      → SeedPartition b
      → P (env.process_block m (some b)).0) where
  abbrev Kept : StratumHandler × env.Miner × Reply → Type 0
  Kept (h, m, r) = HasPartition h × P m

  handle_result-Kept :
      (h : StratumHandler) (m : env.Miner) (id : ℕ) (r : StratumResult)
      → HasPartition h
      → P m
      → Kept (handle_result env h m id r)
  unfolding handle_result
  handle_result-Kept h m id (plain (some true)) p q = (accept-HasPartition h id p, q)
  handle_result-Kept h m id (plain (some false)) p q = (p, q)
  handle_result-Kept h m id (plain none) p q = (p, q)
  handle_result-Kept h m id (eth true message) p q = (accept-HasPartition h id p, q)
  handle_result-Kept h m id (eth false message) p q = (p, q)
  handle_result-Kept h m id (subscribed subscriptions extranonce nonce_size) p q =
      (set_extranonce-HasPartition h extranonce nonce_size p, q)

  handle_command-Kept :
      (h : StratumHandler) (m : env.Miner) (c : StratumCommand)
      → HasPartition h
      → P m
      → Kept (handle_command env h m c)
  unfolding handle_command
  handle_command-Kept h m (Codec.set_extranonce (set_extranonce_plain extranonce size)) p q =
      (set_extranonce-HasPartition h extranonce size p, q)
  handle_command-Kept h m (Codec.set_extranonce (set_extranonce_plain_eth extranonce)) p q =
      (set_extranonce_eth-HasPartition h extranonce p, q)
  handle_command-Kept h m (mining_set_difficulty d) p q =
      (set_difficulty-HasPartition env.overflow_checks h d p, q)
  handle_command-Kept h m (mining_notify (mining_notify_short id h0 h1 h2 h3 timestamp)) p q =
      (p, keeps m _ q p)
  handle_command-Kept h m (mining_notify (mining_notify_header_hex id header_hex timestamp)) p q =
      elim (Option-cases (hex32_to_u64x4 env header_hex)) [
        | inl e ↦ rw (handle_command, e) (p, q)
        | inr (header_hash, e) ↦ rw (handle_command, e) (p, keeps m _ q p)
      ]
  handle_command-Kept h m (mining_notify (mining_notify_long a b c d branch e f g clean)) p q =
      (p, q)
  handle_command-Kept h m (subscribe s) p q = (p, q)
  handle_command-Kept h m (authorize a b) p q = (p, q)
  handle_command-Kept h m (mining_submit s) p q = (p, q)

  dispatch-Kept :
      (h : StratumHandler) (m : env.Miner) (id : Option ℕ) (payload : Codec.StratumLinePayload)
      (error : Option StratumError)
      → HasPartition h
      → P m
      → Kept (dispatch env h m id payload error)
  unfolding dispatch
  dispatch-Kept h m (some id) (stratum_result r) none p q = handle_result-Kept h m id r p q
  dispatch-Kept h m none (stratum_result r) none p q = (p, q)
  dispatch-Kept h m id (stratum_command c) none p q = handle_command-Kept h m c p q
  dispatch-Kept h m (some id) (stratum_result r) (some e) p q =
      (reject-HasPartition h id e.error_code p, q)
  dispatch-Kept h m none (stratum_result r) (some e) p q = (p, q)
  dispatch-Kept h m id (stratum_command c) (some e) p q = (p, q)

  handle_message-Kept :
      (h : StratumHandler) (m : env.Miner) (msg : StratumLine)
      → HasPartition h
      → P m
      → Kept (handle_message env h m msg)
  unfolding handle_message
  handle_message-Kept h m msg = dispatch-Kept h m msg.id msg.payload msg.error

  -- When the nonces are partitioned and the miner has a property that every job with partitioned
  -- nonces keeps, both hold after whatever lines the pool sends.
  pub listen-Kept :
      (h : StratumHandler) (m : env.Miner) (lines : List (Option StratumLine))
      → HasPartition h
      → P m
      → Kept (listen env h m lines)
  unfolding listen
  listen-Kept h m [] p q = elim (Bool-cases (devfund_enabled h && changed h)) [
    | inl e ↦ rw (listen, e) (p, q)
    | inr e ↦ rw (listen, e) (p, q)
  ]
  listen-Kept h m (none ∷ rest) p q = elim (Bool-cases (devfund_enabled h && changed h)) [
    | inl e ↦ rw (listen, e) (p, q)
    | inr e ↦ rw (listen, e) (p, q)
  ]
  listen-Kept h m (some msg ∷ rest) p q =
      let next = handle_message env h m msg in
      let (p', q') = handle_message-Kept h m msg p q in
      let more = listen-Kept next.0 next.1 rest p' q' in
      elim (Bool-cases (devfund_enabled h && changed h)) [
        | inl e ↦ rw (listen, e) (p, q)
        | inr e ↦
            rw (listen, e)
              (after next.0 next.1 (listen env next.0 next.1 rest) next.2 (p', q') more)
      ]
    where
      after :
          (h' : StratumHandler) (m' : env.Miner) (x : StratumHandler × env.Miner × Reply)
          (r : Reply)
          → HasPartition h' × P m'
          → Kept x
          → Kept (elim r [ done ↦ x | failed ↦ (h', m', failed) | panicked ↦ (h', m', panicked) ])
      after h' m' x done kept more = more
      after h' m' x failed kept more = kept
      after h' m' x panicked kept more = kept
