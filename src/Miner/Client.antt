-- ===== src/Miner/Client.antt =====
-- src/main.rs: `client_main` with a pool, from the connection to the end of the workers. The lines
-- of the pool are given, up to the end of the connection.
use cryptix_miner_test.Base.{
  Bool, List, Option, if◌then◌else◌, ltb, none, some, true, ℕ, ◌≡◌, ◌+◌, ◌^◌, ◌<◌, length, ◌≤◌,
}
use cryptix_miner_test.Cli.{Opt}
use cryptix_miner_test.Watch.{Receiver}
use cryptix_miner_test.Pow.State.{Hashes}
use cryptix_miner_test.Stratum
use cryptix_miner_test.Stratum.{Reply, ShareStats, StratumHandler}
use cryptix_miner_test.Stratum.Codec.{StratumLine}
use cryptix_miner_test.Stratum.Connect.{connect}
use cryptix_miner_test.Stratum.Nonce.Partition.{HasPartition}
use cryptix_miner_test.Stratum.Session.{add_devfund, listen, register}
use cryptix_miner_test.Miner.{MinerManager}
use cryptix_miner_test.Miner.Manager.{Thread, drop_manager, new}
use cryptix_miner_test.Miner.Manager.Lifetime.{Stops}
use cryptix_miner_test.Miner.Pool.{JobPartition, miner_environment}

-- The client of a pool as `client_main` sets it up, with the devfund of the options.
unfoldable pub pool_client : Opt → ℕ → Option ShareStats → StratumHandler
unfolding connect add_devfund
pool_client opt block_template_ctr stats =
    let client =
      connect opt.mining_address opt.mine_when_not_synced (some block_template_ctr) 0 stats in
    if ltb 0 opt.devfund_percent
    then add_devfund client opt.devfund_address opt.devfund_percent
    else client

-- What a run of `client_main` leaves: the handler, the manager before and after it is dropped, its
-- threads, and the result of `listen`: the manager is dropped also when that is an error or a panic.
pub record Ended (S : Type 0) : Type 0 where
  pub handler : StratumHandler
  pub manager : MinerManager
  pub dropped : MinerManager
  pub threads : List (Thread S)
  pub reply : Reply

module _ (hashes : Hashes) (hex_decode : List ℕ → Option (List ℕ)) (overflow_checks : Bool)
    (agent : List ℕ) {S : Type 0} (id : S → List ℕ) (physical : ℕ) (has_specs : Bool)
    (planned : List (S × Option S)) where
  -- `client_main`, once the client is connected; `none` is a panic of `register`, and one of `listen`
  -- is the reply `panicked`.
  unfoldable pub client_main :
      Opt → ℕ → Option ShareStats → List (Option StratumLine) → Option (Ended S)
  unfolding pool_client new drop_manager
  client_main opt block_template_ctr stats lines =
      elim (register agent (pool_client opt block_template_ctr stats)) [
        | none ↦ none
        | some (client, sent) ↦
            let (manager, threads, by_worker) = new id opt.num_threads physical has_specs planned in
            let (handler, ended, reply) =
              listen (miner_environment hashes hex_decode overflow_checks) client manager lines in
            some (record {
              handler = handler;
              manager = ended;
              dropped = drop_manager ended;
              threads = threads;
              reply = reply;
            })
      ]

-- The channel lives, for n receivers.
Lives : ℕ → MinerManager → Type 0
Lives n m = (m.block_channel.sender_alive ≡ true) × (m.block_channel.receivers_count ≡ n)

abbrev SentLives : ℕ → MinerManager × Reply → Type 0
SentLives n sent = Lives n sent.0

module _ (hashes : Hashes) (hex_decode : List ℕ → Option (List ℕ)) (overflow_checks : Bool)
    (agent : List ℕ) {S : Type 0} (id : S → List ℕ) (physical : ℕ) (has_specs : Bool)
    (planned : List (S × Option S)) where
  -- What a run leaves, when it started some thread and the ids of the channel have not run out.
  pub record IsClosed (e : Ended S) : Type 1 where
    pub handler_partition : HasPartition e.handler
    pub job_partition : JobPartition e.manager
    pub receivers : e.manager.block_channel.receivers_count ≡ length e.threads
    pub stops :
        0 < length e.threads
        → e.manager.block_channel.id + 1 < 2 ^ 64
        → (r : Receiver) → r.last_observed ≤ e.manager.block_channel.id
        → Stops e.dropped.block_channel r
