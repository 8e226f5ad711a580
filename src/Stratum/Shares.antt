-- ===== src/Stratum/Shares.antt =====
-- src/client/stratum.rs: the shares that are sent and not yet answered: `shares_pending`, the
-- submission of a share in `create_block_channel`, and the branch of `handle_message` for an answer
-- with an error. Each step has the lock of `shares_pending` to itself: a `try_lock` that finds it
-- held by another task, and panics, is not modelled.
pub mod Accounting
pub mod Nonces
use cryptix_miner_test.Base.{
  ◌%◌, ◌+◌, ◌++◌, ◌-◌, ◌/◌, ◌==◌, List, Option, [], ◌^◌, if◌then◌else◌, ltb, none, some, suc, zero,
  ℕ, ◌∷◌,
}
use cryptix_miner_test.Pow.{BlockSeed, full_block, partial_block}
use cryptix_miner_test.Base.Text.{hex_text}
use cryptix_miner_test.Stratum.{ShareStats, StratumHandler, Reply, done, failed, panicked}
use cryptix_miner_test.Stratum.Codec.{
  ErrorCode, unknown, job_not_found, duplicate_share, low_difficulty_share, unauthorized,
  not_subscribed, StratumLine, stratum_command, mining_submit, mining_submit_short,
}

-- `HashMap::insert`, `get` and `remove` on the pending shares.
unfoldable pub lookup : ℕ → List (ℕ × List ℕ) → Option (List ℕ)
lookup k [] = none
lookup k ((j, v) ∷ m) = if j == k then some v else lookup k m

unfoldable pub remove : ℕ → List (ℕ × List ℕ) → List (ℕ × List ℕ)
remove k [] = []
remove k ((j, v) ∷ m) = if j == k then remove k m else (j, v) ∷ remove k m

unfoldable pub insert : ℕ → List ℕ → List (ℕ × List ℕ) → List (ℕ × List ℕ)
insert k v m = (k, v) ∷ remove k m

-- What `create_block_channel` does with a seed: the line that is sent, or a panic.
unfoldable pub submit : StratumHandler → BlockSeed → Option (StratumHandler × StratumLine)
submit self (full_block block) = none
submit self (partial_block seed) =
    let msg_id = self.last_stratum_id in
    let stats = self.shares_stats in
    some (
      record self {
        last_stratum_id = (msg_id + 1) % 2 ^ 32;
        shares_stats = record stats { shares_pending = insert msg_id seed.id stats.shares_pending };
      },
      record {
        id = some msg_id;
        payload = stratum_command (
            mining_submit
              (mining_submit_short self.submit_worker seed.id (hex_text 16 seed.nonce)));
        jsonrpc = none;
        error = none;
      },
    )

-- A counter of `ShareStats` is a u64.
abbrev pub bump : ℕ → ℕ
bump n = (n + 1) % 2 ^ 64

abbrev pub with_stats : StratumHandler → ShareStats → StratumHandler
with_stats h s = record h { shares_stats = s }

-- `StratumResult::Plain(Some(true))` and `StratumResult::Eth((true, _))`
unfoldable pub accept : StratumHandler → ℕ → StratumHandler × Reply
accept self id =
    let stats = self.shares_stats in
    elim (lookup id stats.shares_pending) [
      | none ↦ (self, done)
      | some job ↦ (
        with_stats self (record stats {
          accepted = bump stats.accepted;
          shares_pending = remove id stats.shares_pending;
        }),
        done,
      )
    ]

-- What an error code does to the statistics.
unfoldable pub count_error : ErrorCode → ShareStats → ShareStats × Reply
count_error unknown s = (s, failed)
count_error job_not_found s = (record s { stale = bump s.stale }, done)
count_error duplicate_share s = (record s { duplicate = bump s.duplicate }, done)
count_error low_difficulty_share s = (record s { low_diff = bump s.low_diff }, done)
count_error unauthorized s = (s, failed)
count_error not_subscribed s = (s, failed)

-- An answer with an error: the share is taken off the pending ones, and `unwrap` panics when it is
-- not among them.
unfoldable pub reject : StratumHandler → ℕ → ErrorCode → StratumHandler × Reply
unfolding count_error
reject self id code =
    let stats = self.shares_stats in
    elim (lookup id stats.shares_pending) [
      | none ↦ (self, panicked)
      | some job ↦
          let (s, r) =
            count_error code (record stats { shares_pending = remove id stats.shares_pending }) in
          (with_stats self s, r)
    ]
