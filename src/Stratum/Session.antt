-- ===== src/Stratum/Session.antt =====
-- The conversation with the pool: `register`, `listen`, `handle_message` and the share of the work
-- that is mined for the devfund.
pub mod Devfund
pub mod Partitions
pub mod Conserved
pub mod Conversation
use cryptix_miner_test.Base.{
  ◌%◌, ◌&&◌, ◌+◌, ◌==◌, Bool, List, Option, [], ◌^◌, drop, false, if◌then◌else◌, length, ltb, none,
  not, some, take, true, ℕ, ◌∷◌,
}
use cryptix_miner_test.Target.{Uint256, of_le_bytes}
use cryptix_miner_test.Pow.{BlockSeed, partial_block}
use cryptix_miner_test.Base.Text.{codes, strip_prefix}
use cryptix_miner_test.Stratum.{StratumHandler, Reply, done, failed, panicked}
use cryptix_miner_test.Stratum.Codec
use cryptix_miner_test.Stratum.Codec.{
  StratumLine, StratumError, StratumCommand, StratumResult, plain, eth, subscribed, stratum_command,
  stratum_result, authorize, subscribe, mining_subscribe_default, set_extranonce_plain,
  set_extranonce_plain_eth, mining_set_difficulty, mining_notify, mining_submit,
  mining_notify_short, mining_notify_header_hex, mining_notify_long,
}
use cryptix_miner_test.Stratum.Nonce.{set_extranonce, set_extranonce_eth}
use cryptix_miner_test.Stratum.Difficulty.{set_difficulty}
use cryptix_miner_test.Stratum.Shares.{accept, reject}

unfoldable pub devfund_enabled : StratumHandler → Bool
devfund_enabled self =
    ltb 0 self.devfund_percent && elim self.devfund_address [ some _ ↦ true | none ↦ false ]

unfoldable pub should_mine_dev : StratumHandler → Bool
unfolding devfund_enabled
should_mine_dev self = devfund_enabled self && ltb self.block_template_ctr self.devfund_percent

-- `add_devfund`
unfoldable pub add_devfund : StratumHandler → List ℕ → ℕ → StratumHandler
add_devfund self address percent = record self {
  devfund_address = some address;
  devfund_percent = percent;
}

-- The address that `register` authorizes; `expect` panics without a devfund address.
unfoldable pub pay_address : StratumHandler → Option (List ℕ)
pay_address self = if should_mine_dev self then self.devfund_address else some self.miner_address

-- `self.mining_dev.unwrap_or(false)`
abbrev pub is_mining_dev : Option Bool → Bool
is_mining_dev none = false
is_mining_dev (some b) = b

-- `self.mining_dev.unwrap_or(false) != should_mine_dev`
unfoldable pub changed : StratumHandler → Bool
changed self =
    if is_mining_dev self.mining_dev then not (should_mine_dev self) else should_mine_dev self

abbrev pub command_line : ℕ → StratumCommand → StratumLine
command_line id c = record {
  id = some id;
  payload = stratum_command c;
  jsonrpc = none;
  error = none;
}

-- The two lines that `register` sends for an address, and the handler after it. `agent` is the
-- package's name and version.
abbrev pub registered : List ℕ → StratumHandler → List ℕ → StratumHandler × List StratumLine
registered agent self address = (
  record self {
    last_stratum_id = ((self.last_stratum_id + 1) % 2 ^ 32 + 1) % 2 ^ 32;
    mining_dev = some (should_mine_dev self);
    submit_worker = address;
  },
  command_line self.last_stratum_id (subscribe (mining_subscribe_default agent))
      ∷ command_line ((self.last_stratum_id + 1) % 2 ^ 32) (authorize address (codes "x"))
      ∷ [],
)

-- `register`, when both lines can be sent; `none` is the panic of `pay_address`.
unfoldable pub register : List ℕ → StratumHandler → Option (StratumHandler × List StratumLine)
register agent self = elim (pay_address self) [
  | none ↦ none
  | some address ↦ some (registered agent self address)
]

-- `block_template_ctr.fetch_update(|v| (v + 1) % 10_000)` at u16
abbrev pub next_template : StratumHandler → StratumHandler
next_template h = record h { block_template_ctr = (h.block_template_ctr + 1) % 2 ^ 16 % 10_000 }

-- The seed of a notification.
abbrev pub notified : StratumHandler → List ℕ → Uint256 → ℕ → BlockSeed
notified h id header_hash timestamp = partial_block (record {
  id = id;
  header_hash = header_hash;
  timestamp = timestamp;
  nonce = 0;
  target = h.target_pool;
  nonce_mask = h.nonce_mask;
  nonce_fixed = h.nonce_fixed;
  hash = none;
})

-- What a client needs of the rest of the program: the miner, and the decoder of the crate `hex`.
pub record Environment : Type 1 where
  pub Miner : Type 0
  pub process_block : Miner → Option BlockSeed → Miner × Reply
  pub hex_decode : List ℕ → Option (List ℕ)
  pub overflow_checks : Bool

module _ (env : Environment) where
  open env use {Miner, process_block, hex_decode, overflow_checks}

  -- `hex32_to_u64x4`
  unfoldable pub hex32_to_u64x4 : List ℕ → Option Uint256
  hex32_to_u64x4 hex =
      let h : List ℕ = elim (strip_prefix b'0' b'x' hex) [ some rest ↦ rest | none ↦ hex ] in
      elim (hex_decode h) [
        | none ↦ none
        | some bytes ↦
            if length bytes == 32
            then some (record {
              w0 = of_le_bytes (take 8 bytes);
              w1 = of_le_bytes (take 8 (drop 8 bytes));
              w2 = of_le_bytes (take 8 (drop 16 bytes));
              w3 = of_le_bytes (take 8 (drop 24 bytes));
            })
            else none
      ]

  abbrev alone : Miner → StratumHandler × Reply → StratumHandler × Miner × Reply
  alone m (h, r) = (h, m, r)

  abbrev mined : StratumHandler → Miner × Reply → StratumHandler × Miner × Reply
  mined h (m, r) = (h, m, r)

  unfoldable pub handle_result :
      StratumHandler → Miner → ℕ → StratumResult → StratumHandler × Miner × Reply
  handle_result self miner id (plain (some true)) = alone miner (accept self id)
  handle_result self miner id (eth true message) = alone miner (accept self id)
  handle_result self miner id (subscribed subscriptions extranonce nonce_size) =
      alone miner (set_extranonce self extranonce nonce_size)
  handle_result self miner id (plain (some false)) = (self, miner, failed)
  handle_result self miner id (plain none) = (self, miner, failed)
  handle_result self miner id (eth false message) = (self, miner, failed)

  unfoldable pub handle_command :
      StratumHandler → Miner → StratumCommand → StratumHandler × Miner × Reply
  handle_command self miner (Codec.set_extranonce (set_extranonce_plain extranonce nonce_size)) =
      alone miner (set_extranonce self extranonce nonce_size)
  handle_command self miner (Codec.set_extranonce (set_extranonce_plain_eth extranonce)) =
      alone miner (set_extranonce_eth self extranonce)
  handle_command self miner (mining_set_difficulty difficulty) =
      alone miner (set_difficulty overflow_checks self difficulty)
  handle_command self miner (mining_notify (mining_notify_short id h0 h1 h2 h3 timestamp)) =
      let h = next_template self in
      let header_hash : Uint256 = record { w0 = h0; w1 = h1; w2 = h2; w3 = h3 } in
      mined h (process_block miner (some (notified h id header_hash timestamp)))
  handle_command self miner (mining_notify (mining_notify_header_hex id header_hex timestamp)) =
      let h = next_template self in
      elim (hex32_to_u64x4 header_hex) [
        | none ↦ (h, miner, failed)
        | some header_hash ↦
            mined h (process_block miner (some (notified h id header_hash timestamp)))
      ]
  handle_command self miner (mining_notify (mining_notify_long a b c d branch e f g clean)) =
      (self, miner, failed)
  handle_command self miner (subscribe s) = (self, miner, failed)
  handle_command self miner (authorize a p) = (self, miner, failed)
  handle_command self miner (mining_submit s) = (self, miner, failed)

  -- The dispatch of `handle_message` on the parts of a line.
  unfoldable pub dispatch :
      StratumHandler
      → Miner
      → Option ℕ
      → Codec.StratumLinePayload
      → Option StratumError
      → StratumHandler × Miner × Reply
  dispatch self miner (some id) (stratum_result r) none = handle_result self miner id r
  dispatch self miner none (stratum_result r) none = (self, miner, failed)
  dispatch self miner id (stratum_command c) none = handle_command self miner c
  dispatch self miner (some id) (stratum_result r) (some e) =
      alone miner (reject self id e.error_code)
  dispatch self miner none (stratum_result r) (some e) = (self, miner, failed)
  dispatch self miner id (stratum_command c) (some e) = (self, miner, failed)

  unfoldable pub handle_message :
      StratumHandler → Miner → StratumLine → StratumHandler × Miner × Reply
  unfolding dispatch
  handle_message self miner msg = dispatch self miner msg.id msg.payload msg.error

  -- `stream.try_next()`: a line, or a failure of the connection; the end of the list is its end.
  unfoldable pub listen :
      StratumHandler → Miner → List (Option StratumLine) → StratumHandler × Miner × Reply
  listen self miner [] =
      if devfund_enabled self && changed self then (self, miner, done) else (self, miner, failed)
  listen self miner (none ∷ rest) =
      if devfund_enabled self && changed self then (self, miner, done) else (self, miner, failed)
  listen self miner (some msg ∷ rest) =
      let (self', miner', r) = handle_message self miner msg in
      let more = listen self' miner' rest in
      if devfund_enabled self && changed self then (self, miner, done) else elim r [
        | done ↦ more
        | failed ↦ (self', miner', failed)
        | panicked ↦ (self', miner', panicked)
      ]
