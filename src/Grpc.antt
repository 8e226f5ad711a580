-- ===== src/Grpc.antt =====
-- src/client/grpc.rs: the client of a node. The parser of versions (crate `semver`) and the miner
-- are parameters. A message that is sent is returned; `open` says whether the channel takes it.
pub mod Devfund
use cryptix_miner_test.Base.{
  ℕ, ◌%◌, ◌+◌, Bool, List, Option, [], ◌^◌, false, if◌then◌else◌, leb, none, some, true, ◌∷◌,
}
use cryptix_miner_test.Base.Text.{codes}
use cryptix_miner_test.Pow.{RpcBlock, BlockSeed, full_block}
use cryptix_miner_test.Stratum.{Reply, done, failed, panicked}

-- `CryptixdHandler`, without its channels, its stream and its task handle.
pub record CryptixdHandler : Type 0 where
  pub miner_address : List ℕ
  pub mine_when_not_synced : Bool
  pub devfund_address : Option (List ℕ)
  pub devfund_percent : ℕ
  pub block_template_ctr : ℕ

-- What the client sends.
pub data Message : Type 0 where
  get_block_template : List ℕ → Message
  notify_new_block_template : Message
  notify_block_added : Message
  submit_block : RpcBlock → Message

-- The payloads that `handle_message` tells apart, with the fields that it reads.
pub data Payload : Type 0 where
  block_added_notification : Payload
  new_block_template_notification : Payload
  get_block_template_response : Option RpcBlock → Bool → Option (List ℕ) → Payload
  submit_block_response : Option (List ℕ) → Payload
  get_block_response : Option (List ℕ) → Payload
  get_info_response : List ℕ → Payload
  notify_new_block_template_response : Option (List ℕ) → Payload
  notify_block_added_response : Option (List ℕ) → Payload
  other : Payload

-- The handler that `connect` makes with the counter that it is given.
unfoldable pub connect : List ℕ → Bool → ℕ → CryptixdHandler
connect miner_address mine_when_not_synced block_template_ctr = record {
  miner_address = miner_address;
  mine_when_not_synced = mine_when_not_synced;
  devfund_address = none;
  devfund_percent = 0;
  block_template_ctr = block_template_ctr;
}

-- `add_devfund`
unfoldable pub add_devfund : CryptixdHandler → List ℕ → ℕ → CryptixdHandler
add_devfund self address percent = record self {
  devfund_address = some address;
  devfund_percent = percent;
}

-- The address that `client_get_block_template` asks for.
unfoldable pub pay_address : CryptixdHandler → List ℕ
pay_address self = elim self.devfund_address [
  | none ↦ self.miner_address
  | some devfund_address ↦
      if leb self.block_template_ctr self.devfund_percent
      then devfund_address
      else self.miner_address
]

-- `block_template_ctr.fetch_update(|v| (v + 1) % 10_000)` at u16
abbrev pub next_template : CryptixdHandler → CryptixdHandler
next_template self = record self {
  block_template_ctr = (self.block_template_ctr + 1) % 2 ^ 16 % 10_000;
}

-- What `create_block_channel` makes of a seed; the other seeds are unreachable.
unfoldable pub submit : BlockSeed → Option Message
submit (full_block block) = some (submit_block block)
submit (BlockSeed.partial_block seed) = none

pub record Environment : Type 1 where
  pub Miner : Type 0
  pub process_block : Miner → Option BlockSeed → Miner × Reply
  pub at_least_update : List ℕ → Option Bool
  pub is_open : Bool

-- The handler, the miner, what was sent, and the outcome.
pub record Step (Miner : Type 0) : Type 0 where
  pub handler : CryptixdHandler
  pub miner : Miner
  pub sent : List Message
  pub reply : Reply

module _ (env : Environment) where
  open env use {Miner, process_block, at_least_update, is_open}

  -- `client_get_block_template`
  unfoldable pub client_get_block_template : CryptixdHandler → Miner → Step Miner
  client_get_block_template self miner =
      if is_open
      then record {
        handler = next_template self;
        miner = miner;
        sent = get_block_template (pay_address self) ∷ [];
        reply = done;
      }
      else record { handler = next_template self; miner = miner; sent = []; reply = failed }

  abbrev quiet : CryptixdHandler → Miner → Reply → Step Miner
  quiet self miner r = record { handler = self; miner = miner; sent = []; reply = r }

  abbrev mine : CryptixdHandler → Miner → Option BlockSeed → Step Miner
  mine self miner block =
      let (miner', r) = process_block miner block in
      record { handler = self; miner = miner'; sent = []; reply = r }

  -- The branch for a template: the block, whether the node is synced, and an error.
  unfoldable pub handle_template :
      CryptixdHandler → Miner → Option RpcBlock → Bool → Option (List ℕ) → Step Miner
  handle_template self miner (some b) true none = mine self miner (some (full_block b))
  handle_template self miner (some b) false none =
      if self.mine_when_not_synced
      then mine self miner (some (full_block b))
      else mine self miner none
  handle_template self miner none false none = mine self miner none
  handle_template self miner block is_synced (some e) = quiet self miner failed
  handle_template self miner none true none = quiet self miner done

  -- The branch for the node's version.
  unfoldable pub handle_info : CryptixdHandler → Miner → List ℕ → Step Miner
  unfolding client_get_block_template
  handle_info self miner server_version = elim (at_least_update server_version) [
    | none ↦ quiet self miner failed
    | some recent ↦
        let request : Message = if recent then notify_new_block_template else notify_block_added in
        let next = client_get_block_template self miner in
        if is_open then record next { sent = request ∷ next.sent } else quiet self miner failed
  ]

  abbrev error_reply : Option (List ℕ) → Reply
  error_reply none = done
  error_reply (some e) = failed

  unfoldable pub handle_message : CryptixdHandler → Miner → Payload → Step Miner
  handle_message self miner block_added_notification = client_get_block_template self miner
  handle_message self miner new_block_template_notification = client_get_block_template self miner
  handle_message self miner (get_block_template_response block is_synced e) =
      handle_template self miner block is_synced e
  handle_message self miner (submit_block_response e) = quiet self miner done
  handle_message self miner (get_block_response e) = quiet self miner (error_reply e)
  handle_message self miner (get_info_response server_version) =
      handle_info self miner server_version
  handle_message self miner (notify_new_block_template_response e) = quiet self miner done
  handle_message self miner (notify_block_added_response e) = quiet self miner done
  handle_message self miner other = quiet self miner done
