-- ===== src/Stratum/Codec.antt =====
-- src/client/stratum/statum_codec.rs: the messages of the stratum protocol. The JSON of a line is
-- read and written by serde, which is not modelled; a text is the list of its bytes.
use cryptix_miner_test.Base.{◌<◌, Bool, List, Option, ◌^◌, ℕ}

-- `ErrorCode`
pub data ErrorCode : Type 0 where
  unknown job_not_found duplicate_share low_difficulty_share unauthorized not_subscribed : ErrorCode

-- `#[repr(u8)]`: the number of a code on the wire.
unfoldable pub discriminant : ErrorCode → ℕ
discriminant unknown = 20
discriminant job_not_found = 21
discriminant duplicate_share = 22
discriminant low_difficulty_share = 23
discriminant unauthorized = 24
discriminant not_subscribed = 25

-- `StratumError`, without the untyped value at its end.
pub record StratumError : Type 0 where
  pub error_code : ErrorCode
  pub message : List ℕ

-- `MiningNotify`; the last text of each is the time, or the flag, that follows it.
pub data MiningNotify : Type 0 where
  mining_notify_short : (id : List ℕ) (h0 h1 h2 h3 timestamp : ℕ) → MiningNotify
  mining_notify_header_hex : (id header_hex : List ℕ) (timestamp : ℕ) → MiningNotify
  mining_notify_long :
      (a b c d : List ℕ) (branch : List (List ℕ)) (e f g : List ℕ) (clean : Bool) → MiningNotify

pub data MiningSubmit : Type 0 where
  mining_submit_short : (worker id nonce : List ℕ) → MiningSubmit
  mining_submit_long : (a b c d e : List ℕ) → MiningSubmit

pub data MiningSubscribe : Type 0 where
  mining_subscribe_default : List ℕ → MiningSubscribe
  mining_subscribe_options : List ℕ → List ℕ → MiningSubscribe

pub data SetExtranonce : Type 0 where
  set_extranonce_plain : (extranonce : List ℕ) (nonce_size : ℕ) → SetExtranonce
  set_extranonce_plain_eth : (extranonce : List ℕ) → SetExtranonce

-- What `set_difficulty` reads of its f32: mantissa and exponent of the reciprocal, as
-- `integer_decode` gives them, the exponent with the 150 added that makes it a natural number.
pub record Reciprocal : Type 0 where
  pub mantissa : ℕ
  pub biased_exponent : ℕ

-- `integer_decode` of an f32: 24 bits of mantissa, and the eight exponent bits.
abbrev pub IsDecoded : Reciprocal → Type 0
IsDecoded d = (d.mantissa < 2 ^ 24) × (d.biased_exponent < 256)

pub data StratumCommand : Type 0 where
  set_extranonce : SetExtranonce → StratumCommand
  mining_set_difficulty : Reciprocal → StratumCommand
  mining_notify : MiningNotify → StratumCommand
  subscribe : MiningSubscribe → StratumCommand
  authorize : (address password : List ℕ) → StratumCommand
  mining_submit : MiningSubmit → StratumCommand

pub data StratumResult : Type 0 where
  plain : Option Bool → StratumResult
  eth : Bool → List ℕ → StratumResult
  subscribed :
      (subscriptions : List (List ℕ × List ℕ)) (extranonce : List ℕ) (nonce_size : ℕ)
      → StratumResult

pub data StratumLinePayload : Type 0 where
  stratum_command : StratumCommand → StratumLinePayload
  stratum_result : StratumResult → StratumLinePayload

pub record StratumLine : Type 0 where
  pub id : Option ℕ
  pub payload : StratumLinePayload
  pub jsonrpc : Option (List ℕ)
  pub error : Option StratumError
