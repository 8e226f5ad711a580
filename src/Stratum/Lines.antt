-- ===== src/Stratum/Lines.antt =====
-- src/client/stratum/statum_codec.rs: `NewLineJsonCodec`, a line of JSON for each message. The
-- codec of lines of `tokio_util` and the JSON of serde are parameters.
use cryptix_miner_test.Base.{List, Option, none, some, ℕ}
use cryptix_miner_test.Stratum.Codec.{StratumLine}

-- What `LinesCodec::decode` gives: a line, no whole line yet, or an error.
pub data Split : Type 0 where
  whole : List ℕ → Split
  incomplete : Split
  too_long : Split

-- `LinesCodec` on a buffer, which it cuts at the front and appends to, and serde's `from_str`, for a
-- message and for an optional one, where `null` is none, and `to_string`.
pub record Codecs : Type 0 where
  pub lines_decode : List ℕ → Split × List ℕ
  pub lines_decode_eof : List ℕ → Split × List ℕ
  pub lines_encode : List ℕ → List ℕ → Option (List ℕ)
  pub from_str : List ℕ → Option StratumLine
  pub from_str_option : List ℕ → Option (Option StratumLine)
  pub to_string : StratumLine → Option (List ℕ)

-- `NewLineJsonCodecError`, without its texts; `io` comes of the transport only.
pub data NewLineJsonCodecError : Type 0 where
  json_parse_error : NewLineJsonCodecError
  json_encode_error : NewLineJsonCodecError
  line_split_error : NewLineJsonCodecError
  line_encode_error : NewLineJsonCodecError
  io : NewLineJsonCodecError

-- `Result<A, NewLineJsonCodecError>`
pub data Coded (A : Type 0) : Type 0 where
  ok : A → Coded A
  err : NewLineJsonCodecError → Coded A

module _ (codecs : Codecs) where
  open codecs use {
    lines_decode, lines_decode_eof, lines_encode, from_str, from_str_option, to_string,
  }

  abbrev parsed : Option StratumLine → Coded (Option StratumLine)
  parsed none = err json_parse_error
  parsed (some item) = ok (some item)

  abbrev of_split : Split → Coded (Option StratumLine)
  of_split (whole s) = parsed (from_str s)
  of_split incomplete = ok none
  of_split too_long = err line_split_error

  abbrev of_last : Split → Coded (Option StratumLine)
  of_last (whole s) = elim (from_str_option s) [ none ↦ err json_parse_error | some item ↦ ok item ]
  of_last incomplete = ok none
  of_last too_long = err line_split_error

  -- `decode` and `decode_eof`: the result, and what is left in the buffer.
  unfoldable pub decode : List ℕ → Coded (Option StratumLine) × List ℕ
  decode src = let (split, rest) = lines_decode src in (of_split split, rest)

  unfoldable pub decode_eof : List ℕ → Coded (Option StratumLine) × List ℕ
  decode_eof buf = let (split, rest) = lines_decode_eof buf in (of_last split, rest)

  abbrev appended : Option (List ℕ) → Coded (List ℕ)
  appended none = err line_encode_error
  appended (some dst) = ok dst

  -- `encode`: the buffer after it.
  unfoldable pub encode : StratumLine → List ℕ → Coded (List ℕ)
  encode item dst = elim (to_string item) [
    | none ↦ err json_encode_error
    | some json ↦ appended (lines_encode json dst)
  ]
