-- ===== src/Header.antt =====
-- src/pow.rs: `decode_to_slice` and `serialize_header`, the bytes of a block header that are
-- hashed. The messages are those of proto/rpc.proto; a text is the list of its bytes. A hasher
-- is what has been written to it, since `update` appends. `none` is a panic.
pub mod Decode
pub mod Hex
pub mod Layout
use cryptix_miner_test.Base.{
  ◌%◌, ◌&&◌, ◌*◌, ◌+◌, ◌++◌, ◌-◌, ◌/◌, ◌==◌, List, Option, [], bit_or, if◌then◌else◌, leb, length,
  none, not, some, ℕ, ◌∷◌, Bool, ◌^◌, ltb,
}
use Decode.{Decoded, ok, err, decode_to_slice}
use cryptix_miner_test.Base.Fallible.{◌>>=◌}
use cryptix_miner_test.Target.{le_bytes}

-- `RpcBlockHeader`: `version` is a u32, `timestamp` the bit pattern of an i64, `bits` a u32, and
-- the other numbers are u64; `parents` holds the list of hashes of each level.
pub record RpcBlockHeader : Type 0 where
  pub version : ℕ
  pub parents : List (List (List ℕ))
  pub hash_merkle_root : List ℕ
  pub accepted_id_merkle_root : List ℕ
  pub utxo_commitment : List ℕ
  pub timestamp : ℕ
  pub bits : ℕ
  pub nonce : ℕ
  pub daa_score : ℕ
  pub blue_work : List ℕ
  pub pruning_point : List ℕ
  pub blue_score : ℕ

-- `unwrap`
abbrev pub unwrap : {A : Type 0} → Decoded A → Option A
unwrap (ok a) = some a
unwrap (err e) = none

-- What `hasher.update` is given for one level of parents.
unfoldable pub parent_hashes : List (List ℕ) → Option (List ℕ)
parent_hashes [] = some []
parent_hashes (text ∷ rest) = do
  hash ← unwrap (decode_to_slice text 32)
  bytes ← parent_hashes rest
  some (hash ++ bytes)

unfoldable pub all_parents : List (List (List ℕ)) → Option (List ℕ)
all_parents [] = some []
all_parents (level ∷ levels) = do
  hashes ← parent_hashes level
  bytes ← all_parents levels
  some (le_bytes 8 (length level) ++ (hashes ++ bytes))

-- The blue work: a text of odd length gets a leading zero, and a slice past the 32 bytes of the
-- buffer panics.
unfoldable pub blue_work_bytes : List ℕ → Option (List ℕ)
blue_work_bytes blue_work =
    let blue_work_len = (length blue_work + 1) / 2 in
    let text = if length blue_work % 2 == 0 then blue_work else b'0' ∷ blue_work in
    if ltb 32 blue_work_len then none else unwrap (decode_to_slice text blue_work_len)

-- `serialize_header`: the bytes that the hasher is given; `none` is a panic.
unfoldable pub serialize_header : RpcBlockHeader → Bool → Option (List ℕ)
serialize_header header for_pre_pow = do
  let nonce = if for_pre_pow then 0 else header.nonce
  let timestamp = if for_pre_pow then 0 else header.timestamp
  version ← if ltb header.version (2 ^ 16) then some header.version else none
  parents ← all_parents header.parents
  hash_merkle_root ← unwrap (decode_to_slice header.hash_merkle_root 32)
  accepted_id_merkle_root ← unwrap (decode_to_slice header.accepted_id_merkle_root 32)
  utxo_commitment ← unwrap (decode_to_slice header.utxo_commitment 32)
  blue_work ← blue_work_bytes header.blue_work
  pruning_point ← unwrap (decode_to_slice header.pruning_point 32)
  some (
      le_bytes 2 version
      ++ (le_bytes 8 (length header.parents)
          ++ (parents
              ++ (hash_merkle_root
                  ++ (accepted_id_merkle_root
                      ++ (utxo_commitment
                          ++ (le_bytes 8 timestamp
                              ++ (le_bytes 4 header.bits
                                  ++ (le_bytes 8 nonce
                                      ++ (le_bytes 8 header.daa_score
                                          ++ (le_bytes 8 header.blue_score
                                              ++ (le_bytes 8 (length blue_work)
                                                  ++ (blue_work ++ pruning_point)))))))))))))
