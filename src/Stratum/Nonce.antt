-- ===== src/Stratum/Nonce.antt =====
-- `set_extranonce` and `set_extranonce_eth`: how the pool's extranonce partitions the nonces.
pub mod Partition
use cryptix_miner_test.Base.{
  ◌%◌, ◌&&◌, ◌*◌, ◌+◌, ◌-◌, ◌/◌, ◌==◌, Bool, List, Option, [], ◌^◌, false, if◌then◌else◌, leb,
  length, min, none, not, some, true, ℕ, ◌∷◌,
}
use cryptix_miner_test.Base.Text.{strip_prefix, from_str_radix_16}
use cryptix_miner_test.Stratum.{StratumHandler, Reply, done, failed}

-- `strip_prefix("0x")`, or `strip_prefix("0X")`, or the text itself.
unfoldable pub without_prefix : List ℕ → List ℕ
without_prefix extranonce = elim (strip_prefix b'0' b'x' extranonce) [
  | some rest ↦ rest
  | none ↦ elim (strip_prefix b'0' b'X' extranonce) [ some rest ↦ rest | none ↦ extranonce ]
]

abbrev pub is_empty : List ℕ → Bool
is_empty [] = true
is_empty (c ∷ cs) = false

-- `size_bytes.saturating_mul(8)` at u32.
abbrev pub shift_of : ℕ → ℕ
shift_of size_bytes = min (size_bytes * 8) (2 ^ 32 - 1)

abbrev pub nonce_fixed_of : ℕ → ℕ → ℕ
nonce_fixed_of shift val = if leb 64 shift then 0 else (val * 2 ^ shift) % 2 ^ 64

abbrev pub nonce_mask_of : ℕ → ℕ
nonce_mask_of shift = if leb 64 shift then 2 ^ 64 - 1 else 2 ^ shift - 1

-- The end of both methods, from the shift on.
unfoldable pub partition : StratumHandler → ℕ → Option ℕ → StratumHandler × Reply
partition h shift none = (h, failed)
partition h shift (some val) =
    (record h { nonce_fixed = nonce_fixed_of shift val; nonce_mask = nonce_mask_of shift }, done)

-- The size that `set_extranonce` goes by: the announced one, or the one that the text shows.
abbrev pub size_bytes_of : List ℕ → ℕ → ℕ
size_bytes_of extranonce nonce_size =
    if (nonce_size == 0) && not (is_empty extranonce)
    then (length extranonce + 1) / 2 % 2 ^ 32
    else nonce_size

unfoldable pub set_extranonce : StratumHandler → List ℕ → ℕ → StratumHandler × Reply
set_extranonce self text nonce_size =
    let extranonce = without_prefix text in
    let h : StratumHandler = record self { extranonce = some extranonce } in
    let size_bytes = size_bytes_of extranonce nonce_size in
    if size_bytes == 0
    then (record h { nonce_fixed = 0; nonce_mask = 2 ^ 64 - 1 }, done)
    else partition h (shift_of size_bytes)
        (if is_empty extranonce then some 0 else from_str_radix_16 extranonce)

unfoldable pub set_extranonce_eth : StratumHandler → List ℕ → StratumHandler × Reply
set_extranonce_eth self text =
    let extranonce = without_prefix text in
    let size_bytes = (length extranonce + 1) / 2 % 2 ^ 32 in
    let h : StratumHandler = record self { extranonce = some extranonce } in
    if size_bytes == 0
    then (record h { nonce_fixed = 0; nonce_mask = 2 ^ 64 - 1 }, done)
    else partition h (shift_of size_bytes) (from_str_radix_16 extranonce)
