-- ===== src/Pow/State.antt =====
-- src/pow.rs: `State`, the work that a seed gives, and the test of a nonce. The hashes of other
-- crates are parameters, and so are the rank of a matrix and the fuel of `Matrix::generate`.
pub mod Search
pub mod New
use cryptix_miner_test.Base.{
  ℕ, ◌%◌, ◌+◌, ◌++◌, ◌-◌, ◌==◌, Bool, List, Option, [], ◌^◌, bit_xor, get_or, if◌then◌else◌, none,
  replicate, set, some, suc, true, zero, ◌∷◌,
}
use cryptix_miner_test.Base.Text.{hex_text}
use cryptix_miner_test.Base.Rotate.{rotate_left, rotate_right}
use cryptix_miner_test.Target.{
  Uint256, le, le_bytes, to_le_bytes, to_be_bytes, from_le_bytes, u256_from_compact_target,
}
use cryptix_miner_test.Header.{RpcBlockHeader, serialize_header}
use cryptix_miner_test.Pow.{RpcBlock, BlockSeed, full_block, partial_block}
use cryptix_miner_test.Pow.Hasher.{pow_hasher, finalize_with_nonce}
use cryptix_miner_test.Pow.Matrix.{generate}
use cryptix_miner_test.Pow.HeavyHash.{heavy_hash}

pub record State : Type 0 where
  pub id : ℕ
  pub matrix : List (List ℕ)
  pub target : Uint256
  pub pow_hash_header : List ℕ
  pub block : BlockSeed
  pub hasher : List ℕ
  pub nonce_mask : ℕ
  pub nonce_fixed : ℕ

-- The crates that `State` calls.
pub record Hashes : Type 0 where
  pub blake2b : List ℕ → List ℕ
  pub sha3_256 : List ℕ → List ℕ
  pub blake3 : List ℕ → List ℕ
  pub f1600 : List ℕ → List ℕ
  pub compute_rank : List (List ℕ) → ℕ
  pub fuel : ℕ

-- What `State::new` ends with; `no_matrix` is a search for a matrix that has not ended on the fuel.
pub data Built : Type 0 where
  built : State → Built
  missing_header : Built
  panicked : Built
  no_matrix : Built

-- The constants of one branch of `calculate_pow`: the positions of the bytes that it reads and
-- the numbers that it goes by.
pub record Branch : Type 0 where
  pub repeat_at : ℕ
  pub repeat_mod : ℕ
  pub target_at : ℕ
  pub constant : ℕ
  pub rotation_at : ℕ × ℕ
  pub rotation_mod : ℕ
  pub rotation_add : ℕ
  pub shift_at : ℕ × ℕ
  pub shift_mod : ℕ
  pub shift_add : ℕ

abbrev at : List ℕ → ℕ → ℕ
at xs i = get_or xs i 0

-- One turn of a branch's inner loop, in round i.
unfoldable pub tamper : Branch → ℕ → List ℕ → List ℕ
tamper b i hash =
    let target_byte = (at hash b.target_at + i) % 32 in
    let xor_value = bit_xor (at hash (i % 16)) b.constant in
    let mixed = set hash target_byte (bit_xor (at hash target_byte) xor_value) in
    let rotation_amount =
      (at mixed b.rotation_at.0 + at mixed b.rotation_at.1) % b.rotation_mod + b.rotation_add in
    let turned : ℕ =
      if at mixed (i % 32) % 2 == 0
      then rotate_left 8 (at mixed target_byte) rotation_amount
      else rotate_right 8 (at mixed target_byte) rotation_amount in
    let rotated = set mixed target_byte turned in
    let shift_amount =
      (at rotated b.shift_at.0 + at rotated b.shift_at.1) % b.shift_mod + b.shift_add in
    set rotated target_byte
      (bit_xor (at rotated target_byte) (rotate_left 8 (at rotated target_byte) shift_amount))

unfoldable pub tamper_times : ℕ → Branch → ℕ → List ℕ → List ℕ
tamper_times zero b i hash = hash
tamper_times (suc n) b i hash = tamper_times n b i (tamper b i hash)

unfoldable pub run_branch : Branch → ℕ → List ℕ → List ℕ
run_branch b i hash = tamper_times (at hash b.repeat_at % b.repeat_mod + 1) b i hash

abbrev pub branch_1 : Branch
branch_1 = record {
  repeat_at = 2;
  repeat_mod = 4;
  target_at = 1;
  constant = 0xA5;
  rotation_at = (1, 3);
  rotation_mod = 4;
  rotation_add = 2;
  shift_at = (5, 1);
  shift_mod = 3;
  shift_add = 1;
}

abbrev pub branch_2 : Branch
branch_2 = record {
  repeat_at = 4;
  repeat_mod = 5;
  target_at = 6;
  constant = 0x55;
  rotation_at = (7, 2);
  rotation_mod = 6;
  rotation_add = 1;
  shift_at = (1, 3);
  shift_mod = 4;
  shift_add = 1;
}

abbrev pub branch_3 : Branch
branch_3 = record {
  repeat_at = 6;
  repeat_mod = 4;
  target_at = 10;
  constant = 0xFF;
  rotation_at = (7, 7);
  rotation_mod = 7;
  rotation_add = 1;
  shift_at = (3, 5);
  shift_mod = 5;
  shift_add = 2;
}

abbrev pub branch_4 : Branch
branch_4 = record {
  repeat_at = 8;
  repeat_mod = 4;
  target_at = 25;
  constant = 0x66;
  rotation_at = (1, 3);
  rotation_mod = 4;
  rotation_add = 2;
  shift_at = (1, 3);
  shift_mod = 4;
  shift_add = 1;
}

abbrev pub branch_5 : Branch
branch_5 = record {
  repeat_at = 9;
  repeat_mod = 5;
  target_at = 30;
  constant = 0x77;
  rotation_at = (2, 5);
  rotation_mod = 5;
  rotation_add = 1;
  shift_at = (7, 9);
  shift_mod = 6;
  shift_add = 2;
}

-- The choice among the branches.
unfoldable pub branches : ℕ → List ℕ → List ℕ
branches i hash =
    if at hash 1 % 4 == 0
    then run_branch branch_1 i hash
    else if at hash 3 % 3 == 0
    then run_branch branch_2 i hash
    else if at hash 2 % 6 == 0
    then run_branch branch_3 i hash
    else if at hash 7 % 5 == 0
    then run_branch branch_4 i hash
    else if at hash 8 % 7 == 0
    then run_branch branch_5 i hash
    else hash

module _ (hashes : Hashes) where
  open hashes use {blake2b, sha3_256, blake3, f1600, compute_rank, fuel}

  -- The rounds of `calculate_pow`, from round i on.
  unfoldable pub rounds : ℕ → ℕ → List ℕ → List ℕ
  rounds i zero current_hash = current_hash
  rounds i (suc n) current_hash = rounds (suc i) n (branches i (sha3_256 current_hash))

  unfoldable pub calculate_pow : State → ℕ → Uint256
  calculate_pow self nonce =
      let hash_bytes = to_le_bytes (finalize_with_nonce f1600 self.hasher nonce) in
      let iterations = at hash_bytes 0 % 2 + 1 in
      heavy_hash blake3 f1600 self.matrix (from_le_bytes (rounds 0 iterations hash_bytes))

  unfoldable pub check_pow : State → ℕ → Bool
  check_pow self nonce = le (calculate_pow self nonce) self.target

  -- `format!("{:x}", u)` of a `Uint256`: its bytes from the lowest, two digits each.
  unfoldable pub lower_hex : List ℕ → List ℕ
  lower_hex [] = []
  lower_hex (byte ∷ bytes) = hex_text 2 byte ++ lower_hex bytes

  abbrev with_nonce : RpcBlock → ℕ → RpcBlock
  with_nonce block nonce = elim block.header [
    | some header ↦ record { header = some (record header { nonce = nonce }) }
    | none ↦ record { header = none }
  ]

  -- The seed with the nonce that was found; a full block has a header, as `State::new` checks.
  unfoldable pub found : State → ℕ → BlockSeed → BlockSeed
  found self nonce (full_block block) = full_block (with_nonce block nonce)
  found self nonce (partial_block seed) = partial_block (record seed {
    nonce = nonce;
    hash = some (lower_hex (to_le_bytes (calculate_pow self nonce)));
  })

  unfoldable pub generate_block_if_pow : State → ℕ → Option BlockSeed
  generate_block_if_pow self nonce =
      if check_pow self nonce then some (found self nonce self.block) else none

  -- The end of `State::new`, from the hash, the time and the target on.
  unfoldable pub state_of : ℕ → BlockSeed → Uint256 → ℕ → Uint256 → ℕ → ℕ → Built
  state_of id block_seed pre_pow_hash timestamp target mask fixed =
      elim (generate compute_rank fuel pre_pow_hash) [
        | none ↦ no_matrix
        | some matrix ↦ built (record {
          id = id;
          matrix = matrix;
          target = target;
          pow_hash_header = to_le_bytes pre_pow_hash ++ (le_bytes 8 timestamp ++ replicate 32 0);
          block = block_seed;
          hasher = pow_hasher pre_pow_hash timestamp;
          nonce_mask = mask;
          nonce_fixed = fixed;
        })
      ]

  -- The branch of `State::new` for a full block with a header.
  unfoldable pub full_state : ℕ → RpcBlock → RpcBlockHeader → Built
  full_state id block header = elim (serialize_header header true) [
    | none ↦ panicked
    | some bytes ↦
        state_of id (full_block block) (from_le_bytes (blake2b bytes)) header.timestamp
          (u256_from_compact_target header.bits) (2 ^ 64 - 1) 0
  ]

  -- `State::new`
  unfoldable pub new_state : ℕ → BlockSeed → Built
  new_state id (full_block block) = elim block.header [
    | none ↦ missing_header
    | some header ↦ full_state id block header
  ]
  new_state id (partial_block seed) =
      state_of id (partial_block seed) seed.header_hash seed.timestamp seed.target seed.nonce_mask
        seed.nonce_fixed
