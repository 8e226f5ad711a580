-- ===== src/Examples/HeaderCases.antt =====
-- The header's serialization at a concrete header.
use cryptix_miner_test.Base.{ℕ, All, List, [], arith, inl, refl, replicate, suc, true, zero, ◌∷◌}
use cryptix_miner_test.Header.{RpcBlockHeader, serialize_header}
use cryptix_miner_test.Header.Layout.{
  IsHexDigit, IsHash, IsWellFormed, Written, header_size, serialize_header-Written,
}

digits_are : (n : ℕ) → All IsHexDigit (replicate n b'0')
digits_are zero = tt
digits_are (suc n) = (inl (omega arith, omega arith), digits_are n)

abbrev pub zero_hash : List ℕ
zero_hash = replicate 64 b'0'

zero_hash-IsHash : IsHash zero_hash
zero_hash-IsHash = (digits_are 64, refl)

abbrev pub header : RpcBlockHeader
header = record {
  version = 1;
  parents = (zero_hash ∷ []) ∷ [];
  hash_merkle_root = zero_hash;
  accepted_id_merkle_root = zero_hash;
  utxo_commitment = zero_hash;
  timestamp = 5435345234;
  bits = 0x1d00ffff;
  nonce = 7;
  daa_score = 12;
  blue_work = b'0' ∷ b'0' ∷ b'0' ∷ [];
  pruning_point = zero_hash;
  blue_score = 11;
}

pub header-IsWellFormed : IsWellFormed header
header-IsWellFormed = record {
  version_fits = omega arith;
  parents_are = ((zero_hash-IsHash, tt), tt);
  merkle_root_is = zero_hash-IsHash;
  accepted_root_is = zero_hash-IsHash;
  utxo_is = zero_hash-IsHash;
  blue_work_is = (digits_are 3, omega arith);
  pruning_is = zero_hash-IsHash;
}

serialize_header-Written_example : Written (header_size header) (serialize_header header true)
serialize_header-Written_example = serialize_header-Written header true header-IsWellFormed
