-- ===== src/Pow/HeavyHash.antt =====
-- src/pow/heavy_hash.rs: the heavy hash of a hash, by the matrix. The digest `blake3::hash` and
-- the permutation `keccak::f1600` are parameters. Each loop that writes an array at its own index
-- and reads only other arrays is a `tabulate_from`, or an `update_from` for an array in place.
pub mod Ops
pub mod Products
pub mod Sbox
pub mod Bytes
pub mod Vector
use cryptix_miner_test.Base.{
  ℕ, ◌%◌, ◌*◌, ◌+◌, ◌==◌, List, bit_and, if◌then◌else◌, suc, tabulate_from, update_from, zero,
}
use cryptix_miner_test.Target.{Uint256, to_le_bytes, from_le_bytes}
use cryptix_miner_test.Pow.Tables.{after_comp_lut}
use cryptix_miner_test.Pow.Octonion.{octonion_hash}
use cryptix_miner_test.Pow.Hasher.{heavy_hasher}
use cryptix_miner_test.Pow.HeavyHash.Ops.{at, ◌⊕◌}
use cryptix_miner_test.Pow.HeavyHash.Products.{product_of, nibble_product_of, mix_octonion}
use cryptix_miner_test.Pow.HeavyHash.Sbox.{Arrays, sbox_of}

-- `compute_after_comp_product`
unfoldable pub compute_after_comp_product : List ℕ → List ℕ
compute_after_comp_product pre_comp_product =
    tabulate_from 0 32 (λ i. at after_comp_lut (at pre_comp_product i))

unfoldable pub arrays_of : List (List ℕ) → List ℕ → Arrays
arrays_of matrix hash_bytes =
    let product_before_oct = product_of matrix hash_bytes in
    record {
      product = mix_octonion (octonion_hash product_before_oct) product_before_oct;
      hash_bytes = hash_bytes;
      nibble_product = nibble_product_of matrix hash_bytes;
      product_before_oct = product_before_oct;
    }

-- `ref_array`
unfoldable pub ref_array : Arrays → ℕ → List ℕ
ref_array arrays i =
    let k = bit_and i 3 in
    if k == 0
    then arrays.nibble_product
    else if k == 1
    then arrays.product_before_oct
    else if k == 2
    then arrays.product
    else arrays.hash_bytes

-- `index`, into the box.
unfoldable pub sbox_index : Arrays → ℕ → ℕ
sbox_index arrays i =
    bit_and
      (at (ref_array arrays i) (bit_and (i * 13) 31)
        + at arrays.product (bit_and (i * 31) 31)
        + at arrays.hash_bytes (bit_and (i * 19) 31)
        + i * 41)
      255

module _ (blake3 : List ℕ → List ℕ) where
  unfoldable pub blake3_times : ℕ → List ℕ → List ℕ
  blake3_times zero bytes = bytes
  blake3_times (suc n) bytes = blake3_times n (blake3 bytes)

  -- The bytes that the last hasher is given.
  unfoldable pub heavy_bytes : List (List ℕ) → List ℕ → List ℕ
  heavy_bytes matrix hash_bytes =
      let arrays = arrays_of matrix hash_bytes in
      let sbox = sbox_of arrays in
      let after_comp_product = compute_after_comp_product arrays.product in
      let index_blake = at arrays.product_before_oct 5 % 8 + 1 in
      let iterations_blake = 1 + at arrays.product index_blake % 3 in
      let digest = blake3_times iterations_blake arrays.product in
      let substituted = update_from 0 (λ i b. b ⊕ at sbox (sbox_index arrays i)) digest in
      update_from 0 (λ i b. b ⊕ at after_comp_product i) substituted

  -- `heavy_hash`
  unfoldable pub heavy_hash : (List ℕ → List ℕ) → List (List ℕ) → Uint256 → Uint256
  heavy_hash f1600 matrix hash =
      heavy_hasher f1600 (from_le_bytes (heavy_bytes matrix (to_le_bytes hash)))
