-- ===== src/Pow/HeavyHash/Sbox.antt =====
-- src/pow/heavy_hash.rs: the substitution box of a hash, and its second pass.
use cryptix_miner_test.Base.{
  ℕ, ◌%◌, ◌*◌, ◌+◌, ◌/◌, ◌==◌, List, [], ◌^◌, bit_and, bit_or, if◌then◌else◌, suc, tabulate_from,
  update_from, zero, ◌∷◌,
}
use cryptix_miner_test.Base.Rotate.{rotate_left, rotate_right}
use cryptix_miner_test.Pow.Tables.{
  sel_product, sel_hash, sel_nibble, sbox_source_selectors, sbox_value_selectors,
  sbox_value_multipliers, sbox_value_adders,
}
use cryptix_miner_test.Pow.HeavyHash.Ops.{at, mul8, add8, ◌⊕◌}

-- The four arrays of 32 bytes that the box is made from.
pub record Arrays : Type 0 where
  pub product : List ℕ
  pub hash_bytes : List ℕ
  pub nibble_product : List ℕ
  pub product_before_oct : List ℕ

-- `rotate_left_bases`
unfoldable pub rotate_left_bases : Arrays → List ℕ
rotate_left_bases arrays =
    mul8 (at arrays.nibble_product 3 ⊕ 0x4F) 3
    ∷ mul8 (at arrays.product 7 ⊕ 0xA6) 2
    ∷ mul8 (at arrays.product_before_oct 1 ⊕ 0x9C) 9
    ∷ mul8 (at arrays.product 6 ⊕ 0x71) 4
    ∷ mul8 (at arrays.nibble_product 4 ⊕ 0xB2) 3
    ∷ mul8 (at arrays.product 0 ⊕ 0x58) 6
    ∷ mul8 (at arrays.product_before_oct 2 ⊕ 0x37) 2
    ∷ mul8 (at arrays.product 5 ⊕ 0x1A) 5
    ∷ mul8 (at arrays.nibble_product 3 ⊕ 0x93) 7
    ∷ mul8 (at arrays.product 7 ⊕ 0x29) 9
    ∷ mul8 (at arrays.product_before_oct 1 ⊕ 0x4E) 4
    ∷ mul8 (at arrays.nibble_product 6 ⊕ 0xF3) 5
    ∷ mul8 (at arrays.product 4 ⊕ 0xB7) 6
    ∷ mul8 (at arrays.product 0 ⊕ 0x2D) 8
    ∷ mul8 (at arrays.product_before_oct 2 ⊕ 0x6F) 3
    ∷ mul8 (at arrays.nibble_product 5 ⊕ 0xE1) 7
    ∷ []

-- `rotate_right_bases`
unfoldable pub rotate_right_bases : Arrays → List ℕ
rotate_right_bases arrays =
    mul8 (at arrays.hash_bytes 2 ⊕ 0xD3) 5
    ∷ mul8 (at arrays.nibble_product 5 ⊕ 0x5B) 7
    ∷ mul8 (at arrays.product 0 ⊕ 0x8E) 3
    ∷ mul8 (at arrays.product_before_oct 3 ⊕ 0x2F) 5
    ∷ mul8 (at arrays.hash_bytes 7 ⊕ 0x6D) 7
    ∷ mul8 (at arrays.nibble_product 1 ⊕ 0xEE) 9
    ∷ mul8 (at arrays.hash_bytes 6 ⊕ 0x44) 6
    ∷ mul8 (at arrays.hash_bytes 4 ⊕ 0x7C) 8
    ∷ mul8 (at arrays.product 2 ⊕ 0xAF) 3
    ∷ mul8 (at arrays.nibble_product 5 ⊕ 0xDC) 2
    ∷ mul8 (at arrays.hash_bytes 0 ⊕ 0x8B) 3
    ∷ mul8 (at arrays.product_before_oct 3 ⊕ 0x62) 8
    ∷ mul8 (at arrays.product 7 ⊕ 0x15) 2
    ∷ mul8 (at arrays.product_before_oct 1 ⊕ 0xC8) 7
    ∷ mul8 (at arrays.nibble_product 6 ⊕ 0x99) 9
    ∷ mul8 (at arrays.hash_bytes 4 ⊕ 0x3B) 5
    ∷ []

-- `source_array` and `value_array`, by a selector.
unfoldable pub select : Arrays → ℕ → List ℕ
select arrays selector =
    if selector == sel_product
    then arrays.product
    else if selector == sel_hash
    then arrays.hash_bytes
    else if selector == sel_nibble
    then arrays.nibble_product
    else arrays.product_before_oct

-- `index`, into the source array.
unfoldable pub source_index : Arrays → ℕ → ℕ
source_index arrays i =
    let segment = i / 2 ^ 4 in
    let rotate_left_shift = bit_and (at arrays.product (bit_and (i + 1) 31) + i) 7 in
    let rotate_right_shift = bit_and (at arrays.hash_bytes (bit_and (i + 2) 31) + i) 7 in
    let rotation_left = rotate_left 8 (at (rotate_left_bases arrays) segment) rotate_left_shift in
    let rotation_right =
      rotate_right 8 (at (rotate_right_bases arrays) segment) rotate_right_shift in
    bit_and (i + rotation_left + rotation_right) 31

-- The element i of the box's first pass.
unfoldable pub sbox_element : Arrays → ℕ → ℕ
sbox_element arrays i =
    let segment = i / 2 ^ 4 in
    let local = bit_and i 15 in
    let source_array = select arrays (at sbox_source_selectors segment) in
    let value_array = select arrays (at sbox_value_selectors segment) in
    let value =
      add8 (mul8 (at value_array local) (at sbox_value_multipliers segment))
        (mul8 local (at sbox_value_adders segment)) in
    at source_array (source_index arrays i) ⊕ value

-- What a turn of the second pass does to element i.
unfoldable pub sbox_turn : Arrays → ℕ → ℕ → ℕ
sbox_turn arrays i value =
    let rotate_left_shift = bit_and (at arrays.product (bit_and (i + 1) 31) + i + i * 3) 7 in
    let rotate_right_shift = bit_and (at arrays.hash_bytes (bit_and (i + 2) 31) + i + i * 5) 7 in
    let rotated_value =
      bit_or (rotate_left 8 value rotate_left_shift) (rotate_right 8 value rotate_right_shift) in
    let base_value =
      add8 i (at arrays.product (bit_and (i * 3) 31) ⊕ at arrays.hash_bytes (bit_and (i * 7) 31))
      ⊕ 0xA5 in
    let xor_value = rotate_left 8 base_value (i % 8) ⊕ 0x55 in value ⊕ (rotated_value ⊕ xor_value)

unfoldable pub sbox_turns : ℕ → Arrays → List ℕ → List ℕ
sbox_turns zero arrays sbox = sbox
sbox_turns (suc n) arrays sbox = sbox_turns n arrays (update_from 0 (sbox_turn arrays) sbox)

-- `sbox`, after `sbox_iterations` turns.
unfoldable pub sbox_of : Arrays → List ℕ
sbox_of arrays =
    let update_index = at arrays.product_before_oct 2 % 8 + 1 in
    let sbox_iterations = 1 + at arrays.product update_index % 2 in
    sbox_turns sbox_iterations arrays (tabulate_from 0 256 (sbox_element arrays))
