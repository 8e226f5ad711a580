-- ===== src/Pow/HeavyHash/Bytes.antt =====
-- src/pow/heavy_hash.rs: the arrays of the heavy hash, and what the last hasher is given.
use cryptix_miner_test.Base.{
  ℕ, ◌*◌, ◌<◌, List, ◌^◌, arith, bit_or, get_or-All, length, length-tabulate_from,
  length-update_from, tabulate_from-All, update_from, update_from-All, ◌∙◌, ◌≡◌, ◌%◌, ◌++◌, ◌==◌,
  All-append, Bool, false, if◌then◌else◌, suc, true, zero,
}
use native.Mathlib.Nat.{mod-lt}
use cryptix_miner_test.Base.Bits.{bit_xor-lt, bit_and_low}
use cryptix_miner_test.Base.Rotate.{rotate_left-lt, rotate_right-lt, bit_or-lt}
use cryptix_miner_test.Target.{le_bytes}
use cryptix_miner_test.Target.Bytes.{IsByte, IsBytes, le_bytes-IsBytes}
use cryptix_miner_test.Pow.Tables.{after_comp_lut}
use cryptix_miner_test.Pow.HeavyHash.Ops.{at, nibble, ◌⊕◌}
use cryptix_miner_test.Pow.HeavyHash.Products.{
  a_nibble, b_nibble, c_nibble, d_nibble, product_of, nibble_product_of, mix_octonion,
  product_element, nibble_product_element,
}
use cryptix_miner_test.Pow.HeavyHash.Sbox.{
  Arrays, select, sbox_element, sbox_turn, sbox_turns, sbox_of,
}
use cryptix_miner_test.Pow.HeavyHash.{
  compute_after_comp_product, arrays_of, sbox_index, blake3_times, heavy_bytes,
}

at-IsByte : (bs : List ℕ) (i : ℕ) → IsBytes bs → at bs i < 256
at-IsByte bs i h = get_or-All IsByte bs i 0 h (omega arith)

nibble-lt : (x : ℕ) → nibble x < 16
nibble-lt x = omega (arith, bit_and_low 4 x)

xor_nibble : {a b : ℕ} → a < 16 → b < 16 → (a ⊕ b) < 16
xor_nibble {a} {b} p q = bit_xor-lt 4 a b p q

xor_byte : {a b : ℕ} → a < 256 → b < 256 → (a ⊕ b) < 256
xor_byte {a} {b} p q = bit_xor-lt 8 a b p q

joined-IsByte : (a b : ℕ) → a < 16 → b < 16 → bit_or (a * 2 ^ 4) b < 256
joined-IsByte a b p q = bit_or-lt 8 (a * 2 ^ 4) b (omega arith) (omega arith)

seven_nibbles :
    (x1 x2 x3 x4 x5 x6 x7 : ℕ)
    → (nibble x1 ⊕ nibble x2 ⊕ nibble x3 ⊕ nibble x4 ⊕ nibble x5 ⊕ nibble x6 ⊕ nibble x7) < 16
seven_nibbles x1 x2 x3 x4 x5 x6 x7 =
    let y2 = xor_nibble (nibble-lt x1) (nibble-lt x2) in
    let y3 = xor_nibble y2 (nibble-lt x3) in
    let y4 = xor_nibble y3 (nibble-lt x4) in
    let y5 = xor_nibble y4 (nibble-lt x5) in
    let y6 = xor_nibble y5 (nibble-lt x6) in xor_nibble y6 (nibble-lt x7)

nibbles-lt :
    (s1 s2 s3 s4 : ℕ)
    → (a_nibble s1 s2 s3 s4 < 16)
      × (b_nibble s1 s2 s3 s4 < 16)
      × (c_nibble s1 s2 s3 s4 < 16)
      × (d_nibble s1 s2 s3 s4 < 16)
unfolding a_nibble b_nibble c_nibble d_nibble
nibbles-lt s1 s2 s3 s4 = (
  xor_nibble (seven_nibbles _ _ _ _ _ _ _) (xor_nibble (nibble-lt _) (nibble-lt _)),
  seven_nibbles _ _ _ _ _ _ _,
  xor_nibble (seven_nibbles _ _ _ _ _ _ _) (xor_nibble (nibble-lt _) (nibble-lt _)),
  seven_nibbles _ _ _ _ _ _ _,
)

-- An array of 32 bytes.
abbrev pub IsArray : List ℕ → Type 0
IsArray bs = IsBytes bs × (length bs ≡ 32)

product_element-IsByte :
    (matrix : List (List ℕ)) (hash_bytes : List ℕ) (i : ℕ)
    → IsBytes hash_bytes
    → product_element matrix hash_bytes i < 256
unfolding product_element
product_element-IsByte matrix hash_bytes i h =
    let (a, b, c, d) = nibbles-lt _ _ _ _ in
    xor_byte (joined-IsByte _ _ a b) (at-IsByte hash_bytes i h)

product_of-IsArray :
    (matrix : List (List ℕ)) (hash_bytes : List ℕ)
    → IsBytes hash_bytes
    → IsArray (product_of matrix hash_bytes)
unfolding product_of
product_of-IsArray matrix hash_bytes h = (
  tabulate_from-All IsByte 0 32 (product_element matrix hash_bytes)
      (λ i. product_element-IsByte matrix hash_bytes i h),
  length-tabulate_from 0 32 (product_element matrix hash_bytes),
)

nibble_product_element-IsByte :
    (matrix : List (List ℕ)) (hash_bytes : List ℕ) (i : ℕ)
    → IsBytes hash_bytes
    → nibble_product_element matrix hash_bytes i < 256
unfolding nibble_product_element
nibble_product_element-IsByte matrix hash_bytes i h =
    let (a, b, c, d) = nibbles-lt _ _ _ _ in
    xor_byte (joined-IsByte _ _ c d) (at-IsByte hash_bytes i h)

nibble_product_of-IsArray :
    (matrix : List (List ℕ)) (hash_bytes : List ℕ)
    → IsBytes hash_bytes
    → IsArray (nibble_product_of matrix hash_bytes)
unfolding nibble_product_of
nibble_product_of-IsArray matrix hash_bytes h = (
  tabulate_from-All IsByte 0 32 (nibble_product_element matrix hash_bytes)
      (λ i. nibble_product_element-IsByte matrix hash_bytes i h),
  length-tabulate_from 0 32 (nibble_product_element matrix hash_bytes),
)

-- Mixing bytes into an array in place keeps it an array.
mixed-IsArray :
    (f : ℕ → ℕ) (bs : List ℕ)
    → ((i : ℕ) → f i < 256)
    → IsArray bs
    → IsArray (update_from 0 (λ i b. b ⊕ f i) bs)
mixed-IsArray f bs h (b, n) = (
  update_from-All IsByte 0 (λ i b. b ⊕ f i) bs b (λ i x lt. xor_byte lt (h i)),
  length-update_from 0 (λ i b. b ⊕ f i) bs ∙ n,
)

-- The arrays that the box is made from.
pub record AreArrays (arrays : Arrays) : Type 0 where
  pub product_is : IsArray arrays.product
  pub hash_is : IsArray arrays.hash_bytes
  pub nibble_product_is : IsArray arrays.nibble_product
  pub before_oct_is : IsArray arrays.product_before_oct

le_bytes_4-IsBytes :
    (w x y z : ℕ) → IsBytes (le_bytes 8 w ++ (le_bytes 8 x ++ (le_bytes 8 y ++ le_bytes 8 z)))
le_bytes_4-IsBytes w x y z =
    let word = le_bytes-IsBytes 8 in
    All-append IsByte (le_bytes 8 w) _ (word w) (
      All-append IsByte (le_bytes 8 x) _ (word x)
        (All-append IsByte (le_bytes 8 y) _ (word y) (word z)))

arrays_of-AreArrays :
    (matrix : List (List ℕ)) (hash_bytes : List ℕ)
    → IsArray hash_bytes
    → AreArrays (arrays_of matrix hash_bytes)
unfolding arrays_of mix_octonion
arrays_of-AreArrays matrix hash_bytes h =
    let before = product_of-IsArray matrix hash_bytes h.0 in
    record {
      product_is =
          mixed-IsArray _ (product_of matrix hash_bytes)
            (λ i. at-IsByte _ i (le_bytes_4-IsBytes _ _ _ _)) before;
      hash_is = h;
      nibble_product_is = nibble_product_of-IsArray matrix hash_bytes h.0;
      before_oct_is = before;
    }

select-IsBytes :
    (arrays : Arrays) (selector : ℕ) → AreArrays arrays → IsBytes (select arrays selector)
unfolding select
select-IsBytes arrays selector a = go (selector == 0) (selector == 1) (selector == 2)
  where
    go :
        (p q r : Bool)
        → IsBytes (
            if p
            then arrays.product
            else if q
            then arrays.hash_bytes
            else if r
            then arrays.nibble_product
            else arrays.product_before_oct)
    go true q r = a.product_is.0
    go false true r = a.hash_is.0
    go false false true = a.nibble_product_is.0
    go false false false = a.before_oct_is.0

sbox_element-IsByte : (arrays : Arrays) (i : ℕ) → AreArrays arrays → sbox_element arrays i < 256
unfolding sbox_element
sbox_element-IsByte arrays i a = xor_byte (at-IsByte _ _ (select-IsBytes arrays _ a)) (omega arith)

sbox_turn-IsByte :
    (arrays : Arrays) (i value : ℕ)
    → AreArrays arrays
    → value < 256
    → sbox_turn arrays i value < 256
unfolding sbox_turn
sbox_turn-IsByte arrays i value a lt =
    let xor_value =
      xor_byte {b = 0x55}
        (rotate_left-lt _ (i % 8) (xor_byte {b = 0xA5} (mod-lt _ (omega arith)) (omega arith)))
        (omega arith) in
    xor_byte lt (
      xor_byte (bit_or-lt 8 _ _ (rotate_left-lt value _ lt) (rotate_right-lt value _ lt)) xor_value)

sbox_turns-IsBytes :
    (n : ℕ) (arrays : Arrays) (sbox : List ℕ)
    → AreArrays arrays
    → IsBytes sbox × (length sbox ≡ 256)
    → IsBytes (sbox_turns n arrays sbox) × (length (sbox_turns n arrays sbox) ≡ 256)
unfolding sbox_turns
sbox_turns-IsBytes zero arrays sbox a h = h
sbox_turns-IsBytes (suc n) arrays sbox a h = sbox_turns-IsBytes n arrays _ a (
  update_from-All IsByte 0 (sbox_turn arrays) sbox h.0 (λ i x. sbox_turn-IsByte arrays i x a),
  length-update_from 0 (sbox_turn arrays) sbox ∙ h.1,
)

-- The box has 256 bytes.
pub sbox_of-IsBytes :
    (arrays : Arrays)
    → AreArrays arrays
    → IsBytes (sbox_of arrays) × (length (sbox_of arrays) ≡ 256)
unfolding sbox_of
sbox_of-IsBytes arrays a = sbox_turns-IsBytes _ arrays _ a (
  tabulate_from-All IsByte 0 256 (sbox_element arrays) (λ i. sbox_element-IsByte arrays i a),
  length-tabulate_from 0 256 (sbox_element arrays),
)

after_comp_lut-IsBytes : IsBytes after_comp_lut
after_comp_lut-IsBytes = omega arith

after_comp_product-IsBytes : (bs : List ℕ) → IsBytes (compute_after_comp_product bs)
unfolding compute_after_comp_product
after_comp_product-IsBytes bs =
    tabulate_from-All IsByte 0 32 (λ i. at after_comp_lut (at bs i))
      (λ i. at-IsByte after_comp_lut (at bs i) after_comp_lut-IsBytes)

blake3_times-IsArray :
    (blake3 : List ℕ → List ℕ) (n : ℕ) (bs : List ℕ)
    → ((bytes : List ℕ) → IsArray (blake3 bytes))
    → IsArray bs
    → IsArray (blake3_times blake3 n bs)
unfolding blake3_times
blake3_times-IsArray blake3 zero bs digest h = h
blake3_times-IsArray blake3 (suc n) bs digest h =
    blake3_times-IsArray blake3 n (blake3 bs) digest (digest bs)

-- When the digest gives 32 bytes, the heavy hash of 32 bytes hands 32 bytes to its last hasher,
-- whatever the matrix.
pub heavy_bytes-IsArray :
    (blake3 : List ℕ → List ℕ) (matrix : List (List ℕ)) (hash_bytes : List ℕ)
    → ((bytes : List ℕ) → IsArray (blake3 bytes))
    → IsArray hash_bytes
    → IsArray (heavy_bytes blake3 matrix hash_bytes)
unfolding heavy_bytes
heavy_bytes-IsArray blake3 matrix hash_bytes digest h =
    let a = arrays_of-AreArrays matrix hash_bytes h in
    let box = sbox_of-IsBytes (arrays_of matrix hash_bytes) a in
    mixed-IsArray (at (compute_after_comp_product (arrays_of matrix hash_bytes).product)) _
      (λ i. at-IsByte _ i (after_comp_product-IsBytes _))
      (mixed-IsArray
        (λ i.
          at (sbox_of (arrays_of matrix hash_bytes)) (sbox_index (arrays_of matrix hash_bytes) i))
        _ (λ i. at-IsByte _ _ box.0) (blake3_times-IsArray blake3 _ _ digest a.product_is))
