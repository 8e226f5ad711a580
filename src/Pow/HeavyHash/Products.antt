-- ===== src/Pow/HeavyHash/Products.antt =====
-- src/pow/heavy_hash.rs: the two products of the matrix and the hash.
use cryptix_miner_test.Base.{
  ℕ, ◌%◌, ◌*◌, ◌+◌, ◌++◌, ◌/◌, List, [], ◌^◌, bit_or, get_or, tabulate_from, update_from, ◌∷◌,
}
use cryptix_miner_test.Base.Rotate.{rotate_left, rotate_right}
use cryptix_miner_test.Target.{le_bytes}
use cryptix_miner_test.Pow.Matrix.{dot_product}
use cryptix_miner_test.Pow.Octonion.{Octonion}
use cryptix_miner_test.Pow.HeavyHash.Ops.{at, nibble, mul32, ◌⊕◌}

-- The nibbles of the hash's bytes, the high one first.
unfoldable pub nibbles_of : List ℕ → List ℕ
nibbles_of [] = []
nibbles_of (byte ∷ bytes) = byte / 2 ^ 4 ∷ nibble byte ∷ nibbles_of bytes

-- `a_nibble`
unfoldable pub a_nibble : ℕ → ℕ → ℕ → ℕ → ℕ
a_nibble sum1 sum2 sum3 sum4 =
    nibble sum1
    ⊕ nibble (sum2 / 2 ^ 4)
    ⊕ nibble (sum3 / 2 ^ 8)
    ⊕ nibble (mul32 sum1 0xABCD / 2 ^ 12)
    ⊕ nibble (mul32 sum1 0x1234 / 2 ^ 8)
    ⊕ nibble (mul32 sum2 0x5678 / 2 ^ 16)
    ⊕ nibble (mul32 sum3 0x9ABC / 2 ^ 4)
    ⊕ (nibble (rotate_left 32 sum1 3) ⊕ nibble (rotate_right 32 sum3 5))

-- `b_nibble`
unfoldable pub b_nibble : ℕ → ℕ → ℕ → ℕ → ℕ
b_nibble sum1 sum2 sum3 sum4 =
    nibble sum2
    ⊕ nibble (sum1 / 2 ^ 4)
    ⊕ nibble (sum4 / 2 ^ 8)
    ⊕ nibble (mul32 sum2 0xDCBA / 2 ^ 14)
    ⊕ nibble (mul32 sum2 0x8765 / 2 ^ 10)
    ⊕ nibble (mul32 sum1 0x4321 / 2 ^ 6)
    ⊕ nibble (rotate_left 32 sum4 2 ⊕ rotate_right 32 sum1 1)

-- `c_nibble`
unfoldable pub c_nibble : ℕ → ℕ → ℕ → ℕ → ℕ
c_nibble sum1 sum2 sum3 sum4 =
    nibble sum3
    ⊕ nibble (sum2 / 2 ^ 4)
    ⊕ nibble (sum2 / 2 ^ 8)
    ⊕ nibble (mul32 sum3 0xF135 / 2 ^ 10)
    ⊕ nibble (mul32 sum3 0x2468 / 2 ^ 12)
    ⊕ nibble (mul32 sum4 0xACEF / 2 ^ 8)
    ⊕ nibble (mul32 sum2 0x1357 / 2 ^ 4)
    ⊕ (nibble (rotate_left 32 sum3 5) ⊕ nibble (rotate_right 32 sum1 7))

-- `d_nibble`
unfoldable pub d_nibble : ℕ → ℕ → ℕ → ℕ → ℕ
d_nibble sum1 sum2 sum3 sum4 =
    nibble sum1
    ⊕ nibble (sum4 / 2 ^ 4)
    ⊕ nibble (sum1 / 2 ^ 8)
    ⊕ nibble (mul32 sum4 0x57A3 / 2 ^ 6)
    ⊕ nibble (mul32 sum3 0xD4E3 / 2 ^ 12)
    ⊕ nibble (mul32 sum1 0x9F8B / 2 ^ 10)
    ⊕ nibble (rotate_left 32 sum4 4 ⊕ (sum1 + sum2) % 2 ^ 32)

-- The rows that byte i of the products is made from.
abbrev sums : {A : Type 0} → List (List ℕ) → List ℕ → ℕ → (ℕ → ℕ → ℕ → ℕ → A) → A
sums matrix nibbles i f =
    f (dot_product (get_or matrix (2 * i) []) nibbles)
      (dot_product (get_or matrix (2 * i + 1) []) nibbles)
      (dot_product (get_or matrix (i + 2) []) nibbles)
      (dot_product (get_or matrix (i + 3) []) nibbles)

-- Byte i of `nibble_product` and of `product`.
unfoldable pub nibble_product_element : List (List ℕ) → List ℕ → ℕ → ℕ
nibble_product_element matrix hash_bytes i =
    let joined : ℕ =
      sums matrix (nibbles_of hash_bytes) i
        (λ s1 s2 s3 s4. bit_or (c_nibble s1 s2 s3 s4 * 2 ^ 4) (d_nibble s1 s2 s3 s4)) in
    joined ⊕ at hash_bytes i

unfoldable pub product_element : List (List ℕ) → List ℕ → ℕ → ℕ
product_element matrix hash_bytes i =
    let joined : ℕ =
      sums matrix (nibbles_of hash_bytes) i
        (λ s1 s2 s3 s4. bit_or (a_nibble s1 s2 s3 s4 * 2 ^ 4) (b_nibble s1 s2 s3 s4)) in
    joined ⊕ at hash_bytes i

unfoldable pub nibble_product_of : List (List ℕ) → List ℕ → List ℕ
nibble_product_of matrix hash_bytes = tabulate_from 0 32 (nibble_product_element matrix hash_bytes)

unfoldable pub product_of : List (List ℕ) → List ℕ → List ℕ
product_of matrix hash_bytes = tabulate_from 0 32 (product_element matrix hash_bytes)

-- The first four components of the octonion, mixed into the product's bytes.
unfoldable pub mix_octonion : Octonion → List ℕ → List ℕ
mix_octonion o product =
    let bytes = le_bytes 8 o.e0 ++ (le_bytes 8 o.e1 ++ (le_bytes 8 o.e2 ++ le_bytes 8 o.e3)) in
    update_from 0 (λ i b. b ⊕ at bytes i) product
