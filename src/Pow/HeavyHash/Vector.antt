-- ===== src/Pow/HeavyHash/Vector.antt =====
-- src/pow/heavy_hash.rs: the loop of `heavy_hash` over the rows as it stands in the code, with the
-- test of the CPU, and the arrays of the model.
use cryptix_miner_test.Base.{
  ◌*◌, ◌+◌, ◌<◌, All, Bool, List, [], ◌^◌, ap, ap₂, arith, bit_or, get_or, length, refl, suc,
  tabulate_from, tabulate_from-eq, zero, ℕ, ◌∷◌, ◌≡◌,
}
use cryptix_miner_test.Base.Bits.{bit_and_low}
use cryptix_miner_test.Target.Bytes.{IsBytes}
use cryptix_miner_test.Pow.Matrix.Nibbles.{IsMatrix, IsNibble, IsRow, dot_product_lem}
use cryptix_miner_test.Pow.Matrix.Avx2.{Avx2, dot_products_4rows}
use cryptix_miner_test.Pow.Matrix.Avx2.Lanes.{Documented}
use cryptix_miner_test.Pow.Matrix.Avx2.Exact.{dot_products_4rows_lem}
use cryptix_miner_test.Pow.HeavyHash.Ops.{at, ◌⊕◌}
use cryptix_miner_test.Pow.HeavyHash.Products.{
  a_nibble, b_nibble, c_nibble, d_nibble, nibble_product_element, nibble_product_of, nibbles_of,
  product_element, product_of,
}
use cryptix_miner_test.Pow.HeavyHash.Bytes.{IsArray}

-- The bytes of a turn, of `nibble_product` and of `product`, from its four sums.
unfoldable pub bytes_of_sums : ℕ × ℕ × ℕ × ℕ → ℕ → ℕ × ℕ
bytes_of_sums (sum1, sum2, sum3, sum4) hash_byte = (
  bit_or (c_nibble sum1 sum2 sum3 sum4 * 2 ^ 4) (d_nibble sum1 sum2 sum3 sum4) ⊕ hash_byte,
  bit_or (a_nibble sum1 sum2 sum3 sum4 * 2 ^ 4) (b_nibble sum1 sum2 sum3 sum4) ⊕ hash_byte,
)

-- Turn i of the loop.
unfoldable pub products_turn : {V W : Type 0} → Avx2 V W → Bool → List (List ℕ) → List ℕ → ℕ → ℕ × ℕ
products_turn cpu use_avx2 matrix hash_bytes i =
    let row0 = get_or matrix (2 * i) [] in
    let row1 = get_or matrix (2 * i + 1) [] in
    let row2 = get_or matrix (i + 2) [] in
    let row3 = get_or matrix (i + 3) [] in
    bytes_of_sums (dot_products_4rows cpu row0 row1 row2 row3 (nibbles_of hash_bytes) use_avx2)
      (at hash_bytes i)

-- The loop: `nibble_product` and `product`.
unfoldable pub products_loop :
    {V W : Type 0} → Avx2 V W → Bool → List (List ℕ) → List ℕ → List ℕ × List ℕ
products_loop cpu use_avx2 matrix hash_bytes = (
  tabulate_from 0 32 (λ i. (products_turn cpu use_avx2 matrix hash_bytes i).0),
  tabulate_from 0 32 (λ i. (products_turn cpu use_avx2 matrix hash_bytes i).1),
)

nibbles_of-IsRow :
    (bytes : List ℕ)
    → IsBytes bytes
    → All IsNibble (nibbles_of bytes) × (length (nibbles_of bytes) ≡ 2 * length bytes)
unfolding nibbles_of
nibbles_of-IsRow [] h = (tt, refl)
nibbles_of-IsRow (b ∷ bs) (h, hs) =
    let (ih, l) = nibbles_of-IsRow bs hs in
    ((omega arith, (omega (arith, bit_and_low 4 b), ih)), omega (arith, l))

get_or-IsRow :
    (matrix : List (List ℕ)) (i : ℕ) → IsMatrix matrix → i < 64 → IsRow (get_or matrix i [])
get_or-IsRow matrix i (all, l) lt = get_row matrix i all (omega (arith, l))
  where
    get_row :
        (rows : List (List ℕ)) (j : ℕ) → All IsRow rows → j < length rows → IsRow (get_or rows j [])
    get_row [] j a h = absurd (omega arith)
    get_row (r ∷ rows) zero (a, b) h = a
    get_row (r ∷ rows) (suc j) (a, b) h = get_row rows j b (omega arith)

module _ {V W : Type 0} (cpu : Avx2 V W) (doc : Documented cpu) where
  products_turn_lem :
      (use_avx2 : Bool) (matrix : List (List ℕ)) (hash_bytes : List ℕ) (i : ℕ)
      → IsMatrix matrix
      → IsArray hash_bytes
      → i < 32
      → products_turn cpu use_avx2 matrix hash_bytes i
        ≡ (nibble_product_element matrix hash_bytes i, product_element matrix hash_bytes i)
  unfolding products_turn bytes_of_sums nibble_product_element product_element
  products_turn_lem use_avx2 matrix hash_bytes i m (h, l) lt =
      rw
        (
          dot_products_4rows_lem cpu doc (get_or matrix (2 * i) []) (get_or matrix (2 * i + 1) [])
              (get_or matrix (i + 2) []) (get_or matrix (i + 3) []) (nibbles_of hash_bytes) use_avx2
              r0 r1 r2 r3 is,
          (dot_product_lem (get_or matrix (2 * i) []) (nibbles_of hash_bytes) r0 is).0,
          (dot_product_lem (get_or matrix (2 * i + 1) []) (nibbles_of hash_bytes) r1 is).0,
          (dot_product_lem (get_or matrix (i + 2) []) (nibbles_of hash_bytes) r2 is).0,
          (dot_product_lem (get_or matrix (i + 3) []) (nibbles_of hash_bytes) r3 is).0,
        )
        refl
    where
      r0 : IsRow (get_or matrix (2 * i) [])
      r0 = get_or-IsRow matrix (2 * i) m (omega arith)

      r1 : IsRow (get_or matrix (2 * i + 1) [])
      r1 = get_or-IsRow matrix (2 * i + 1) m (omega arith)

      r2 : IsRow (get_or matrix (i + 2) [])
      r2 = get_or-IsRow matrix (i + 2) m (omega arith)

      r3 : IsRow (get_or matrix (i + 3) [])
      r3 = get_or-IsRow matrix (i + 3) m (omega arith)

      is : IsRow (nibbles_of hash_bytes)
      is = let (a, b) = nibbles_of-IsRow hash_bytes h in (a, omega (arith, b, l))

  -- For a matrix of 64 rows of 64 nibbles, a hash of 32 bytes, and AVX2 instructions that do what
  -- they are documented to do: the loop over the rows gives the same two arrays whether the CPU
  -- is found to have AVX2 or not, those from which the heavy hash goes on.
  pub products_loop_lem :
      (use_avx2 : Bool) (matrix : List (List ℕ)) (hash_bytes : List ℕ)
      → IsMatrix matrix
      → IsArray hash_bytes
      → products_loop cpu use_avx2 matrix hash_bytes
        ≡ (nibble_product_of matrix hash_bytes, product_of matrix hash_bytes)
  unfolding products_loop nibble_product_of product_of
  products_loop_lem use_avx2 matrix hash_bytes m h =
      ap₂ (λ (a b : List ℕ). (a, b))
        (tabulate_from-eq 0 32 _ _
          (λ j lt. ap (λ (p : ℕ × ℕ). p.0) (products_turn_lem use_avx2 matrix hash_bytes j m h lt)))
        (tabulate_from-eq 0 32 _ _
          (λ j lt. ap (λ (p : ℕ × ℕ). p.1) (products_turn_lem use_avx2 matrix hash_bytes j m h lt)))
