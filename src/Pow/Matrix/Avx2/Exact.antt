-- ===== src/Pow/Matrix/Avx2/Exact.antt =====
-- src/pow/heavy_hash.rs: the AVX2 products and the scalar ones.
use cryptix_miner_test.Base.{
  ◌+◌, ◌<◌, List, ◌^◌, ℕ, ◌≡◌, ◌%◌, ◌*◌, arith, ◌≤◌, ap₂, ◌∙◌, Bool, false, refl, suc, sym, true,
  zero,
}
use cryptix_miner_test.Pow.Matrix.{dot_product}
use cryptix_miner_test.Pow.Matrix.Nibbles.{
  IsRow, dot, dot_product_lem, four_terms, terms, terms-eq-dot,
}
use cryptix_miner_test.Pow.Matrix.Avx2.{
  Avx2, accum_row_chunk, dot_product_avx2, dot_products_4rows, dot_products_4rows_avx2,
  hsum_u32x8_avx2,
}
use cryptix_miner_test.Pow.Matrix.Avx2.Lanes.{Documented}
use cryptix_miner_test.Pow.Matrix.Avx2.Chunks.{accum-dword, quad, quad-le}

-- The 64 products, in groups of four.
quads : ℕ → ℕ → List ℕ → List ℕ → ℕ
quads zero j xs ys = 0
quads (suc n) j xs ys = quad xs ys j + quads n (j + 4) xs ys

terms-eq-quads : (n j : ℕ) (xs ys : List ℕ) → terms (4 * n) j xs ys ≡ quads n j xs ys
unfolding quads quad
terms-eq-quads zero j xs ys = unfold terms in refl
terms-eq-quads (suc n) j xs ys = omega (arith, four_terms n j xs ys, terms-eq-quads n (j + 4) xs ys)

module _ {V W : Type 0} (cpu : Avx2 V W) (doc : Documented cpu) where
  -- The eight lanes of a register.
  total : V → ℕ
  total v =
      doc.dword v 0
      + doc.dword v 1
      + doc.dword v 2
      + doc.dword v 3
      + doc.dword v 4
      + doc.dword v 5
      + doc.dword v 6
      + doc.dword v 7

  half : V → W
  half v = cpu.add_epi32_128 (cpu.castsi256_si128 v) (cpu.extracti128_si256 v 1)

  half-dword :
      (v : V) (i : ℕ)
      → i < 4
      → doc.dword_128 (half v) i ≡ (doc.dword v i + doc.dword v (4 + i)) % 2 ^ 32
  unfolding half
  half-dword v i h =
      let lo : W = cpu.castsi256_si128 v in
      let hi : W = cpu.extracti128_si256 v 1 in
      doc.add_epi32_128-dword lo hi i h
      ∙ ap₂ (λ (a b : ℕ). (a + b) % 2 ^ 32) (doc.castsi256_si128-dword v i h)
          (doc.extracti128_si256-dword v i h)

  hsum_lem : (v : V) → total v < 2 ^ 32 → hsum_u32x8_avx2 cpu v ≡ total v
  unfolding hsum_u32x8_avx2 half total
  hsum_lem v fits =
      let s : W = half v in
      let shifted : W = cpu.srli_si128 s 8 in
      let sum64 : W = cpu.add_epi32_128 s shifted in
      let shifted' : W = cpu.srli_si128 sum64 4 in
      let at : ℕ → ℕ = doc.dword_128 s in
      omega (
        arith,
        doc.cvtsi128_si32-dword (cpu.add_epi32_128 sum64 shifted'),
        doc.add_epi32_128-dword sum64 shifted' 0 (omega arith),
        doc.srli_si128-dword sum64 1 0 (omega arith),
        doc.add_epi32_128-dword s shifted 0 (omega arith),
        doc.add_epi32_128-dword s shifted 1 (omega arith),
        doc.srli_si128-dword s 2 0 (omega arith),
        doc.srli_si128-dword s 2 1 (omega arith),
        half-dword v 0 (omega arith),
        half-dword v 1 (omega arith),
        half-dword v 2 (omega arith),
        half-dword v 3 (omega arith),
      )

  -- The accumulator of a row after its two chunks.
  accumulated : List ℕ → List ℕ → V
  accumulated row nibbles =
      accum_row_chunk cpu (accum_row_chunk cpu cpu.setzero_si256 row (cpu.loadu_si256 nibbles 0) 0)
        row (cpu.loadu_si256 nibbles 32) 32

  accumulated-dword :
      (row nibbles : List ℕ) (i : ℕ)
      → IsRow row
      → IsRow nibbles
      → i < 8
      → doc.dword (accumulated row nibbles) i
        ≡ quad row nibbles (0 + 4 * i) + quad row nibbles (32 + 4 * i)
  unfolding accumulated
  accumulated-dword row nibbles i is_row is_nibbles lt =
      let first : V = accum_row_chunk cpu cpu.setzero_si256 row (cpu.loadu_si256 nibbles 0) 0 in
      omega (
        arith,
        accum-dword cpu doc first row nibbles 32 i is_row is_nibbles (omega arith) lt,
        accum-dword cpu doc cpu.setzero_si256 row nibbles 0 i is_row is_nibbles (omega arith) lt,
        doc.setzero_si256-dword i lt,
        quad-le row nibbles (0 + 4 * i) is_row is_nibbles,
        quad-le row nibbles (32 + 4 * i) is_row is_nibbles,
      )

  total-accumulated :
      (row nibbles : List ℕ)
      → IsRow row
      → IsRow nibbles
      → total (accumulated row nibbles) ≡ quads 16 0 row nibbles
  unfolding total quads
  total-accumulated row nibbles is_row is_nibbles = omega (
    arith,
    lane 0 (omega arith),
    lane 1 (omega arith),
    lane 2 (omega arith),
    lane 3 (omega arith),
    lane 4 (omega arith),
    lane 5 (omega arith),
    lane 6 (omega arith),
    lane 7 (omega arith),
  )
    where
      lane :
          (i : ℕ)
          → i < 8
          → doc.dword (accumulated row nibbles) i
            ≡ quad row nibbles (0 + 4 * i) + quad row nibbles (32 + 4 * i)
      lane i h = accumulated-dword row nibbles i is_row is_nibbles h

  -- A row of nibbles with a vector of nibbles: the AVX2 code computes the scalar product.
  pub dot_product_avx2_lem :
      (row nibbles : List ℕ)
      → IsRow row
      → IsRow nibbles
      → dot_product_avx2 cpu row nibbles ≡ dot_product row nibbles
  unfolding dot_product_avx2 accumulated
  dot_product_avx2_lem row nibbles is_row is_nibbles =
      hsum_lem (accumulated row nibbles) (omega (arith, sum, scalar)) ∙ omega (arith, sum, scalar)
    where
      scalar : (dot_product row nibbles ≡ dot row nibbles) × (dot row nibbles ≤ 64 * 225)
      scalar = dot_product_lem row nibbles is_row is_nibbles

      sum : total (accumulated row nibbles) ≡ dot row nibbles
      sum =
          total-accumulated row nibbles is_row is_nibbles
          ∙ sym (terms-eq-quads 16 0 row nibbles)
          ∙ terms-eq-dot 64 row nibbles is_row.1 is_nibbles.1

  -- On a CPU whose AVX2 instructions do what they are documented to do, and for four rows and a
  -- vector of 64 nibbles each: the four products do not depend on whether the vector code is
  -- taken, and each is the sum of the products of the elements.
  pub dot_products_4rows_lem :
      (row0 row1 row2 row3 nibbles : List ℕ) (use_avx2 : Bool)
      → IsRow row0
      → IsRow row1
      → IsRow row2
      → IsRow row3
      → IsRow nibbles
      → dot_products_4rows cpu row0 row1 row2 row3 nibbles use_avx2
        ≡ (dot row0 nibbles, dot row1 nibbles, dot row2 nibbles, dot row3 nibbles)
  unfolding dot_products_4rows dot_products_4rows_avx2
  dot_products_4rows_lem row0 row1 row2 row3 nibbles true r0 r1 r2 r3 n = simp (
    dot_product_avx2_lem row0 nibbles r0 n,
    dot_product_avx2_lem row1 nibbles r1 n,
    dot_product_avx2_lem row2 nibbles r2 n,
    dot_product_avx2_lem row3 nibbles r3 n,
    (dot_product_lem row0 nibbles r0 n).0,
    (dot_product_lem row1 nibbles r1 n).0,
    (dot_product_lem row2 nibbles r2 n).0,
    (dot_product_lem row3 nibbles r3 n).0,
  )
  dot_products_4rows_lem row0 row1 row2 row3 nibbles false r0 r1 r2 r3 n = simp (
    (dot_product_lem row0 nibbles r0 n).0,
    (dot_product_lem row1 nibbles r1 n).0,
    (dot_product_lem row2 nibbles r2 n).0,
    (dot_product_lem row3 nibbles r3 n).0,
  )
