-- ===== src/Pow/Matrix/Avx2.antt =====
-- src/pow/heavy_hash.rs: the products of four rows, with the AVX2 instructions when the CPU
-- has them. The instructions and their registers are parameters.
pub mod Lanes
pub mod Chunks
pub mod Exact
use cryptix_miner_test.Base.{Bool, List, if◌then◌else◌, ℕ}
use cryptix_miner_test.Pow.Matrix.{dot_product}

-- The intrinsics of `core::arch` that the code calls, on registers of 256 and of 128 bits. A
-- load reads from a list at an offset; 32-bit values are given by their bits.
pub record Avx2 (V W : Type 0) : Type 0 where
  pub set1_epi16 : ℕ → V
  pub loadu_si256 : List ℕ → ℕ → V
  pub setzero_si256 : V
  pub maddubs_epi16 : V → V → V
  pub madd_epi16 : V → V → V
  pub add_epi32 : V → V → V
  pub castsi256_si128 : V → W
  pub extracti128_si256 : V → ℕ → W
  pub add_epi32_128 : W → W → W
  pub srli_si128 : W → ℕ → W
  pub cvtsi128_si32 : W → ℕ

-- `hsum_u32x8_avx2`
unfoldable pub hsum_u32x8_avx2 : {V W : Type 0} → Avx2 V W → V → ℕ
hsum_u32x8_avx2 {V} {W} cpu v =
    let lo : W = cpu.castsi256_si128 v in
    let hi : W = cpu.extracti128_si256 v 1 in
    let sum128 : W = cpu.add_epi32_128 lo hi in
    let sum64 : W = cpu.add_epi32_128 sum128 (cpu.srli_si128 sum128 8) in
    let sum32 : W = cpu.add_epi32_128 sum64 (cpu.srli_si128 sum64 4) in cpu.cvtsi128_si32 sum32

-- `accum_row_chunk!`
unfoldable pub accum_row_chunk : {V W : Type 0} → Avx2 V W → V → List ℕ → V → ℕ → V
accum_row_chunk {V} cpu acc row nib offset =
    let row_vec : V = cpu.loadu_si256 row offset in
    let mul16 : V = cpu.maddubs_epi16 row_vec nib in
    let mul32 : V = cpu.madd_epi16 mul16 (cpu.set1_epi16 1) in cpu.add_epi32 acc mul32

-- One row of `dot_products_4rows_avx2`: the two chunks into an accumulator, then its sum.
unfoldable pub dot_product_avx2 : {V W : Type 0} → Avx2 V W → List ℕ → List ℕ → ℕ
dot_product_avx2 {V} cpu row nibbles =
    let n0 : V = cpu.loadu_si256 nibbles 0 in
    let n1 : V = cpu.loadu_si256 nibbles 32 in
    let acc : V = accum_row_chunk cpu cpu.setzero_si256 row n0 0 in
    let acc' : V = accum_row_chunk cpu acc row n1 32 in hsum_u32x8_avx2 cpu acc'

-- `dot_products_4rows_avx2`
unfoldable pub dot_products_4rows_avx2 :
    {V W : Type 0} → Avx2 V W → List ℕ → List ℕ → List ℕ → List ℕ → List ℕ → ℕ × ℕ × ℕ × ℕ
dot_products_4rows_avx2 cpu row0 row1 row2 row3 nibbles = (
  dot_product_avx2 cpu row0 nibbles,
  dot_product_avx2 cpu row1 nibbles,
  dot_product_avx2 cpu row2 nibbles,
  dot_product_avx2 cpu row3 nibbles,
)

-- `dot_products_4rows`
unfoldable pub dot_products_4rows :
    {V W : Type 0} → Avx2 V W → List ℕ → List ℕ → List ℕ → List ℕ → List ℕ → Bool → ℕ × ℕ × ℕ × ℕ
dot_products_4rows cpu row0 row1 row2 row3 nibbles use_avx2 =
    if use_avx2 then dot_products_4rows_avx2 cpu row0 row1 row2 row3 nibbles else (
      dot_product row0 nibbles,
      dot_product row1 nibbles,
      dot_product row2 nibbles,
      dot_product row3 nibbles,
    )
