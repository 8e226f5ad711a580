-- ===== src/Pow/Matrix.antt =====
-- src/pow/heavy_hash.rs: the matrix that a hash seeds, and the products of its rows. `generate` is
-- for any rank; Pow.Matrix.Rank has the code's, over floats that are a parameter.
pub mod Nibbles
pub mod Avx2
pub mod Rank
use cryptix_miner_test.Base.{
  ◌+◌, ◌%◌, ◌*◌, ◌/◌, ◌==◌, List, Option, [], ◌^◌, bit_and, get_or, if◌then◌else◌, ltb, none, some,
  suc, zero, ℕ, ◌∷◌,
}
use cryptix_miner_test.Target.{Uint256}
use cryptix_miner_test.Pow.Xoshiro.{XoShiRo256PlusPlus, xoshiro, next}

-- Element j of a row on: a number of the generator serves sixteen elements, four bits each.
unfoldable pub rand_row : ℕ → ℕ → ℕ → XoShiRo256PlusPlus → List ℕ × XoShiRo256PlusPlus
rand_row j zero val generator = ([], generator)
rand_row j (suc n) val generator =
    let shift = j % 16 in
    let (generator', val') : XoShiRo256PlusPlus × ℕ =
      if shift == 0 then next generator else (generator, val) in
    let (rest, last) = rand_row (suc j) n val' generator' in
    (bit_and (val' / 2 ^ (4 * shift)) 0x0F ∷ rest, last)

unfoldable pub rand_rows : ℕ → XoShiRo256PlusPlus → List (List ℕ) × XoShiRo256PlusPlus
rand_rows zero generator = ([], generator)
rand_rows (suc n) generator =
    let (row, generator') = rand_row 0 64 0 generator in
    let (rows, last) = rand_rows n generator' in (row ∷ rows, last)

-- `rand_matrix_no_rank_check`
unfoldable pub rand_matrix_no_rank_check : XoShiRo256PlusPlus → List (List ℕ) × XoShiRo256PlusPlus
rand_matrix_no_rank_check generator = rand_rows 64 generator

-- The loop of `generate`, on fuel: the code runs until a matrix has full rank.
unfoldable pub generate_loop : (List (List ℕ) → ℕ) → ℕ → XoShiRo256PlusPlus → Option (List (List ℕ))
generate_loop compute_rank zero generator = none
generate_loop compute_rank (suc fuel) generator =
    let (mat, generator') = rand_matrix_no_rank_check generator in
    let more = generate_loop compute_rank fuel generator' in
    if compute_rank mat == 64 then some mat else more

-- `generate`
unfoldable pub generate : (List (List ℕ) → ℕ) → ℕ → Uint256 → Option (List (List ℕ))
generate compute_rank fuel hash = generate_loop compute_rank fuel (xoshiro hash)

-- The scalar loop of `dot_products_4rows` for one row, from element j on, four elements a turn,
-- with the wrap-around of a release build.
unfoldable pub dot_loop : ℕ → ℕ → List ℕ → List ℕ → ℕ → ℕ
dot_loop zero j row nibbles sum = sum
dot_loop (suc turns) j row nibbles sum =
    let term : ℕ =
      get_or row j 0 * get_or nibbles j 0
      + get_or row (j + 1) 0 * get_or nibbles (j + 1) 0
      + get_or row (j + 2) 0 * get_or nibbles (j + 2) 0
      + get_or row (j + 3) 0 * get_or nibbles (j + 3) 0 in
    dot_loop turns (j + 4) row nibbles ((sum + term) % 2 ^ 32)

-- `dot_products_4rows`, for one of its rows.
unfoldable pub dot_product : List ℕ → List ℕ → ℕ
dot_product row nibbles = dot_loop 16 0 row nibbles 0
