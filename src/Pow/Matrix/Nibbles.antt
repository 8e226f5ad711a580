-- ===== src/Pow/Matrix/Nibbles.antt =====
-- src/pow/heavy_hash.rs: the elements of a generated matrix, and the product of a row with the
-- nibbles of a hash.
use cryptix_miner_test.Base.{
  ℕ, ◌*◌, ◌+◌, ◌<◌, All, List, [], ap, arith, bit_and, length, refl, some, suc, zero, ◌∷◌, ◌≡◌, ◌%◌,
  ◌==◌, ◌^◌, get_or, get_or-All, if◌then◌else◌, ◌≤◌, ◌∙◌, false, true,
}
use native.Mathlib.Nat.{mul-le-mul}
use cryptix_miner_test.Base.Bits.{bit_and_low}
use cryptix_miner_test.Pow.Xoshiro.{XoShiRo256PlusPlus, next}
use cryptix_miner_test.Pow.Matrix.{
  rand_row, rand_rows, rand_matrix_no_rank_check, generate_loop, dot_loop, dot_product,
}

abbrev pub IsNibble : ℕ → Type 0
IsNibble x = x < 16

-- A row, or a vector, of 64 nibbles.
abbrev pub IsRow : List ℕ → Type 0
IsRow row = All IsNibble row × (length row ≡ 64)

abbrev pub IsMatrix : List (List ℕ) → Type 0
IsMatrix matrix = All IsRow matrix × (length matrix ≡ 64)

bit_and-IsNibble : (x : ℕ) → bit_and x 0x0F < 16
bit_and-IsNibble x = omega (arith, bit_and_low 4 x)

rand_row-IsRow :
    (j n val : ℕ) (g : XoShiRo256PlusPlus)
    → All IsNibble (rand_row j n val g).0 × (length (rand_row j n val g).0 ≡ n)
unfolding rand_row
rand_row-IsRow j zero val g = (tt, refl)
rand_row-IsRow j (suc n) val g =
    let (g', val') : XoShiRo256PlusPlus × ℕ = if j % 16 == 0 then next g else (g, val) in
    let rest = rand_row-IsRow (suc j) n val' g' in ((bit_and-IsNibble _, rest.0), ap suc rest.1)

rand_rows-IsMatrix :
    (n : ℕ) (g : XoShiRo256PlusPlus) → All IsRow (rand_rows n g).0 × (length (rand_rows n g).0 ≡ n)
unfolding rand_rows
rand_rows-IsMatrix zero g = (tt, refl)
rand_rows-IsMatrix (suc n) g =
    let row = rand_row-IsRow 0 64 0 g in
    let rows = rand_rows-IsMatrix n (rand_row 0 64 0 g).1 in ((row, rows.0), ap suc rows.1)

-- The k-th matrix that a generator gives.
unfoldable pub nth_matrix : ℕ → XoShiRo256PlusPlus → List (List ℕ)
nth_matrix zero g = (rand_matrix_no_rank_check g).0
nth_matrix (suc k) g = nth_matrix k (rand_matrix_no_rank_check g).1

nth_matrix-IsMatrix : (k : ℕ) (g : XoShiRo256PlusPlus) → IsMatrix (nth_matrix k g)
unfolding nth_matrix rand_matrix_no_rank_check
nth_matrix-IsMatrix zero g = rand_rows-IsMatrix 64 g
nth_matrix-IsMatrix (suc k) g = nth_matrix-IsMatrix k (rand_matrix_no_rank_check g).1

-- When the k-th matrix is the first of full rank, fuel above k makes the loop of `generate`
-- return it, and it has 64 rows of 64 nibbles.
pub generate_loop-first :
    (compute_rank : List (List ℕ) → ℕ) (k fuel : ℕ) (g : XoShiRo256PlusPlus)
    → k < fuel
    → ((j : ℕ) → j < k → (compute_rank (nth_matrix j g) == 64) ≡ false)
    → (compute_rank (nth_matrix k g) == 64) ≡ true
    → (generate_loop compute_rank fuel g ≡ some (nth_matrix k g)) × IsMatrix (nth_matrix k g)
unfolding generate_loop nth_matrix
generate_loop-first compute_rank k zero g lt low full = absurd (omega arith)
generate_loop-first compute_rank zero (suc fuel) g lt low full =
    (rw (generate_loop, full) refl, nth_matrix-IsMatrix zero g)
generate_loop-first compute_rank (suc k) (suc fuel) g lt low full =
    let (found, is) =
      generate_loop-first compute_rank k fuel (rand_matrix_no_rank_check g).1 (omega arith)
        (λ j h. low (suc j) (omega arith)) full in
    (rw (generate_loop, low 0 (omega arith)) found, is)

-- Σ row j * nibbles j
unfoldable pub dot : List ℕ → List ℕ → ℕ
dot [] ys = 0
dot (x ∷ xs) [] = 0
dot (x ∷ xs) (y ∷ ys) = x * y + dot xs ys

unfoldable pub term : List ℕ → List ℕ → ℕ → ℕ
term xs ys j = get_or xs j 0 * get_or ys j 0

-- The products from element j on, n of them.
unfoldable pub terms : ℕ → ℕ → List ℕ → List ℕ → ℕ
terms zero j xs ys = 0
terms (suc n) j xs ys = term xs ys j + terms n (suc j) xs ys

terms-cons : (n j x y : ℕ) (xs ys : List ℕ) → terms n (suc j) (x ∷ xs) (y ∷ ys) ≡ terms n j xs ys
unfolding terms term
terms-cons zero j x y xs ys = refl
terms-cons (suc n) j x y xs ys = ap (λ (t : ℕ). term xs ys j + t) (terms-cons n (suc j) x y xs ys)

pub terms-eq-dot :
    (n : ℕ) (xs ys : List ℕ) → length xs ≡ n → length ys ≡ n → terms n 0 xs ys ≡ dot xs ys
unfolding terms term dot
terms-eq-dot zero [] [] e e' = refl
terms-eq-dot zero [] (y ∷ ys) e e' = refl
terms-eq-dot zero (x ∷ xs) ys e e' = absurd (omega arith)
terms-eq-dot (suc n) [] ys e e' = absurd (omega arith)
terms-eq-dot (suc n) (x ∷ xs) [] e e' = absurd (omega arith)
terms-eq-dot (suc n) (x ∷ xs) (y ∷ ys) e e' =
    omega (arith, terms-cons n 0 x y xs ys, terms-eq-dot n xs ys (omega arith) (omega arith))

-- A product of two nibbles.
pub term-le : (xs ys : List ℕ) (j : ℕ) → All IsNibble xs → All IsNibble ys → term xs ys j ≤ 225
unfolding term
term-le xs ys j a b = mul-le-mul x y
  where
    x : get_or xs j 0 ≤ 15
    x = omega (arith, get_or-All IsNibble xs j 0 a (omega arith))

    y : get_or ys j 0 ≤ 15
    y = omega (arith, get_or-All IsNibble ys j 0 b (omega arith))

pub four_terms :
    (turns j : ℕ) (row nibbles : List ℕ)
    → terms (4 * suc turns) j row nibbles
      ≡ term row nibbles j
        + term row nibbles (j + 1)
        + term row nibbles (j + 2)
        + term row nibbles (j + 3)
        + terms (4 * turns) (j + 4) row nibbles
unfolding terms
four_terms turns j row nibbles =
    ap (λ (n : ℕ). terms n j row nibbles) more
    ∙ omega (
      arith,
      ap (λ (k : ℕ). term row nibbles k) one,
      ap (λ (k : ℕ). term row nibbles k) two,
      ap (λ (k : ℕ). term row nibbles k) three,
      ap (λ (k : ℕ). terms (4 * turns) k row nibbles) next_four,
    )
  where
    more : 4 * suc turns ≡ suc (suc (suc (suc (4 * turns))))
    more = omega arith

    one : suc j ≡ j + 1
    one = omega arith

    two : suc (suc j) ≡ j + 2
    two = omega arith

    three : suc (suc (suc j)) ≡ j + 3
    three = omega arith

    next_four : suc (suc (suc (suc j))) ≡ j + 4
    next_four = omega arith

dot_loop-eq-terms :
    (turns j : ℕ) (row nibbles : List ℕ) (sum : ℕ)
    → All IsNibble row
    → All IsNibble nibbles
    → sum + 900 * turns < 2 ^ 32
    → dot_loop turns j row nibbles sum ≡ sum + terms (4 * turns) j row nibbles
unfolding dot_loop term
dot_loop-eq-terms zero j row nibbles sum a b lt = unfold terms in omega arith
dot_loop-eq-terms (suc turns) j row nibbles sum a b lt =
    let t0 = term-le row nibbles j a b in
    let t1 = term-le row nibbles (j + 1) a b in
    let t2 = term-le row nibbles (j + 2) a b in
    let t3 = term-le row nibbles (j + 3) a b in
    let four : ℕ =
      term row nibbles j
      + term row nibbles (j + 1)
      + term row nibbles (j + 2)
      + term row nibbles (j + 3) in
    let fits : (sum + four) % 2 ^ 32 ≡ sum + four = omega arith in
    ap (λ (t : ℕ). dot_loop turns (j + 4) row nibbles t) fits
    ∙ dot_loop-eq-terms turns (j + 4) row nibbles (sum + four) a b (omega arith)
    ∙ omega (arith, four_terms turns j row nibbles)

terms-le :
    (n j : ℕ) (xs ys : List ℕ) → All IsNibble xs → All IsNibble ys → terms n j xs ys ≤ 225 * n
unfolding terms
terms-le zero j xs ys a b = omega arith
terms-le (suc n) j xs ys a b = omega (arith, term-le xs ys j a b, terms-le n (suc j) xs ys a b)

-- For a row and a vector of 64 nibbles each: the unrolled loop computes the sum of the
-- products, and the sum stays far below the bound of a u32.
pub dot_product_lem :
    (row nibbles : List ℕ)
    → IsRow row
    → IsRow nibbles
    → (dot_product row nibbles ≡ dot row nibbles) × (dot row nibbles ≤ 64 * 225)
unfolding dot_product
dot_product_lem row nibbles (a, r) (b, n) =
    let sum = terms-eq-dot 64 row nibbles r n in
    (
      omega (arith, dot_loop-eq-terms 16 0 row nibbles 0 a b (omega arith), sum),
      omega (arith, sum, terms-le 64 0 row nibbles a b),
    )
