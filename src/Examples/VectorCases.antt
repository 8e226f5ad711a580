-- ===== src/Examples/VectorCases.antt =====
-- The AVX2 products at concrete rows, on registers that are tagged with the lanes last written.
use cryptix_miner_test.Base.{
  ◌%◌, ◌*◌, ◌+◌, ◌/◌, All, List, ◌^◌, ap, arith, get_or, if◌then◌else◌, ltb, refl, replicate, suc,
  true, zero, ℕ, ◌≡◌,
}
use cryptix_miner_test.Target.Bytes.{IsByte}
use cryptix_miner_test.Pow.Matrix.Nibbles.{IsNibble, IsRow}
use cryptix_miner_test.Pow.Matrix.Avx2.{Avx2}
use cryptix_miner_test.Pow.Matrix.Avx2.Lanes.{Documented, madd_pair, maddubs_pair}
use cryptix_miner_test.Pow.HeavyHash.Products.{nibble_product_of, product_of}
use cryptix_miner_test.Pow.HeavyHash.Vector.{products_loop, products_loop_lem}

data Register : Type 0 where
  bytes : (ℕ → ℕ) → Register
  words : (ℕ → ℕ) → Register
  dwords : (ℕ → ℕ) → Register

abbrev byte_of : Register → ℕ → ℕ
byte_of (bytes f) i = f i
byte_of (words f) i = 0
byte_of (dwords f) i = 0

abbrev word_of : Register → ℕ → ℕ
word_of (bytes f) i = 0
word_of (words f) i = f i
word_of (dwords f) i = 0

abbrev dword_of : Register → ℕ → ℕ
dword_of (bytes f) i = 0
dword_of (words f) i = 0
dword_of (dwords f) i = f i

abbrev shift_lanes : (ℕ → ℕ) → ℕ → ℕ → ℕ
shift_lanes v k i = if ltb (i + k) 4 then v (i + k) else 0

abbrev tagged : Avx2 Register (ℕ → ℕ)
tagged = record {
  set1_epi16 = λ x. words (λ i. x);
  loadu_si256 = λ xs offset. bytes (λ i. get_or xs (offset + i) 0);
  setzero_si256 = dwords (λ i. 0);
  maddubs_epi16 = λ v w. words (λ i.
      maddubs_pair (byte_of v (2 * i)) (byte_of v (2 * i + 1)) (byte_of w (2 * i))
        (byte_of w (2 * i + 1)));
  madd_epi16 = λ v w. dwords (λ i.
      madd_pair (word_of v (2 * i)) (word_of v (2 * i + 1)) (word_of w (2 * i))
        (word_of w (2 * i + 1)));
  add_epi32 = λ v w. dwords (λ i. (dword_of v i + dword_of w i) % 2 ^ 32);
  castsi256_si128 = λ v. dword_of v;
  extracti128_si256 = λ v k i. dword_of v (4 * k + i);
  add_epi32_128 = λ v w i. (v i + w i) % 2 ^ 32;
  srli_si128 = λ v k. shift_lanes v (k / 4);
  cvtsi128_si32 = λ v. v 0;
}

quarter : (k : ℕ) → 4 * k / 4 ≡ k
quarter k = omega arith

tagged-Documented : Documented tagged
tagged-Documented = record {
  byte = byte_of;
  word = word_of;
  dword = dword_of;
  dword_128 = λ v i. v i;
  set1_epi16-word = λ x i lt. refl;
  loadu_si256-byte = λ xs offset i le lt. refl;
  setzero_si256-dword = λ i lt. refl;
  maddubs_epi16-word = λ v w i lt. refl;
  madd_epi16-dword = λ v w i lt. refl;
  add_epi32-dword = λ v w i lt. refl;
  castsi256_si128-dword = λ v i lt. refl;
  extracti128_si256-dword = λ v i lt. refl;
  add_epi32_128-dword = λ v w i lt. refl;
  srli_si128-dword = λ v k i lt. ap (λ (n : ℕ). shift_lanes v n i) (quarter k);
  cvtsi128_si32-dword = λ v. refl;
}

abbrev vector_row : List ℕ
vector_row = replicate 64 13

elevens-are : (n : ℕ) → All IsNibble (replicate n 13)
elevens-are zero = tt
elevens-are (suc n) = (omega arith, elevens-are n)

vector_rows-are : (n : ℕ) → All IsRow (replicate n vector_row)
vector_rows-are zero = tt
vector_rows-are (suc n) = ((elevens-are 64, refl), vector_rows-are n)

bytes-are : (n : ℕ) → All IsByte (replicate n 200)
bytes-are zero = tt
bytes-are (suc n) = (omega arith, bytes-are n)

products_loop_lem_example :
    products_loop tagged true (replicate 64 vector_row) (replicate 32 200) ≡ (
      nibble_product_of (replicate 64 vector_row) (replicate 32 200),
      product_of (replicate 64 vector_row) (replicate 32 200),
    )
products_loop_lem_example =
    products_loop_lem tagged tagged-Documented true (replicate 64 vector_row) (replicate 32 200)
      (vector_rows-are 64, refl) (bytes-are 32, refl)
