-- ===== src/Pow/Matrix/Avx2/Chunks.antt =====
-- src/pow/heavy_hash.rs: the AVX2 products, a chunk of 32 elements at a time.
use cryptix_miner_test.Base.{
  ◌+◌, ◌<◌, List, ◌^◌, ℕ, ◌≡◌, ◌%◌, ◌*◌, ◌-◌, arith, if◌then◌else◌, leb, ltb, lt→ltb, ◌≤◌, ◌∙◌, ap,
  get_or, get_or-All, length,
}
use cryptix_miner_test.Pow.Matrix.Nibbles.{IsNibble, IsRow, term, term-le}
use cryptix_miner_test.Pow.Matrix.Avx2.{Avx2, accum_row_chunk}
use cryptix_miner_test.Pow.Matrix.Avx2.Lanes.{Documented, extend_16, madd_pair, maddubs_pair}

-- Four products from element j on.
unfoldable pub quad : List ℕ → List ℕ → ℕ → ℕ
quad xs ys j = term xs ys j + term xs ys (j + 1) + term xs ys (j + 2) + term xs ys (j + 3)

pub quad-le : (row nibbles : List ℕ) (j : ℕ) → IsRow row → IsRow nibbles → quad row nibbles j ≤ 900
unfolding quad
quad-le row nibbles j (a, r) (b, n) = omega (
  arith,
  term-le row nibbles j a b,
  term-le row nibbles (j + 1) a b,
  term-le row nibbles (j + 2) a b,
  term-le row nibbles (j + 3) a b,
)

-- Two products of nibbles, which do not saturate.
maddubs_pair-nibbles :
    (a0 a1 b0 b1 : ℕ)
    → b0 < 16
    → b1 < 16
    → a0 * b0 ≤ 225
    → a1 * b1 ≤ 225
    → maddubs_pair a0 a1 b0 b1 ≡ a0 * b0 + a1 * b1
unfolding maddubs_pair
maddubs_pair-nibbles a0 a1 b0 b1 l0 l1 m0 m1 =
    rw (lt→ltb b0 128 (omega arith), lt→ltb b1 128 (omega arith)) rest
  where
    rest :
        (if leb 0 (a0 * b0 + a1 * b1)
          then if ltb (a0 * b0 + a1 * b1 - 0) 32768 then a0 * b0 + a1 * b1 - 0 else 32767
          else if leb (0 - (a0 * b0 + a1 * b1)) 32768
          then 65536 - (0 - (a0 * b0 + a1 * b1))
          else 32768)
        ≡ a0 * b0 + a1 * b1
    rest = ground arith

-- Two small words, each multiplied by one.
madd_pair-ones : (x y : ℕ) → x ≤ 450 → y ≤ 450 → madd_pair x y 1 1 ≡ x + y
unfolding madd_pair extend_16
madd_pair-ones x y lx ly =
    rw (lt→ltb x (2 ^ 15) (omega arith), lt→ltb y (2 ^ 15) (omega arith)) (omega arith)

module _ {V W : Type 0} (cpu : Avx2 V W) (doc : Documented cpu) where
  -- Two bytes of a row and two nibbles, in one word.
  chunk-word :
      (row nibbles : List ℕ) (offset k : ℕ)
      → IsRow row
      → IsRow nibbles
      → offset + 32 ≤ 64
      → k < 16
      → doc.word (cpu.maddubs_epi16 (cpu.loadu_si256 row offset) (cpu.loadu_si256 nibbles offset)) k
        ≡ term row nibbles (offset + 2 * k) + term row nibbles (offset + 2 * k + 1)
  unfolding term
  chunk-word row nibbles offset k (a, r) (b, n) le lt =
      doc.maddubs_epi16-word (cpu.loadu_si256 row offset) (cpu.loadu_si256 nibbles offset) k lt
      ∙ rw
          (
            read row r (2 * k) (omega arith),
            read row r (2 * k + 1) (omega arith),
            read nibbles n (2 * k) (omega arith),
            read nibbles n (2 * k + 1) (omega arith),
          )
          (maddubs_pair-nibbles (get_or row (offset + 2 * k) 0)
            (get_or row (offset + (2 * k + 1)) 0) (get_or nibbles (offset + 2 * k) 0)
            (get_or nibbles (offset + (2 * k + 1)) 0)
            (get_or-All IsNibble nibbles (offset + 2 * k) 0 b (omega arith))
            (get_or-All IsNibble nibbles (offset + (2 * k + 1)) 0 b (omega arith))
            (term-le row nibbles (offset + 2 * k) a b)
            (term-le row nibbles (offset + (2 * k + 1)) a b))
      ∙ ap (λ (j : ℕ). term row nibbles (offset + 2 * k) + term row nibbles j) next_index
    where
      read :
          (xs : List ℕ)
          → length xs ≡ 64
          → (j : ℕ) → j < 32
          → doc.byte (cpu.loadu_si256 xs offset) j ≡ get_or xs (offset + j) 0
      read xs l j h = doc.loadu_si256-byte xs offset j (omega arith) h

      next_index : offset + (2 * k + 1) ≡ offset + 2 * k + 1
      next_index = omega arith

  -- Four bytes of a row and four nibbles, in one lane.
  chunk-dword :
      (row nibbles : List ℕ) (offset i : ℕ)
      → IsRow row
      → IsRow nibbles
      → offset + 32 ≤ 64
      → i < 8
      → doc.dword
          (cpu.madd_epi16
            (cpu.maddubs_epi16 (cpu.loadu_si256 row offset) (cpu.loadu_si256 nibbles offset))
            (cpu.set1_epi16 1))
          i
        ≡ quad row nibbles (offset + 4 * i)
  unfolding quad
  chunk-dword row nibbles offset i (a, r) (b, n) le lt =
      doc.madd_epi16-dword
        (cpu.maddubs_epi16 (cpu.loadu_si256 row offset) (cpu.loadu_si256 nibbles offset))
        (cpu.set1_epi16 1) i lt
      ∙ pair
      ∙ omega (
        arith,
        ap (term row nibbles) e0,
        ap (term row nibbles) e1,
        ap (term row nibbles) e2,
        ap (term row nibbles) e3,
      )
    where
      bound : (j : ℕ) → term row nibbles j ≤ 225
      bound j = term-le row nibbles j a b

      words : V
      words = cpu.maddubs_epi16 (cpu.loadu_si256 row offset) (cpu.loadu_si256 nibbles offset)

      ones : V
      ones = cpu.set1_epi16 1

      word_of :
          (k : ℕ)
          → k < 16
          → doc.word words k
            ≡ term row nibbles (offset + 2 * k) + term row nibbles (offset + 2 * k + 1)
      word_of k h = chunk-word row nibbles offset k (a, r) (b, n) le h

      pair :
          madd_pair
            (doc.word words (2 * i))
            (doc.word words (2 * i + 1))
            (doc.word ones (2 * i))
            (doc.word ones (2 * i + 1))
          ≡ term row nibbles (offset + 2 * (2 * i))
            + term row nibbles (offset + 2 * (2 * i) + 1)
            + (term row nibbles (offset + 2 * (2 * i + 1))
                + term row nibbles (offset + 2 * (2 * i + 1) + 1))
      pair =
          rw
            (
              word_of (2 * i) (omega arith),
              word_of (2 * i + 1) (omega arith),
              doc.set1_epi16-word 1 (2 * i) (omega arith),
              doc.set1_epi16-word 1 (2 * i + 1) (omega arith),
            )
            (madd_pair-ones
              (term row nibbles (offset + 2 * (2 * i))
                + term row nibbles (offset + 2 * (2 * i) + 1))
              (term row nibbles (offset + 2 * (2 * i + 1))
                + term row nibbles (offset + 2 * (2 * i + 1) + 1))
              (omega (arith, bound (offset + 2 * (2 * i)), bound (offset + 2 * (2 * i) + 1)))
              (omega
                (arith, bound (offset + 2 * (2 * i + 1)), bound (offset + 2 * (2 * i + 1) + 1))))

      e0 : offset + 2 * (2 * i) ≡ offset + 4 * i
      e0 = omega arith

      e1 : offset + 2 * (2 * i) + 1 ≡ offset + 4 * i + 1
      e1 = omega arith

      e2 : offset + 2 * (2 * i + 1) ≡ offset + 4 * i + 2
      e2 = omega arith

      e3 : offset + 2 * (2 * i + 1) + 1 ≡ offset + 4 * i + 3
      e3 = omega arith

  -- One chunk into an accumulator, lane by lane.
  pub accum-dword :
      (acc : V) (row nibbles : List ℕ) (offset i : ℕ)
      → IsRow row
      → IsRow nibbles
      → offset + 32 ≤ 64
      → i < 8
      → doc.dword (accum_row_chunk cpu acc row (cpu.loadu_si256 nibbles offset) offset) i
        ≡ (doc.dword acc i + quad row nibbles (offset + 4 * i)) % 2 ^ 32
  unfolding accum_row_chunk
  accum-dword acc row nibbles offset i is_row is_nibbles le lt =
      let mul16 : V =
        cpu.maddubs_epi16 (cpu.loadu_si256 row offset) (cpu.loadu_si256 nibbles offset) in
      doc.add_epi32-dword acc (cpu.madd_epi16 mul16 (cpu.set1_epi16 1)) i lt
      ∙ ap (λ (d : ℕ). (doc.dword acc i + d) % 2 ^ 32)
          (chunk-dword row nibbles offset i is_row is_nibbles le lt)
