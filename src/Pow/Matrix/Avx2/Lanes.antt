-- ===== src/Pow/Matrix/Avx2/Lanes.antt =====
-- What the AVX2 instructions of src/pow/heavy_hash.rs do, lane by lane, as Intel documents
-- them: the hypotheses under which the vector code is compared with the scalar loop.
use cryptix_miner_test.Base.{
  ◌%◌, ◌*◌, ◌+◌, ◌-◌, ◌<◌, List, ◌^◌, get_or, if◌then◌else◌, leb, length, ltb, ℕ, ◌≡◌, ◌≤◌,
}
use cryptix_miner_test.Pow.Matrix.Avx2.{Avx2}

-- The 16-bit result of two products of an unsigned and a signed byte, which saturates.
unfoldable pub maddubs_pair : ℕ → ℕ → ℕ → ℕ → ℕ
maddubs_pair a0 a1 b0 b1 =
    let plus : ℕ = a0 * b0 + a1 * b1 in
    let minus : ℕ = (if ltb b0 128 then 0 else 256 * a0) + (if ltb b1 128 then 0 else 256 * a1) in
    if leb minus plus
    then if ltb (plus - minus) 32768 then plus - minus else 32767
    else if leb (minus - plus) 32768
    then 65536 - (minus - plus)
    else 32768

-- A 16-bit word, sign-extended to 32 bits.
unfoldable pub extend_16 : ℕ → ℕ
extend_16 x = if ltb x (2 ^ 15) then x else x + (2 ^ 32 - 2 ^ 16)

-- The 32-bit result of two products of signed words.
unfoldable pub madd_pair : ℕ → ℕ → ℕ → ℕ → ℕ
madd_pair a0 a1 b0 b1 = (extend_16 a0 * extend_16 b0 + extend_16 a1 * extend_16 b1) % 2 ^ 32

-- The registers as lanes of 8, 16 and 32 bits, and each instruction on the lanes it is
-- documented by. A load needs its 32 bytes inside the array.
pub record Documented {V W : Type 0} (cpu : Avx2 V W) : Type 0 where
  pub byte : V → ℕ → ℕ
  pub word : V → ℕ → ℕ
  pub dword : V → ℕ → ℕ
  pub dword_128 : W → ℕ → ℕ
  pub set1_epi16-word : (x i : ℕ) → i < 16 → word (cpu.set1_epi16 x) i ≡ x
  pub loadu_si256-byte :
      (xs : List ℕ) (offset i : ℕ)
      → offset + 32 ≤ length xs
      → i < 32
      → byte (cpu.loadu_si256 xs offset) i ≡ get_or xs (offset + i) 0
  pub setzero_si256-dword : (i : ℕ) → i < 8 → dword cpu.setzero_si256 i ≡ 0
  pub maddubs_epi16-word :
      (v w : V) (i : ℕ)
      → i < 16
      → word (cpu.maddubs_epi16 v w) i
        ≡ maddubs_pair (byte v (2 * i)) (byte v (2 * i + 1)) (byte w (2 * i)) (byte w (2 * i + 1))
  pub madd_epi16-dword :
      (v w : V) (i : ℕ)
      → i < 8
      → dword (cpu.madd_epi16 v w) i
        ≡ madd_pair (word v (2 * i)) (word v (2 * i + 1)) (word w (2 * i)) (word w (2 * i + 1))
  pub add_epi32-dword :
      (v w : V) (i : ℕ) → i < 8 → dword (cpu.add_epi32 v w) i ≡ (dword v i + dword w i) % 2 ^ 32
  pub castsi256_si128-dword :
      (v : V) (i : ℕ) → i < 4 → dword_128 (cpu.castsi256_si128 v) i ≡ dword v i
  pub extracti128_si256-dword :
      (v : V) (i : ℕ) → i < 4 → dword_128 (cpu.extracti128_si256 v 1) i ≡ dword v (4 + i)
  pub add_epi32_128-dword :
      (v w : W) (i : ℕ)
      → i < 4
      → dword_128 (cpu.add_epi32_128 v w) i ≡ (dword_128 v i + dword_128 w i) % 2 ^ 32
  pub srli_si128-dword :
      (v : W) (k i : ℕ)
      → i < 4
      → dword_128 (cpu.srli_si128 v (4 * k)) i ≡ (if ltb (i + k) 4 then dword_128 v (i + k) else 0)
  pub cvtsi128_si32-dword : (v : W) → cpu.cvtsi128_si32 v ≡ dword_128 v 0
