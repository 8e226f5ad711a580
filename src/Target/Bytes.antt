-- ===== src/Target/Bytes.antt =====
-- The byte encodings of a `Uint256`: round trips, and what the bytes stand for.
use cryptix_miner_test.Base.{
  take, ◌++◌, ℕ, List, ◌≡◌, All, length, arith, ◌<◌, ◌∷◌, ◌^◌, [], ◌/◌, ap, refl, suc, zero, ◌%◌,
  ◌*◌, ◌+◌, drop, length-drop, length-take, ◌≤◌, ap₂, drop-drop, take-append-drop, ◌∙◌,
}
use mathlib.Core.List.{reverse}
use cryptix_miner_test.Target.{
  Uint256, IsWords, le_bytes, of_le_bytes, to_le_bytes, to_be_bytes, from_le_bytes, ℕ, List,
}
use cryptix_miner_test.Target.Value.{value}

abbrev pub IsByte : ℕ → Type 0
IsByte b = b < 256

abbrev pub IsBytes : List ℕ → Type 0
IsBytes bs = All IsByte bs

pub le_bytes-IsBytes : (n w : ℕ) → IsBytes (le_bytes n w)
unfolding le_bytes
le_bytes-IsBytes zero w = tt
le_bytes-IsBytes (suc n) w = (omega arith, le_bytes-IsBytes n (w / 256))

pub length-le_bytes : (n w : ℕ) → length (le_bytes n w) ≡ n
unfolding le_bytes
length-le_bytes zero w = refl
length-le_bytes (suc n) w = ap suc (length-le_bytes n (w / 256))

-- Eight bytes hold a word.
pub of_le_bytes-le_bytes : (w : ℕ) → w < 2 ^ 64 → of_le_bytes (le_bytes 8 w) ≡ w
unfolding le_bytes of_le_bytes
of_le_bytes-le_bytes w h = omega arith

pub le_bytes-of_le_bytes : (bs : List ℕ) → IsBytes bs → le_bytes (length bs) (of_le_bytes bs) ≡ bs
unfolding le_bytes of_le_bytes
le_bytes-of_le_bytes [] h = refl
le_bytes-of_le_bytes (b ∷ bs) h =
    rw (low, high) (ap (λ (t : List ℕ). b ∷ t) (le_bytes-of_le_bytes bs h.1))
  where
    low : (b + 256 * of_le_bytes bs) % 256 ≡ b
    low = omega arith

    high : (b + 256 * of_le_bytes bs) / 256 ≡ of_le_bytes bs
    high = omega arith

-- `from_le_bytes` of the bytes of an integer of four u64 words gives it back.
pub from_le_bytes-to_le_bytes : (u : Uint256) → IsWords u → from_le_bytes (to_le_bytes u) ≡ u
unfolding from_le_bytes to_le_bytes le_bytes of_le_bytes
from_le_bytes-to_le_bytes u h = ground arith

take-IsBytes : (n : ℕ) (bs : List ℕ) → IsBytes bs → IsBytes (take n bs)
take-IsBytes zero bs h = tt
take-IsBytes (suc n) [] h = tt
take-IsBytes (suc n) (b ∷ bs) h = (h.0, take-IsBytes n bs h.1)

drop-IsBytes : (n : ℕ) (bs : List ℕ) → IsBytes bs → IsBytes (drop n bs)
drop-IsBytes zero bs h = h
drop-IsBytes (suc n) [] h = h
drop-IsBytes (suc n) (b ∷ bs) h = drop-IsBytes n bs h.1

-- A chunk of eight bytes is encoded as it was decoded.
chunk :
    (bs : List ℕ) → 8 ≤ length bs → IsBytes bs → le_bytes 8 (of_le_bytes (take 8 bs)) ≡ take 8 bs
chunk bs n h = rw eight at (le_bytes-of_le_bytes (take 8 bs) (take-IsBytes 8 bs h))
  where
    eight : length (take 8 bs) ≡ 8
    eight = omega (arith, length-take 8 bs)

whole_tail : (n : ℕ) (bs : List ℕ) → length bs ≡ n → take n bs ≡ bs
whole_tail zero [] e = refl
whole_tail zero (b ∷ bs) e = absurd (omega arith)
whole_tail (suc n) [] e = absurd (omega arith)
whole_tail (suc n) (b ∷ bs) e = ap (λ (t : List ℕ). b ∷ t) (whole_tail n bs (omega arith))

chunks :
    (bs : List ℕ)
    → length bs ≡ 32
    → take 8 bs ++ (take 8 (drop 8 bs) ++ (take 8 (drop 16 bs) ++ take 8 (drop 24 bs))) ≡ bs
chunks bs n =
    rw
      (
        whole_tail 8 (drop 24 bs) (omega (arith, length-drop 24 bs)),
        ← drop-drop 8 16 bs,
        take-append-drop 8 (drop 16 bs),
        ← drop-drop 8 8 bs,
        take-append-drop 8 (drop 8 bs),
        take-append-drop 8 bs,
      )
      refl

-- `to_le_bytes` of the integer of 32 bytes gives the bytes back.
pub to_le_bytes-from_le_bytes :
    (bs : List ℕ) → length bs ≡ 32 → IsBytes bs → to_le_bytes (from_le_bytes bs) ≡ bs
unfolding to_le_bytes from_le_bytes
to_le_bytes-from_le_bytes bs n h =
    ap₂ ◌++◌ (chunk bs (omega arith) h) (
      ap₂ ◌++◌ (chunk (drop 8 bs) (omega (arith, length-drop 8 bs)) (drop-IsBytes 8 bs h)) (
        ap₂ ◌++◌ (chunk (drop 16 bs) (omega (arith, length-drop 16 bs)) (drop-IsBytes 16 bs h))
          (chunk (drop 24 bs) (omega (arith, length-drop 24 bs)) (drop-IsBytes 24 bs h))))
    ∙ chunks bs n

pub of_le_bytes-to_le_bytes : (u : Uint256) → IsWords u → of_le_bytes (to_le_bytes u) ≡ value u
unfolding of_le_bytes to_le_bytes le_bytes
of_le_bytes-to_le_bytes u h = omega arith

-- The big-endian bytes are the little-endian ones in reverse.
pub to_be_bytes-eq-reverse : (u : Uint256) → to_be_bytes u ≡ reverse (to_le_bytes u)
unfolding to_be_bytes to_le_bytes le_bytes
to_be_bytes-eq-reverse u = refl
