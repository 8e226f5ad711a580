-- ===== src/Header/Decode.antt =====
-- src/pow.rs: `decode_to_slice`, the decoder of hexadecimal texts.
use cryptix_miner_test.Base.{
  ◌%◌, ◌&&◌, ◌*◌, ◌+◌, ◌-◌, ◌/◌, ◌==◌, List, [], bit_or, if◌then◌else◌, leb, length, not, ℕ, ◌∷◌,
}

pub data FromHexError : Type 0 where
  odd_length : FromHexError
  invalid_string_length : FromHexError
  invalid_hex_character : (c index : ℕ) → FromHexError

pub data Decoded (A : Type 0) : Type 0 where
  ok : A → Decoded A
  err : FromHexError → Decoded A

infixl 5 ◌>>=◌
abbrev pub ◌>>=◌ : {A B : Type 0} → Decoded A → (A → Decoded B) → Decoded B
ok a >>= f = f a
err e >>= f = err e

-- `val`
unfoldable pub val : ℕ → ℕ → Decoded ℕ
val c idx =
    if leb b'A' c && leb c b'F'
    then ok (c - b'A' + 10)
    else if leb b'a' c && leb c b'f'
    then ok (c - b'a' + 10)
    else if leb b'0' c && leb c b'9'
    then ok (c - b'0')
    else err (invalid_hex_character c idx)

-- The loop over the bytes of `out`, at the character `2 * i` of the text.
unfoldable pub decode_pairs : ℕ → List ℕ → Decoded (List ℕ)
unfolding val
decode_pairs at_index [] = ok []
decode_pairs at_index (c ∷ []) = ok []
decode_pairs at_index (c ∷ d ∷ rest) = do
  hi ← val c at_index
  lo ← val d (at_index + 1)
  bytes ← decode_pairs (at_index + 2) rest
  ok (bit_or (hi * 16) lo ∷ bytes)

-- `decode_to_slice(text, out)` for an `out` of the given length: the bytes that are left in it.
unfoldable pub decode_to_slice : List ℕ → ℕ → Decoded (List ℕ)
unfolding decode_pairs
decode_to_slice text size =
    if not (length text % 2 == 0)
    then err odd_length
    else if not (length text / 2 == size)
    then err invalid_string_length
    else decode_pairs 0 text
