-- ===== src/Header/Hex.antt =====
-- src/pow.rs: `decode_to_slice` against an encoder.
use cryptix_miner_test.Base.{
  ◌%◌, ◌*◌, ◌+◌, ◌-◌, ◌/◌, ◌<◌, List, [], arith, bit_or, get_or, if◌then◌else◌, length, ltb, refl,
  ℕ, ◌∙◌, ◌∷◌, ◌≡◌, ◌≢◌, ◌==◌, ==_iff, ap, dec_lt, false, inl, inr, suc, true, ℕ_discrete, ◌⊎◌,
}
use cryptix_miner_test.Base.Bits.{bit_or_fields}
use cryptix_miner_test.Header.Decode.{
  FromHexError, odd_length, invalid_string_length, invalid_hex_character, Decoded, ok, err, val,
  ◌>>=◌, decode_pairs, decode_to_slice,
}
use cryptix_miner_test.Target.Bytes.{IsBytes}

-- The lower-case digit of a number below 16.
abbrev pub hex_char : ℕ → ℕ
hex_char d = if ltb d 10 then d + b'0' else d - 10 + b'a'

abbrev pub encode : List ℕ → List ℕ
encode [] = []
encode (b ∷ bs) = hex_char (b / 16) ∷ hex_char (b % 16) ∷ encode bs

val-hex_char : (d idx : ℕ) → d < 16 → val (hex_char d) idx ≡ ok d
unfolding val
val-hex_char d idx h = ground arith

length-encode : (bs : List ℕ) → length (encode bs) ≡ 2 * length bs
length-encode [] = refl
length-encode (b ∷ bs) = omega (arith, length-encode bs)

decode_pairs-encode : (bs : List ℕ) (idx : ℕ) → IsBytes bs → decode_pairs idx (encode bs) ≡ ok bs
unfolding decode_pairs
decode_pairs-encode [] idx h = refl
decode_pairs-encode (b ∷ bs) idx h =
    rw
      (
        val-hex_char (b / 16) idx (omega arith),
        val-hex_char (b % 16) (idx + 1) (omega arith),
        decode_pairs-encode bs (idx + 2) h.1,
        joined,
      )
      refl
  where
    joined : bit_or (b / 16 * 16) (b % 16) ≡ b
    joined = bit_or_fields 4 (b / 16) (b % 16) (omega arith) ∙ (omega arith)

-- `decode_to_slice` of the hexadecimal text of some bytes, into as many bytes, gives them back.
pub decode-encode : (bs : List ℕ) → IsBytes bs → decode_to_slice (encode bs) (length bs) ≡ ok bs
unfolding decode_to_slice
decode-encode bs h = ground (arith, length-encode bs, decode_pairs-encode bs 0 h)

-- What the decoder may answer for a text and a size.
abbrev pub Answers : List ℕ → ℕ → Decoded (List ℕ) → Type 0
Answers text size (ok bytes) = (length text ≡ 2 * size) × (length bytes ≡ size) × IsBytes bytes
Answers text size (err odd_length) = length text % 2 ≡ 1
Answers text size (err invalid_string_length) = (length text % 2 ≡ 0) × (length text ≢ 2 * size)
Answers text size (err (invalid_hex_character c index)) =
    (length text ≡ 2 * size)
    × (index < length text)
    × (get_or text index 0 ≡ c)
    × (val c index ≡ err (invalid_hex_character c index))

val-lt : (c idx : ℕ) {d : ℕ} → val c idx ≡ ok d → d < 16
unfolding val
val-lt c idx h = ground arith

val_error : (c idx : ℕ) {e : FromHexError} → val c idx ≡ err e → e ≡ invalid_hex_character c idx
unfolding val
val_error c idx h = ground arith

abbrev Pairs : ℕ → List ℕ → Decoded (List ℕ) → Type 0
Pairs idx text (ok bytes) = (length text ≡ 2 * length bytes) × IsBytes bytes
Pairs idx text (err odd_length) = ⊥
Pairs idx text (err invalid_string_length) = ⊥
Pairs idx text (err (invalid_hex_character c index)) =
    (k : ℕ) × (index ≡ idx + k)
    × (k < length text)
    × (get_or text k 0 ≡ c)
    × (val c index ≡ err (invalid_hex_character c index))

byte_of_digits : (hi lo : ℕ) → hi < 16 → lo < 16 → bit_or (hi * 16) lo < 256
byte_of_digits hi lo p q = omega (arith, bit_or_fields 4 hi lo q)

Decoded-cases :
    {A : Type 0} (r : Decoded A) → ((a : A) × (r ≡ ok a)) ⊎ ((e : FromHexError) × (r ≡ err e))
Decoded-cases (ok a) = inl (a, refl)
Decoded-cases (err e) = inr (e, refl)

Pairs-cons :
    (idx c d hi lo : ℕ) (rest : List ℕ) (r : Decoded (List ℕ))
    → hi < 16
    → lo < 16
    → Pairs (idx + 2) rest r
    → Pairs idx (c ∷ d ∷ rest) (r >>= λ bytes. ok (bit_or (hi * 16) lo ∷ bytes))
Pairs-cons idx c d hi lo rest (ok bytes) p q (n, b) = (omega arith, (byte_of_digits hi lo p q, b))
Pairs-cons idx c d hi lo rest (err odd_length) p q h = h
Pairs-cons idx c d hi lo rest (err invalid_string_length) p q h = h
Pairs-cons idx c d hi lo rest (err (invalid_hex_character x index)) p q (k, e, lt, at_k, bad) =
    (suc (suc k), omega arith, omega arith, at_k, bad)

decode_pairs-Pairs :
    (text : List ℕ) (idx : ℕ) → length text % 2 ≡ 0 → Pairs idx text (decode_pairs idx text)
unfolding decode_pairs
decode_pairs-Pairs [] idx h = (refl, tt)
decode_pairs-Pairs (c ∷ []) idx h = absurd (omega arith)
decode_pairs-Pairs (c ∷ d ∷ rest) idx h = elim (Decoded-cases (val c idx)) [
  | inr (e, q) ↦
      rw (q, val_error c idx q) (0, omega arith, omega arith, refl, q ∙ ap err (val_error c idx q))
  | inl (hi, q) ↦ elim (Decoded-cases (val d (idx + 1))) [
    | inr (e, q') ↦
        rw (q, q', val_error d (idx + 1) q')
          (1, omega arith, omega arith, refl, q' ∙ ap err (val_error d (idx + 1) q'))
    | inl (lo, q') ↦
        rw (q, q')
          (Pairs-cons idx c d hi lo rest (decode_pairs (idx + 2) rest) (val-lt c idx q)
            (val-lt d (idx + 1) q') (decode_pairs-Pairs rest (idx + 2) (omega arith)))
  ]
]

Answers-Pairs :
    (text : List ℕ) (size : ℕ) (r : Decoded (List ℕ))
    → length text ≡ 2 * size
    → Pairs 0 text r
    → Answers text size r
Answers-Pairs text size (ok bytes) n p = (n, omega arith, p.1)
Answers-Pairs text size (err odd_length) n p = absurd p
Answers-Pairs text size (err invalid_string_length) n p = absurd p
Answers-Pairs text size (err (invalid_hex_character c index)) n (k, e, lt, at_k, bad) =
    (n, omega arith, rw at_index at_k, bad)
  where
    at_index : index ≡ k
    at_index = omega arith

-- Every answer of the decoder is right: bytes only for a text of twice their number, the errors
-- on the length exactly for those lengths, and a character error names a character of the text,
-- at its index, that is no digit.
pub decode-Answers : (text : List ℕ) (size : ℕ) → Answers text size (decode_to_slice text size)
unfolding decode_to_slice
decode-Answers text size = elim (dec_lt (length text % 2) 1) [
  | no odd ↦ rw (is_odd (omega arith)) (omega arith)
  | yes even ↦ elim (ℕ_discrete (length text / 2) size) [
    | no ne ↦ rw (is_even (omega arith), differs ne) (omega arith, λ e. ne (omega arith))
    | yes e ↦
        rw (is_even (omega arith), (==_iff (length text / 2) size).1 e)
          (Answers-Pairs text size _ (omega arith) (decode_pairs-Pairs text 0 (omega arith)))
  ]
]
  where
    is_odd : length text % 2 ≡ 1 → (length text % 2 == 0) ≡ false
    is_odd h = ground arith

    is_even : length text % 2 ≡ 0 → (length text % 2 == 0) ≡ true
    is_even h = ground arith

    differs : length text / 2 ≢ size → (length text / 2 == size) ≡ false
    differs h = ground arith
