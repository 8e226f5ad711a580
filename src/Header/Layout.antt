-- ===== src/Header/Layout.antt =====
-- src/pow.rs: which headers `serialize_header` accepts, and how many bytes it writes.
use cryptix_miner_test.Base.{
  ◌%◌, ◌*◌, ◌+◌, ◌++◌, ◌-◌, ◌/◌, ◌<◌, ◌==◌, All, All-append, Bool-cases, List, Option, [], ◌^◌,
  arith, false, get_or, inl, inr, length, length-append, ltb, refl, some, suc, zero, ℕ, ◌∷◌, ◌≡◌,
  ◌≤◌, ◌⊎◌, Bool, if◌then◌else◌, lt→ltb, true, ◌∙◌,
}
use cryptix_miner_test.Target.{le_bytes}
use cryptix_miner_test.Target.Bytes.{IsBytes, le_bytes-IsBytes, length-le_bytes}
use cryptix_miner_test.Header.{
  RpcBlockHeader, unwrap, parent_hashes, all_parents, blue_work_bytes, serialize_header,
}
use cryptix_miner_test.Header.Decode.{
  Decoded, ok, err, odd_length, invalid_string_length, invalid_hex_character, val, decode_to_slice,
}
use cryptix_miner_test.Header.Hex.{Answers, decode-Answers}

abbrev pub IsHexDigit : ℕ → Type 0
IsHexDigit c = ((b'0' ≤ c) × (c ≤ b'9')) ⊎ ((b'a' ≤ c) × (c ≤ b'f')) ⊎ ((b'A' ≤ c) × (c ≤ b'F'))

-- The text of a 32-byte hash.
abbrev pub IsHash : List ℕ → Type 0
IsHash text = All IsHexDigit text × (length text ≡ 64)

pub record IsWellFormed (h : RpcBlockHeader) : Type 0 where
  pub version_fits : h.version < 2 ^ 16
  pub parents_are : All (All IsHash) h.parents
  pub merkle_root_is : IsHash h.hash_merkle_root
  pub accepted_root_is : IsHash h.accepted_id_merkle_root
  pub utxo_is : IsHash h.utxo_commitment
  pub blue_work_is : All IsHexDigit h.blue_work × (length h.blue_work ≤ 64)
  pub pruning_is : IsHash h.pruning_point

-- The bytes written, when there are `size` of them.
pub record Written (size : ℕ) (r : Option (List ℕ)) : Type 0 where
  pub bytes : List ℕ
  pub returns : r ≡ some bytes
  pub count : length bytes ≡ size
  pub are_bytes : IsBytes bytes

digit_decodes : (c idx : ℕ) → IsHexDigit c → (d : ℕ) × (val c idx ≡ ok d)
unfolding val
digit_decodes c idx (inl h) = (c - b'0', ground arith)
digit_decodes c idx (inr (inl h)) = (c - b'a' + 10, ground arith)
digit_decodes c idx (inr (inr h)) = (c - b'A' + 10, ground arith)

element :
    (text : List ℕ) (i : ℕ) → All IsHexDigit text → i < length text → IsHexDigit (get_or text i 0)
element [] i h lt = absurd (omega arith)
element (c ∷ cs) zero h lt = h.0
element (c ∷ cs) (suc i) h lt = element cs i h.1 (omega arith)

Answers-Written :
    (text : List ℕ) (size : ℕ) (r : Decoded (List ℕ))
    → Answers text size r
    → All IsHexDigit text
    → length text ≡ 2 * size
    → Written size (unwrap r)
Answers-Written text size (ok bytes) (n, m, b) h e = record {
  bytes = bytes;
  returns = refl;
  count = m;
  are_bytes = b;
}
Answers-Written text size (err odd_length) a h e = absurd (omega arith)
Answers-Written text size (err invalid_string_length) a h e = absurd (a.1 e)
Answers-Written text size (err (invalid_hex_character c index)) (n, lt, at_index, bad) h e =
    let (d, good) = digit_decodes c index (rw at_index at (element text index h lt)) in cc

decode-Written :
    (text : List ℕ) (size : ℕ)
    → All IsHexDigit text
    → length text ≡ 2 * size
    → Written size (unwrap (decode_to_slice text size))
decode-Written text size h e =
    Answers-Written text size (decode_to_slice text size) (decode-Answers text size) h e

-- So many bytes.
record Sized (size : ℕ) (bytes : List ℕ) : Type 0 where
  count : length bytes ≡ size
  are_bytes : IsBytes bytes

sized : {n : ℕ} {r : Option (List ℕ)} (w : Written n r) → Sized n w.bytes
sized w = record { count = w.count; are_bytes = w.are_bytes }

infixr 65 ◌then_bytes◌
◌then_bytes◌ : {m n : ℕ} {a b : List ℕ} → Sized m a → Sized n b → Sized (m + n) (a ++ b)
◌then_bytes◌ {a} {b} s t = record {
  count = omega (arith, length-append a b, s.count, t.count);
  are_bytes = All-append _ a b s.are_bytes t.are_bytes;
}

le_bytes-Sized : (n w : ℕ) → Sized n (le_bytes n w)
le_bytes-Sized n w = record { count = length-le_bytes n w; are_bytes = le_bytes-IsBytes n w }

parent_hashes-Written :
    (level : List (List ℕ)) → All IsHash level → Written (32 * length level) (parent_hashes level)
unfolding parent_hashes
parent_hashes-Written [] h = record { bytes = []; returns = refl; count = refl; are_bytes = tt }
parent_hashes-Written (text ∷ rest) (h, hs) =
    let w = decode-Written text 32 h.0 h.1 in
    let w' = parent_hashes-Written rest hs in
    let s = sized w then_bytes sized w' in
    record {
      bytes = w.bytes ++ w'.bytes;
      returns = rw (w.returns, w'.returns) refl;
      count = omega (arith, s.count);
      are_bytes = s.are_bytes;
    }

abbrev pub parents_size : List (List (List ℕ)) → ℕ
parents_size [] = 0
parents_size (level ∷ levels) = 8 + 32 * length level + parents_size levels

all_parents-Written :
    (levels : List (List (List ℕ)))
    → All (All IsHash) levels
    → Written (parents_size levels) (all_parents levels)
unfolding all_parents
all_parents-Written [] h = record { bytes = []; returns = refl; count = refl; are_bytes = tt }
all_parents-Written (level ∷ levels) (h, hs) =
    let w = parent_hashes-Written level h in
    let w' = all_parents-Written levels hs in
    let s = le_bytes-Sized 8 (length level) then_bytes sized w then_bytes sized w' in
    record {
      bytes = le_bytes 8 (length level) ++ (w.bytes ++ w'.bytes);
      returns = rw (w.returns, w'.returns) refl;
      count = omega (arith, s.count);
      are_bytes = s.are_bytes;
    }

blue_work_bytes-Written :
    (text : List ℕ)
    → All IsHexDigit text
    → length text ≤ 64
    → Written ((length text + 1) / 2) (blue_work_bytes text)
unfolding blue_work_bytes
blue_work_bytes-Written text h n = elim (Bool-cases (length text % 2 == 0)) [
  | inl even ↦ rw (even, fits) (decode-Written text ((length text + 1) / 2) h (ground arith))
  | inr odd ↦
      rw (odd, fits)
        (decode-Written (b'0' ∷ text) ((length text + 1) / 2) (inl (omega arith), h) (ground arith))
]
  where
    fits : ltb 32 ((length text + 1) / 2) ≡ false
    fits = ground arith

-- The number of bytes of a serialized header.
abbrev pub header_size : RpcBlockHeader → ℕ
header_size h = 182 + parents_size h.parents + (length h.blue_work + 1) / 2

-- A well-formed header is serialized without a panic, for the pre-proof hash or not, into as many
-- bytes as its parts take.
pub serialize_header-Written :
    (h : RpcBlockHeader) (for_pre_pow : Bool)
    → IsWellFormed h
    → Written (header_size h) (serialize_header h for_pre_pow)
unfolding serialize_header
serialize_header-Written h b wf =
    let parents = all_parents-Written h.parents wf.parents_are in
    let merkle = decode-Written h.hash_merkle_root 32 wf.merkle_root_is.0 wf.merkle_root_is.1 in
    let accepted =
      decode-Written h.accepted_id_merkle_root 32 wf.accepted_root_is.0 wf.accepted_root_is.1 in
    let utxo = decode-Written h.utxo_commitment 32 wf.utxo_is.0 wf.utxo_is.1 in
    let work = blue_work_bytes-Written h.blue_work wf.blue_work_is.0 wf.blue_work_is.1 in
    let pruning = decode-Written h.pruning_point 32 wf.pruning_is.0 wf.pruning_is.1 in
    let s =
      le_bytes-Sized 2 h.version
      then_bytes le_bytes-Sized 8 (length h.parents)
      then_bytes sized parents
      then_bytes sized merkle
      then_bytes sized accepted
      then_bytes sized utxo
      then_bytes le_bytes-Sized 8 (if b then 0 else h.timestamp)
      then_bytes le_bytes-Sized 4 h.bits
      then_bytes le_bytes-Sized 8 (if b then 0 else h.nonce)
      then_bytes le_bytes-Sized 8 h.daa_score
      then_bytes le_bytes-Sized 8 h.blue_score
      then_bytes le_bytes-Sized 8 (length work.bytes)
      then_bytes sized work
      then_bytes sized pruning in
    record {
      bytes = _;
      returns =
          rw
            (
              lt→ltb h.version (2 ^ 16) wf.version_fits,
              parents.returns,
              merkle.returns,
              accepted.returns,
              utxo.returns,
              work.returns,
              pruning.returns,
            )
            refl;
      count = s.count ∙ (omega arith);
      are_bytes = s.are_bytes;
    }

-- The bytes that the pre-proof hash is taken of depend on neither the nonce nor the timestamp, so
-- mining does not change the hash that it mines on.
pub serialize_header_pre_pow :
    (h : RpcBlockHeader) (nonce timestamp : ℕ)
    → serialize_header (record h { nonce = nonce; timestamp = timestamp }) true
      ≡ serialize_header h true
unfolding serialize_header
serialize_header_pre_pow h nonce timestamp = refl
