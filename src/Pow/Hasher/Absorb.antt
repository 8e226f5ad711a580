-- ===== src/Pow/Hasher/Absorb.antt =====
-- What the hasher's state holds: the message of 80 bytes that a nonce completes.
use cryptix_miner_test.Base.{
  ℕ, ◌++◌, ◌<◌, List, [], ◌^◌, drop, refl, replicate, suc, take, zero, ◌∷◌, ◌≡◌, arith,
}
use cryptix_miner_test.Target.{Uint256, IsWords, le_bytes, of_le_bytes, to_le_bytes}
use cryptix_miner_test.Pow.Hasher.{
  words, mix, hash_of, pow_initial_state, pow_hasher, finalize_with_nonce,
}

-- The words of a message, eight bytes each.
unfoldable pub message_words : ℕ → List ℕ → List ℕ
message_words zero bytes = []
message_words (suc n) bytes = of_le_bytes (take 8 bytes) ∷ message_words n (drop 8 bytes)

-- PRE_POW_HASH || TIME || 32 zero bytes || NONCE
abbrev pub message : Uint256 → ℕ → ℕ → List ℕ
message h t n = to_le_bytes h ++ (le_bytes 8 t ++ (replicate 32 0 ++ le_bytes 8 n))

words_of_message :
    (h : Uint256) (t n : ℕ)
    → IsWords h
    → t < 2 ^ 64
    → n < 2 ^ 64
    → message_words 10 (message h t n) ≡ words h ++ (t ∷ 0 ∷ 0 ∷ 0 ∷ 0 ∷ n ∷ [])
unfolding message_words le_bytes of_le_bytes to_le_bytes
words_of_message h t n (lt0, lt1, lt2, lt3) lt lt' = ground arith

-- For u64 words, setting the state up with the hash and the time, and mixing the nonce in, is the
-- permutation of the initial state with the whole message mixed in.
pub finalize_with_nonce-absorbs :
    (f1600 : List ℕ → List ℕ) (h : Uint256) (t n : ℕ)
    → IsWords h
    → t < 2 ^ 64
    → n < 2 ^ 64
    → finalize_with_nonce f1600 (pow_hasher h t) n
      ≡ hash_of (f1600 (mix (message_words 10 (message h t n)) pow_initial_state))
unfolding finalize_with_nonce pow_hasher mix
finalize_with_nonce-absorbs f1600 h t n w lt lt' = rw (words_of_message h t n w lt lt') refl
