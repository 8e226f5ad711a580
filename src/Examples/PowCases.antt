-- ===== src/Examples/PowCases.antt =====
-- The proof of work at concrete inputs. The hashes of other crates are stood in for by functions
-- of the right shape.
use cryptix_miner_test.Base.{ℕ, List, [], arith, none, replicate, some, ◌∷◌, ◌≡◌, ◌<◌, ◌≤◌}
use cryptix_miner_test.Target.{Uint256}
use cryptix_miner_test.Target.Value.{value}
use cryptix_miner_test.Pow.{PartialBlock, partial_block, BlockSeed}
use cryptix_miner_test.Pow.Hasher.{pow_initial_state, pow_hasher, finalize_with_nonce, hash_of, mix}
use cryptix_miner_test.Pow.Hasher.Absorb.{message, message_words, finalize_with_nonce-absorbs}
use cryptix_miner_test.Pow.State.{State, Hashes, calculate_pow, generate_block_if_pow}
use cryptix_miner_test.Pow.State.Search.{generate_block_if_pow_lem, Carries}

abbrev small_hash : Uint256
small_hash = record { w0 = 42; w1 = 43; w2 = 44; w3 = 45 }

abbrev same_state : List ℕ → List ℕ
same_state s = s

finalize_with_nonce-absorbs_example :
    finalize_with_nonce same_state (pow_hasher small_hash 5435345234) 432432432
    ≡ hash_of (
        same_state
          (mix (message_words 10 (message small_hash 5435345234 432432432)) pow_initial_state))
finalize_with_nonce-absorbs_example =
    finalize_with_nonce-absorbs same_state small_hash 5435345234 432432432 (omega arith)
      (omega arith) (omega arith)

abbrev row : List ℕ
row = replicate 64 13

abbrev full_rank : List (List ℕ) → ℕ
full_rank mat = 64

abbrev digest : List ℕ → List ℕ
digest bytes = replicate 32 0x3c

abbrev words : List ℕ → List ℕ
words state = pow_initial_state

abbrev pub hashes : Hashes
hashes = record {
  blake2b = digest;
  sha3_256 = digest;
  blake3 = digest;
  f1600 = words;
  compute_rank = full_rank;
  fuel = 1;
}

abbrev seed : PartialBlock
seed = record {
  id = b'1' ∷ [];
  header_hash = small_hash;
  timestamp = 5435345234;
  nonce = 0;
  target = small_hash;
  nonce_mask = 0xffff;
  nonce_fixed = 0x70000;
  hash = none;
}

abbrev pub work : State
work = record {
  id = 1;
  matrix = replicate 64 row;
  target = small_hash;
  pow_hash_header = [];
  block = partial_block seed;
  hasher = pow_initial_state;
  nonce_mask = 0xffff;
  nonce_fixed = 0x70000;
}

generate_block_if_pow_lem_example :
    let hash = calculate_pow hashes work 0x70001 in
    (value hash ≤ value small_hash
      → (answer : BlockSeed) × (generate_block_if_pow hashes work 0x70001 ≡ some answer)
        × Carries hashes (partial_block seed) 0x70001 hash answer)
    × (value small_hash < value hash → generate_block_if_pow hashes work 0x70001 ≡ none)
generate_block_if_pow_lem_example =
    generate_block_if_pow_lem hashes work 0x70001 (λ state. omega arith) (omega arith)
