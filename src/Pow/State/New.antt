-- ===== src/Pow/State/New.antt =====
-- src/pow.rs: when `State::new` gives a state.
use cryptix_miner_test.Base.{
  ◌<◌, ◌==◌, List, false, length, some, true, ℕ, ◌≡◌, ◌++◌, ◌-◌, Option, ◌^◌, ap, none, refl,
  replicate, sym, ◌∙◌,
}
use cryptix_miner_test.Target.{
  Uint256, from_le_bytes, le_bytes, to_le_bytes, u256_from_compact_target,
}
use cryptix_miner_test.Pow.Hasher.{pow_hasher}
use cryptix_miner_test.Header.{RpcBlockHeader, serialize_header}
use cryptix_miner_test.Header.Layout.{IsWellFormed, serialize_header-Written}
use cryptix_miner_test.Pow.{BlockSeed, full_block, partial_block}
use cryptix_miner_test.Pow.Xoshiro.{xoshiro}
use cryptix_miner_test.Pow.Matrix.{generate}
use cryptix_miner_test.Pow.Matrix.Nibbles.{IsMatrix, generate_loop-first, nth_matrix}
use cryptix_miner_test.Pow.State.{
  Built, Hashes, State, built, full_state, missing_header, new_state, state_of,
}

-- From the generator that a hash seeds, a matrix of full rank comes within the fuel.
pub record Finds (hashes : Hashes) (hash : Uint256) : Type 0 where
  pub place : ℕ
  pub within : place < hashes.fuel
  pub none_before :
      (j : ℕ) → j < place → (hashes.compute_rank (nth_matrix j (xoshiro hash)) == 64) ≡ false
  pub full : (hashes.compute_rank (nth_matrix place (xoshiro hash)) == 64) ≡ true

-- The generator of a seed's own hash finds its matrix: the hash of a pool, or that of the header.
unfoldable pub FindsFor : Hashes → BlockSeed → Type 0
FindsFor hashes (full_block block) =
    (h : RpcBlockHeader)
    → block.header ≡ some h
    → (bytes : List ℕ) → serialize_header h true ≡ some bytes
    → Finds hashes (from_le_bytes (hashes.blake2b bytes))
FindsFor hashes (partial_block seed) = Finds hashes seed.header_hash

-- A seed of a pool, or a block with a well-formed header.
abbrev pub IsReadable : BlockSeed → Type 0
IsReadable (full_block block) = (h : RpcBlockHeader) × (block.header ≡ some h) × IsWellFormed h
IsReadable (partial_block seed) = Unit

abbrev header_target : Option RpcBlockHeader → Option Uint256
header_target none = none
header_target (some h) = some (u256_from_compact_target h.bits)

-- The target that a seed comes with.
unfoldable pub target_of : BlockSeed → Option Uint256
target_of (full_block block) = header_target block.header
target_of (partial_block seed) = some seed.target

-- What a GPU and the search need of a state.
pub record IsReady (s : State) : Type 0 where
  pub matrix_is : IsMatrix s.matrix
  pub header_length : length s.pow_hash_header ≡ 72

module _ (hashes : Hashes) where
  generate-some :
      (hash : Uint256)
      → Finds hashes hash
      → (matrix : List (List ℕ)) × (generate hashes.compute_rank hashes.fuel hash ≡ some matrix)
        × IsMatrix matrix
  unfolding generate
  generate-some hash finds =
      let (found, is) =
        generate_loop-first hashes.compute_rank finds.place hashes.fuel (xoshiro hash) finds.within
          finds.none_before finds.full in
      (nth_matrix finds.place (xoshiro hash), found, is)

  state_of-IsReady :
      (id : ℕ) (seed : BlockSeed) (hash : Uint256) (timestamp : ℕ) (target : Uint256)
      (mask fixed : ℕ)
      → Finds hashes hash
      → (s : State) × (state_of hashes id seed hash timestamp target mask fixed ≡ built s)
        × IsReady s
        × (s.target ≡ target)
  unfolding state_of
  state_of-IsReady id seed hash timestamp target mask fixed finds =
      let (matrix, found, is) = generate-some hash finds in
      (
        record {
          id = id;
          matrix = matrix;
          target = target;
          pow_hash_header = to_le_bytes hash ++ (le_bytes 8 timestamp ++ replicate 32 0);
          block = seed;
          hasher = pow_hasher hash timestamp;
          nonce_mask = mask;
          nonce_fixed = fixed;
        },
        rw (state_of, found) refl,
        record { matrix_is = is; header_length = unfold to_le_bytes le_bytes in refl },
        refl,
      )

  -- When the generator of the seed's hash finds a matrix of full rank within the fuel: `State::new` gives a state
  -- for a seed of a pool and for a block with a well-formed header. Its matrix has 64 rows of 64
  -- nibbles, the header that a GPU gets has its 72 bytes, and the target is the seed's own or
  -- that of the header's bits.
  pub new_state-IsReady :
      (id : ℕ) (seed : BlockSeed)
      → FindsFor hashes seed
      → IsReadable seed
      → (s : State) × (new_state hashes id seed ≡ built s)
        × IsReady s
        × (some s.target ≡ target_of seed)
  unfolding new_state full_state target_of FindsFor
  new_state-IsReady id (full_block block) finds (h, has, well_formed) =
      let w = serialize_header-Written h true well_formed in
      let (s, is, ready, target) =
        state_of-IsReady id (full_block block) (from_le_bytes (hashes.blake2b w.bytes)) h.timestamp
          (u256_from_compact_target h.bits) (2 ^ 64 - 1) 0 (finds h has w.bytes w.returns) in
      (
        s,
        ap from_header has ∙ serialized h w.bytes w.returns ∙ is,
        ready,
        ap some target ∙ sym (ap (λ (o : Option RpcBlockHeader). header_target o) has),
      )
    where
      from_header : Option RpcBlockHeader → Built
      from_header header = elim header [
        | none ↦ missing_header
        | some h ↦ full_state hashes id block h
      ]

      serialized :
          (h : RpcBlockHeader) (bytes : List ℕ)
          → serialize_header h true ≡ some bytes
          → full_state hashes id block h
            ≡ state_of hashes id
                (full_block block)
                (from_le_bytes (hashes.blake2b bytes))
                h.timestamp
                (u256_from_compact_target h.bits)
                (2 ^ 64 - 1)
                0
      serialized h bytes e = rw (full_state, e) refl
  new_state-IsReady id (partial_block seed) finds t =
      let (s, is, ready, target) =
        state_of-IsReady id (partial_block seed) seed.header_hash seed.timestamp seed.target
          seed.nonce_mask seed.nonce_fixed finds in
      (s, is, ready, ap some target)
