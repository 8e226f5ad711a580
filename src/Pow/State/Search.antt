-- ===== src/Pow/State/Search.antt =====
-- src/pow.rs: the nonces that a state accepts, and the seed that it returns.
use cryptix_miner_test.Base.{
  ℕ, List, some, suc, zero, ◌≡◌, ◌%◌, ◌+◌, ◌<◌, ◌==◌, All, All-set, Bool, Bool-cases, ◌^◌, arith,
  false, get_or, get_or-All, if◌then◌else◌, inl, inr, length-set, none, refl, set, true, ◌∙◌,
  Option-cases, subst, Option, ap, dec_lt, leb, ◌≤◌,
}
use cryptix_miner_test.Base.Rotate.{rotate_left, rotate_right, rotate_left-lt, rotate_right-lt}
use cryptix_miner_test.Base.Bits.{bit_xor-lt}
use cryptix_miner_test.Target.{Uint256, le, IsWords}
use cryptix_miner_test.Target.Value.{value}
use cryptix_miner_test.Target.Order.{le-value}
use cryptix_miner_test.Target.Bytes.{IsByte}
use cryptix_miner_test.Pow.{BlockSeed, full_block, partial_block, RpcBlockHeader, RpcBlock}
use cryptix_miner_test.Pow.Hasher.{heavy_hasher, hash_of}
use cryptix_miner_test.Pow.HeavyHash.{heavy_hash}
use cryptix_miner_test.Pow.HeavyHash.Bytes.{IsArray}
use cryptix_miner_test.Pow.State.{
  State, Hashes, Built, built, missing_header, panicked, no_matrix, Branch, tamper, tamper_times,
  run_branch, branches, rounds, calculate_pow, check_pow, found, generate_block_if_pow, state_of,
  new_state, branch_1, heavy_hash, generate, branch_2, branch_3, branch_4, branch_5,
  serialize_header, full_state, lower_hex, to_le_bytes,
}
use cryptix_miner_test.Stratum.Nonce.Partition.{IsPartition, whole_space}

set-IsArray : (bs : List ℕ) (i v : ℕ) → v < 256 → IsArray bs → IsArray (set bs i v)
set-IsArray bs i v lt (b, n) = (All-set IsByte bs i v b lt, length-set bs i v ∙ n)

get-IsByte : (bs : List ℕ) (i : ℕ) → IsArray bs → get_or bs i 0 < 256
get-IsByte bs i (b, n) = get_or-All IsByte bs i 0 b (omega arith)

turn-IsByte :
    (even : Bool) (x n : ℕ)
    → x < 256
    → (if even then rotate_left 8 x n else rotate_right 8 x n) < 256
turn-IsByte true x n lt = rotate_left-lt x n lt
turn-IsByte false x n lt = rotate_right-lt x n lt

abbrev pub IsWord : ℕ → Type 0
IsWord w = w < 2 ^ 64

tamper-IsArray :
    (b : Branch) (i : ℕ) (hash : List ℕ)
    → b.constant < 256
    → IsArray hash
    → IsArray (tamper b i hash)
unfolding tamper
tamper-IsArray b i hash c h =
    let xor_value = bit_xor-lt 8 _ b.constant (get-IsByte hash (i % 16) h) c in
    let mixed = set-IsArray hash _ _ (bit_xor-lt 8 _ _ (get-IsByte hash _ h) xor_value) h in
    let rotated = set-IsArray _ _ _ (turn-IsByte _ _ _ (get-IsByte _ _ mixed)) mixed in
    let byte = get-IsByte _ _ rotated in
    set-IsArray _ _ _ (bit_xor-lt 8 _ _ byte (rotate_left-lt _ _ byte)) rotated

tamper_times-IsArray :
    (n : ℕ) (b : Branch) (i : ℕ) (hash : List ℕ)
    → b.constant < 256
    → IsArray hash
    → IsArray (tamper_times n b i hash)
unfolding tamper_times
tamper_times-IsArray zero b i hash c h = h
tamper_times-IsArray (suc n) b i hash c h =
    tamper_times-IsArray n b i (tamper b i hash) c (tamper-IsArray b i hash c h)

branches-IsArray : (i : ℕ) (hash : List ℕ) → IsArray hash → IsArray (branches i hash)
unfolding branches run_branch
branches-IsArray i hash h =
    go (at 1 % 4 == 0) (at 3 % 3 == 0) (at 2 % 6 == 0) (at 7 % 5 == 0) (at 8 % 7 == 0)
  where
    at : ℕ → ℕ
    at k = get_or hash k 0

    run : (b : Branch) → b.constant < 256 → IsArray (run_branch b i hash)
    run b c = tamper_times-IsArray (at b.repeat_at % b.repeat_mod + 1) b i hash c h

    go :
        (p1 p2 p3 p4 p5 : Bool)
        → IsArray (
            if p1
            then run_branch branch_1 i hash
            else if p2
            then run_branch branch_2 i hash
            else if p3
            then run_branch branch_3 i hash
            else if p4
            then run_branch branch_4 i hash
            else if p5
            then run_branch branch_5 i hash
            else hash)
    go true p2 p3 p4 p5 = run branch_1 (omega arith)
    go false true p3 p4 p5 = run branch_2 (omega arith)
    go false false true p4 p5 = run branch_3 (omega arith)
    go false false false true p5 = run branch_4 (omega arith)
    go false false false false true = run branch_5 (omega arith)
    go false false false false false = h

-- When the digest gives 32 bytes, the rounds of `calculate_pow` turn 32 bytes into 32 bytes.
pub rounds-IsArray :
    (hashes : Hashes) (i n : ℕ) (hash : List ℕ)
    → ((bytes : List ℕ) → IsArray (hashes.sha3_256 bytes))
    → IsArray hash
    → IsArray (rounds hashes i n hash)
unfolding rounds
rounds-IsArray hashes i zero hash digest h = h
rounds-IsArray hashes i (suc n) hash digest h =
    rounds-IsArray hashes (suc i) n _ digest (branches-IsArray i _ (digest hash))

hash_of-IsWords : (state : List ℕ) → All IsWord state → IsWords (hash_of state)
hash_of-IsWords state h =
    let word = λ (i : ℕ). get_or-All IsWord state i 0 h (omega arith) in
    (word 0, word 1, word 2, word 3)

calculate_pow-IsWords :
    (hashes : Hashes) (self : State) (nonce : ℕ)
    → ((state : List ℕ) → All IsWord (hashes.f1600 state))
    → IsWords (calculate_pow hashes self nonce)
unfolding calculate_pow heavy_hash heavy_hasher
calculate_pow-IsWords hashes self nonce h = hash_of-IsWords (hashes.f1600 _) (h _)

le-leb : (u v : Uint256) → IsWords u → IsWords v → le u v ≡ leb (value u) (value v)
le-leb u v hu hv =
    let (to, from) = le-value u v hu hv in
    elim (Bool-cases (le u v)) [
      | inl small ↦ ground (arith, small, to small)
      | inr large ↦ elim (dec_lt (value v) (value u)) [
        | yes lt ↦ ground (arith, large, lt)
        | no ge ↦ absurd (ground (arith, large, from (omega arith)))
      ]
    ]

-- A seed with a nonce: in the header of a full block, of which the rest is as it was; in a partial
-- seed, with the digits of the hash.
unfoldable pub Carries : Hashes → BlockSeed → ℕ → Uint256 → BlockSeed → Type 0
Carries hashes (full_block block) nonce hash answer =
    (h : RpcBlockHeader)
    → block.header ≡ some h
    → answer ≡ full_block (record block { header = some (record h { nonce = nonce }) })
Carries hashes (partial_block seed) nonce hash answer =
    answer
    ≡ partial_block
        (record seed { nonce = nonce; hash = some (lower_hex hashes (to_le_bytes hash)) })

found-Carries :
    (hashes : Hashes) (self : State) (nonce : ℕ) (seed : BlockSeed)
    → Carries hashes seed nonce (calculate_pow hashes self nonce) (found hashes self nonce seed)
unfolding Carries found
found-Carries hashes self nonce (full_block block) = λ h e. rw e refl
found-Carries hashes self nonce (partial_block seed) = refl

pub generate_block_if_pow-found :
    (hashes : Hashes) (self : State) (nonce : ℕ)
    → ((state : List ℕ) → All IsWord (hashes.f1600 state))
    → IsWords self.target
    → generate_block_if_pow hashes self nonce ≡ (
        if leb (value (calculate_pow hashes self nonce)) (value self.target)
        then some (found hashes self nonce self.block)
        else none)
unfolding generate_block_if_pow check_pow
generate_block_if_pow-found hashes self nonce h w =
    ap (λ (b : Bool). if b then some (found hashes self nonce self.block) else none)
      (le-leb (calculate_pow hashes self nonce) self.target
        (calculate_pow-IsWords hashes self nonce h) w)

-- When the permutation gives words: a nonce whose hash is at most the target, as numbers, gives
-- the seed of the state with that nonce written in it, and any other nonce gives nothing.
pub generate_block_if_pow_lem :
    (hashes : Hashes) (self : State) (nonce : ℕ)
    → ((state : List ℕ) → All IsWord (hashes.f1600 state))
    → IsWords self.target
    → let hash = calculate_pow hashes self nonce in
      (value hash ≤ value self.target
        → (answer : BlockSeed) × (generate_block_if_pow hashes self nonce ≡ some answer)
          × Carries hashes self.block nonce hash answer)
      × (value self.target < value hash → generate_block_if_pow hashes self nonce ≡ none)
generate_block_if_pow_lem hashes self nonce h w = (
  λ small. (
    found hashes self nonce self.block,
    generate_block_if_pow-found hashes self nonce h w ∙ tested true (ground (arith, small)),
    found-Carries hashes self nonce self.block,
  ),
  λ large. generate_block_if_pow-found hashes self nonce h w ∙ tested false (ground (arith, large)),
)
  where
    tested :
        (b : Bool)
        → leb (value (calculate_pow hashes self nonce)) (value self.target) ≡ b
        → ◌≡◌ {A = Option BlockSeed}
            (if leb (value (calculate_pow hashes self nonce)) (value self.target)
              then some (found hashes self nonce self.block)
              else none)
            (if b then some (found hashes self nonce self.block) else none)
    tested b e = ap (λ (c : Bool). if c then some (found hashes self nonce self.block) else none) e

-- The parts of a seed that the rest of the program goes by: the work that is searched, its target
-- and its nonces are those of the seed; a partial seed is searched in its own partition and a full
-- block in the whole space.
pub record BuiltFrom (id : ℕ) (seed : BlockSeed) (s : State) : Type 0 where
  pub id_is : s.id ≡ id
  pub block_is : s.block ≡ seed
  pub partition_is : IsPartition s.nonce_mask s.nonce_fixed

Holds : ℕ → BlockSeed → Built → Type 0
Holds id seed (built s) = BuiltFrom id seed s
Holds id seed missing_header = Unit
Holds id seed panicked = Unit
Holds id seed no_matrix = Unit

state_of-Holds :
    (hashes : Hashes) (id : ℕ) (seed : BlockSeed) (hash : Uint256) (t : ℕ) (target : Uint256)
    (mask fixed : ℕ)
    → IsPartition mask fixed
    → Holds id seed (state_of hashes id seed hash t target mask fixed)
unfolding Holds state_of
state_of-Holds hashes id seed hash t target mask fixed p =
    elim (Option-cases (generate hashes.compute_rank hashes.fuel hash)) [
      | inl e ↦ rw (state_of, e) tt
      | inr (matrix, e) ↦
          rw (state_of, e) (record { id_is = refl; block_is = refl; partition_is = p })
    ]

full_state-Holds :
    (hashes : Hashes) (id : ℕ) (block : RpcBlock) (header : RpcBlockHeader)
    → Holds id (full_block block) (full_state hashes id block header)
unfolding full_state
full_state-Holds hashes id block header = elim (Option-cases (serialize_header header true)) [
  | inl e ↦ rw (full_state, e) (unfold Holds in tt)
  | inr (bytes, e) ↦ rw (full_state, e) (state_of-Holds hashes id _ _ _ _ _ _ whole_space)
]

full_block-Holds :
    (hashes : Hashes) (id : ℕ) (block : RpcBlock)
    → Holds id (full_block block) (new_state hashes id (full_block block))
unfolding new_state
full_block-Holds hashes id block = go block.header
  where
    go :
        (h : Option RpcBlockHeader)
        → Holds id
            (full_block block)
            (elim h [ none ↦ missing_header | some header ↦ full_state hashes id block header ])
    go none = unfold Holds in tt
    go (some header) = full_state-Holds hashes id block header

-- A partial seed comes with the partition that the client set up; a full block has none.
abbrev pub SeedPartition : BlockSeed → Type 0
SeedPartition (full_block block) = Unit
SeedPartition (partial_block seed) = IsPartition seed.nonce_mask seed.nonce_fixed

seed-Holds :
    (hashes : Hashes) (id : ℕ) (seed : BlockSeed)
    → SeedPartition seed
    → Holds id seed (new_state hashes id seed)
unfolding new_state
seed-Holds hashes id (full_block block) p = full_block-Holds hashes id block
seed-Holds hashes id (partial_block seed) p =
    state_of-Holds hashes id (partial_block seed) _ _ _ _ _ p

-- A state that `State::new` returns has the seed and the id that it was given, and a partition
-- of the nonces: the seed's own, or the whole space for a full block.
pub new_state-BuiltFrom :
    (hashes : Hashes) (id : ℕ) (seed : BlockSeed) (s : State)
    → SeedPartition seed
    → new_state hashes id seed ≡ built s
    → BuiltFrom id seed s
unfolding Holds
new_state-BuiltFrom hashes id seed s p e = subst (Holds id seed) e (seed-Holds hashes id seed p)
