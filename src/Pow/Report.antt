-- ===== src/Pow/Report.antt =====
-- src/cryptixd_messages.rs and src/pow.rs: the hash of a block, and the report of one that was
-- found. The hash function of the header hasher of src/pow/hasher.rs is a parameter, and a panic
-- is `none`.
use cryptix_miner_test.Base.{
  Bool, List, Option, arith, false, if◌then◌else◌, none, some, true, ℕ, ◌≡◌, ap, refl, subst, ◌∙◌,
}
use cryptix_miner_test.Base.Fallible.{◌>>=◌, some_injective}
use cryptix_miner_test.Target.{Uint256, from_le_bytes}
use cryptix_miner_test.Header.{RpcBlockHeader, serialize_header}
use cryptix_miner_test.Header.Layout.{IsWellFormed, serialize_header-Written}
use cryptix_miner_test.Pow.{BlockSeed, RpcBlock, full_block, partial_block}
use cryptix_miner_test.Pow.State.{Hashes, State, check_pow, found, generate_block_if_pow}
use cryptix_miner_test.Pow.State.New.{IsReadable}

-- `HeaderHasher::finalize`, on what was written.
unfoldable pub finalize : (List ℕ → List ℕ) → List ℕ → Uint256
finalize blake2b written = from_le_bytes (blake2b written)

-- `block_hash`: a block without a header has none, which is the inner option.
unfoldable pub block_hash : (List ℕ → List ℕ) → RpcBlock → Option (Option Uint256)
unfolding finalize
block_hash blake2b block = elim block.header [
  | none ↦ some none
  | some header ↦ do bytes ← serialize_header header false; some (some (finalize blake2b bytes))
]

-- What `report_block` logs.
pub data Report : Type 0 where
  found_block : Uint256 → ℕ → Report
  found_share : Report

abbrev expect : Option (Option Uint256) → Option Uint256
expect none = none
expect (some none) = none
expect (some (some h)) = some h

-- `report_block`
unfoldable pub report_block : (List ℕ → List ℕ) → BlockSeed → Option Report
unfolding block_hash
report_block blake2b (partial_block seed) = some found_share
report_block blake2b (full_block block) = do
  hash ← expect (block_hash blake2b block)
  header ← block.header
  some (found_block hash header.timestamp)

-- The header of a block that was found.
abbrev pub mined_header : RpcBlockHeader → ℕ → RpcBlockHeader
mined_header h nonce = record h { nonce = nonce }

mined_header-IsWellFormed :
    (h : RpcBlockHeader) (nonce : ℕ) → IsWellFormed h → IsWellFormed (mined_header h nonce)
mined_header-IsWellFormed h nonce w = record {
  version_fits = w.version_fits;
  parents_are = w.parents_are;
  merkle_root_is = w.merkle_root_is;
  accepted_root_is = w.accepted_root_is;
  utxo_is = w.utxo_is;
  blue_work_is = w.blue_work_is;
  pruning_is = w.pruning_is;
}

-- What is to be reported of a seed and the nonce found for it.
unfoldable pub Reports : (List ℕ → List ℕ) → BlockSeed → ℕ → Report → Type 0
Reports blake2b (partial_block seed) nonce r = r ≡ found_share
Reports blake2b (full_block block) nonce r =
    (h : RpcBlockHeader) × (bytes : List ℕ) × (block.header ≡ some h)
    × (serialize_header (mined_header h nonce) false ≡ some bytes)
    × (r ≡ found_block (finalize blake2b bytes) h.timestamp)

-- The report of a full block with a header that can be written.
report_full :
    (blake2b : List ℕ → List ℕ) (header : RpcBlockHeader) (bytes : List ℕ)
    → serialize_header header false ≡ some bytes
    → report_block blake2b (full_block (record { header = some header }))
      ≡ some (found_block (finalize blake2b bytes) header.timestamp)
unfolding report_block
report_full blake2b header bytes e = rw (report_block, e) refl

found-Reports :
    (hashes : Hashes) (s : State) (nonce : ℕ) (seed : BlockSeed)
    → IsReadable seed
    → (r : Report) × (report_block hashes.blake2b (found hashes s nonce seed) ≡ some r)
      × Reports hashes.blake2b seed nonce r
unfolding found Reports
found-Reports hashes s nonce (partial_block seed) t =
    (found_share, (unfold report_block in refl), refl)
found-Reports hashes s nonce (full_block block) (h, has, well_formed) =
    let w =
      serialize_header-Written (mined_header h nonce) false
        (mined_header-IsWellFormed h nonce well_formed) in
    (
      found_block (finalize hashes.blake2b w.bytes) h.timestamp,
      ap (λ (o : Option RpcBlockHeader). report_block hashes.blake2b (full_block (mined o))) has
          ∙ report_full hashes.blake2b (mined_header h nonce) w.bytes w.returns,
      (h, w.bytes, has, w.returns, refl),
    )
  where
    mined : Option RpcBlockHeader → RpcBlock
    mined o = elim o [
      | some header ↦ record { header = some (mined_header header nonce) }
      | none ↦ record { header = none }
    ]

-- A block that the search finds for a seed of a pool, or for a block with a well-formed header, is
-- reported without a panic: a share as such, and a full block with its time and with the hash of
-- what its header is written to with the nonce found.
pub report_block-Reports :
    (hashes : Hashes) (s : State) (nonce : ℕ) (b : BlockSeed)
    → IsReadable s.block
    → generate_block_if_pow hashes s nonce ≡ some b
    → (r : Report) × (report_block hashes.blake2b b ≡ some r)
      × Reports hashes.blake2b s.block nonce r
unfolding generate_block_if_pow
report_block-Reports hashes s nonce b readable e = go (check_pow hashes s nonce) e
  where
    Reported : BlockSeed → Type 0
    Reported x =
        (r : Report) × (report_block hashes.blake2b x ≡ some r)
        × Reports hashes.blake2b s.block nonce r

    go :
        (x : Bool) → (if x then some (found hashes s nonce s.block) else none) ≡ some b → Reported b
    go false e = absurd (ground (arith, e))
    go true e = subst Reported (some_injective e) (found-Reports hashes s nonce s.block readable)
