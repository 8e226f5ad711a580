-- ===== src/Pow/Hasher.antt =====
-- src/pow/hasher.rs: the two Keccak hashers, whose permutation `keccak::f1600` is a parameter.
pub mod Absorb
use cryptix_miner_test.Base.{List, [], bit_xor, get_or, set, ℕ, ◌∷◌}
use cryptix_miner_test.Target.{Uint256}

-- `PowHasher::INITIAL_STATE` and `HeavyHasher::INITIAL_STATE`
abbrev pub pow_initial_state : List ℕ
pow_initial_state =
    1242148031264380989 ∷ 3008272977830772284 ∷ 2188519011337848018 ∷ 1992179434288343456
    ∷ 8876506674959887717 ∷ 5399642050693751366 ∷ 1745875063082670864 ∷ 8605242046444978844
    ∷ 17936695144567157056 ∷ 3343109343542796272 ∷ 1123092876221303306 ∷ 4963925045340115282
    ∷ 17037383077651887893 ∷ 16629644495023626889 ∷ 12833675776649114147 ∷ 3784524041015224902
    ∷ 1082795874807940378 ∷ 13952716920571277634 ∷ 13411128033953605860 ∷ 15060696040649351053
    ∷ 9928834659948351306 ∷ 5237849264682708699 ∷ 12825353012139217522 ∷ 6706187291358897596
    ∷ 196324915476054915 ∷ []

abbrev pub heavy_initial_state : List ℕ
heavy_initial_state =
    4239941492252378377 ∷ 8746723911537738262 ∷ 8796936657246353646 ∷ 1272090201925444760
    ∷ 16654558671554924250 ∷ 8270816933120786537 ∷ 13907396207649043898 ∷ 6782861118970774626
    ∷ 9239690602118867528 ∷ 11582319943599406348 ∷ 17596056728278508070 ∷ 15212962468105129023
    ∷ 7812475424661425213 ∷ 3370482334374859748 ∷ 5690099369266491460 ∷ 8596393687355028144
    ∷ 570094237299545110 ∷ 9119540418498120711 ∷ 16901969272480492857 ∷ 13372017233735502424
    ∷ 14372891883993151831 ∷ 5171152063242093102 ∷ 10573107899694386186 ∷ 6096431547456407061
    ∷ 1592359455985097269 ∷ []

abbrev pub words : Uint256 → List ℕ
words h = h.w0 ∷ h.w1 ∷ h.w2 ∷ h.w3 ∷ []

-- `pre_pow_hash.0.iter().zip(start.iter_mut())`, each word mixed into the state's.
unfoldable pub mix : List ℕ → List ℕ → List ℕ
mix [] state = state
mix (w ∷ ws) [] = []
mix (w ∷ ws) (s ∷ state) = bit_xor s w ∷ mix ws state

abbrev pub mix_at : ℕ → ℕ → List ℕ → List ℕ
mix_at i w state = set state i (bit_xor (get_or state i 0) w)

-- `Hash::new(state[..4])`
abbrev pub hash_of : List ℕ → Uint256
hash_of state = record {
  w0 = get_or state 0 0;
  w1 = get_or state 1 0;
  w2 = get_or state 2 0;
  w3 = get_or state 3 0;
}

-- `PowHasher::new`
unfoldable pub pow_hasher : Uint256 → ℕ → List ℕ
pow_hasher pre_pow_hash timestamp = mix_at 4 timestamp (mix (words pre_pow_hash) pow_initial_state)

module _ (f1600 : List ℕ → List ℕ) where
  -- `PowHasher::finalize_with_nonce`
  unfoldable pub finalize_with_nonce : List ℕ → ℕ → Uint256
  finalize_with_nonce self nonce = hash_of (f1600 (mix_at 9 nonce self))

  -- `HeavyHasher::hash`
  unfoldable pub heavy_hasher : Uint256 → Uint256
  heavy_hasher in_hash = hash_of (f1600 (mix (words in_hash) heavy_initial_state))
