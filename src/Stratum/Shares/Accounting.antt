-- ===== src/Stratum/Shares/Accounting.antt =====
-- src/client/stratum.rs: what an answer does to the pending shares and to the counters.
use cryptix_miner_test.Base.{
  List, [], arith, none, refl, ℕ, ◌∷◌, ◌≡◌, ◌≢◌, ◌+◌, ◌==◌, false, length, some, subst, true, ◌∙◌,
  ◌<◌, Bool, Bool-cases, ◌^◌, if◌then◌else◌, inl, inr, ◌↔◌, Option, ap,
}
use cryptix_miner_test.Pow.{PartialBlock, partial_block}
use cryptix_miner_test.Stratum.{ShareStats, StratumHandler, done, failed, panicked}
use cryptix_miner_test.Stratum.Codec.{
  ErrorCode, unknown, job_not_found, duplicate_share, low_difficulty_share, unauthorized,
  not_subscribed, StratumLine,
}
use cryptix_miner_test.Stratum.Shares.{lookup, remove, insert, submit, accept, count_error, reject}

-- A map has one entry for a key.
unfoldable pub IsMap : List (ℕ × List ℕ) → Type 0
IsMap [] = Unit
IsMap ((j, v) ∷ m) = (lookup j m ≡ none) × IsMap m

pub lookup-remove : (k : ℕ) (m : List (ℕ × List ℕ)) → lookup k (remove k m) ≡ none
unfolding lookup remove
lookup-remove k [] = refl
lookup-remove k ((j, v) ∷ m) = ground (arith, lookup-remove k m)

pub lookup-remove_other :
    (i k : ℕ) (m : List (ℕ × List ℕ)) → i ≢ k → lookup i (remove k m) ≡ lookup i m
unfolding lookup remove
lookup-remove_other i k [] ne = refl
lookup-remove_other i k ((j, v) ∷ m) ne = ground (arith, lookup-remove_other i k m ne)

pub remove-none : (k : ℕ) (m : List (ℕ × List ℕ)) → lookup k m ≡ none → remove k m ≡ m
unfolding lookup remove
remove-none k [] e = refl
remove-none k ((j, v) ∷ m) e = ground (arith, remove-none k m)

pub remove-IsMap : (k : ℕ) (m : List (ℕ × List ℕ)) → IsMap m → IsMap (remove k m)
unfolding remove IsMap
remove-IsMap k [] i = tt
remove-IsMap k ((j, v) ∷ m) (fresh, i) = elim (Bool-cases (j == k)) [
  | inl e ↦ rw e (remove-IsMap k m i)
  | inr ne ↦ rw ne (lookup-remove_other j k m (ground (arith, ne)) ∙ fresh, remove-IsMap k m i)
]

pub length-remove :
    (k : ℕ) (m : List (ℕ × List ℕ)) {job : List ℕ}
    → IsMap m
    → lookup k m ≡ some job
    → length (remove k m) + 1 ≡ length m
unfolding lookup remove IsMap
length-remove k [] i e = ground arith
length-remove k ((j, v) ∷ m) {job} (fresh, i) e = elim (Bool-cases (j == k)) [
  | inl same ↦
      let absent : lookup k m ≡ none =
        subst (λ (x : ℕ). lookup x m ≡ none) (ground (arith, same)) fresh in
      rw (same, remove-none k m absent) (omega arith)
  | inr ne ↦
      let later = subst (λ (b : Bool). (if b then some v else lookup k m) ≡ some job) ne e in
      rw ne (omega (arith, length-remove k m i later))
]

-- The shares that are on record: those that wait for an answer and those that were counted.
abbrev pub accounted : ShareStats → ℕ
accounted s = length s.shares_pending + (s.accepted + (s.stale + (s.low_diff + s.duplicate)))

-- When the next id is not pending, a share is sent: it is pending under that id afterwards, the
-- pending shares still have one entry for an id, and one more share is on record.
pub submit_lem :
    (h : StratumHandler) (seed : PartialBlock)
    → IsMap h.shares_stats.shares_pending
    → lookup h.last_stratum_id h.shares_stats.shares_pending ≡ none
    → (h' : StratumHandler) × (line : StratumLine) × (submit h (partial_block seed)
        ≡ some (h', line))
      × (lookup h.last_stratum_id h'.shares_stats.shares_pending ≡ some seed.id)
      × IsMap h'.shares_stats.shares_pending
      × (accounted h'.shares_stats ≡ accounted h.shares_stats + 1)
unfolding submit insert
submit_lem h seed i fresh =
    let k = h.last_stratum_id in
    let m = h.shares_stats.shares_pending in
    let same = remove-none k m fresh in
    (
      _,
      _,
      refl,
      (unfold lookup in ground arith),
      (unfold IsMap in (lookup-remove k m, remove-IsMap k m i)),
      rw same (omega arith),
    )

-- What a settled share leaves: its id is free again, and the other ids wait as before.
pub record Settled (id : ℕ) (before after : List (ℕ × List ℕ)) : Type 0 where
  pub still_map : IsMap after
  pub answers : (k : ℕ) → lookup k after ≡ (if k == id then none else lookup k before)

removed-Settled : (id : ℕ) (m : List (ℕ × List ℕ)) → IsMap m → Settled id m (remove id m)
removed-Settled id m i = record { still_map = remove-IsMap id m i; answers = answers }
  where
    answers : (k : ℕ) → lookup k (remove id m) ≡ (if k == id then none else lookup k m)
    answers k = elim (Bool-cases (k == id)) [
      | inl same ↦
          rw same
            (ap (λ (x : ℕ). lookup x (remove id m)) (ground (arith, same)) ∙ lookup-remove id m)
      | inr other ↦ rw other (lookup-remove_other k id m (ground (arith, other)))
    ]

-- When the counter has room, an answer that accepts a pending share takes it off the pending ones,
-- counts it as accepted, and leaves the number of shares on record and the other ids as they were.
pub accept_lem :
    (h : StratumHandler) (id : ℕ) (job : List ℕ)
    → IsMap h.shares_stats.shares_pending
    → lookup id h.shares_stats.shares_pending ≡ some job
    → h.shares_stats.accepted + 1 < 2 ^ 64
    → let h' = (accept h id).0 in
      ((accept h id).1 ≡ done)
      × Settled id h.shares_stats.shares_pending h'.shares_stats.shares_pending
      × (accounted h'.shares_stats ≡ accounted h.shares_stats)
      × (h'.shares_stats.accepted ≡ h.shares_stats.accepted + 1)
unfolding accept
accept_lem h id job i e lt =
    let m = h.shares_stats.shares_pending in
    rw (accept, e)
      (refl, removed-Settled id m i, omega (arith, length-remove id m i e), omega arith)

-- The codes that a pool may answer a share with.
unfoldable pub is_counted : ErrorCode → Bool
is_counted unknown = false
is_counted job_not_found = true
is_counted duplicate_share = true
is_counted low_difficulty_share = true
is_counted unauthorized = false
is_counted not_subscribed = false

abbrev HasRoom : ShareStats → Type 0
HasRoom s = (s.stale + 1 < 2 ^ 64) × (s.duplicate + 1 < 2 ^ 64) × (s.low_diff + 1 < 2 ^ 64)

-- When the counters have room, an answer that refuses a pending share takes it off the pending ones
-- and leaves the other ids. The codes of a share count it and go on; the other codes fail, and the
-- share is on record no more.
pub reject_lem :
    (h : StratumHandler) (id : ℕ) (job : List ℕ) (code : ErrorCode)
    → IsMap h.shares_stats.shares_pending
    → lookup id h.shares_stats.shares_pending ≡ some job
    → HasRoom h.shares_stats
    → let h' = (reject h id code).0 in
      Settled id h.shares_stats.shares_pending h'.shares_stats.shares_pending
      × ((reject h id code).1 ≡ (if is_counted code then done else failed))
      × (accounted h'.shares_stats + (if is_counted code then 0 else 1) ≡ accounted h.shares_stats)
unfolding reject count_error is_counted
reject_lem h id job code i e (stale, duplicate, low_diff) = rw (reject, e) (go code)
  where
    m : List (ℕ × List ℕ)
    m = h.shares_stats.shares_pending

    s : ShareStats
    s = record h.shares_stats { shares_pending = remove id m }

    go :
        (c : ErrorCode)
        → Settled id m (count_error c s).0.shares_pending
          × ((count_error c s).1 ≡ (if is_counted c then done else failed))
          × ◌≡◌ {A = ℕ}
              (accounted (count_error c s).0 + (if is_counted c then 0 else 1))
              (accounted h.shares_stats)
    go unknown = (removed-Settled id m i, refl, omega (arith, length-remove id m i e))
    go job_not_found = (removed-Settled id m i, refl, omega (arith, length-remove id m i e))
    go duplicate_share = (removed-Settled id m i, refl, omega (arith, length-remove id m i e))
    go low_difficulty_share = (removed-Settled id m i, refl, omega (arith, length-remove id m i e))
    go unauthorized = (removed-Settled id m i, refl, omega (arith, length-remove id m i e))
    go not_subscribed = (removed-Settled id m i, refl, omega (arith, length-remove id m i e))

-- While no other task holds the lock, the task panics on an answer with an error exactly when the
-- answer's id is not that of a pending share.
pub reject_panics :
    (h : StratumHandler) (id : ℕ) (code : ErrorCode)
    → ((reject h id code).1 ≡ panicked) ↔ (lookup id h.shares_stats.shares_pending ≡ none)
unfolding reject count_error
reject_panics h id code = go (lookup id h.shares_stats.shares_pending) refl
  where
    settles : (c : ErrorCode) (s : ShareStats) → (count_error c s).1 ≢ panicked
    settles unknown s e = ground (arith, e)
    settles job_not_found s e = ground (arith, e)
    settles duplicate_share s e = ground (arith, e)
    settles low_difficulty_share s e = ground (arith, e)
    settles unauthorized s e = ground (arith, e)
    settles not_subscribed s e = ground (arith, e)

    go :
        (o : Option (List ℕ))
        → lookup id h.shares_stats.shares_pending ≡ o
        → ((reject h id code).1 ≡ panicked) ↔ (lookup id h.shares_stats.shares_pending ≡ none)
    go none e = rw (reject, e) (λ _. refl, λ _. refl)
    go (some job) e =
        rw (reject, e) ((λ p. absurd (settles code _ p)), (λ p. absurd (ground (arith, p))))
