-- ===== src/Stratum/Session/Conserved.antt =====
-- src/client/stratum.rs: the task that sends the shares and the task that listens to the pool
-- share the pending ones. Each step of a conversation is one of theirs, in any order.
use cryptix_miner_test.Base.{
  ◌+◌, ◌<◌, ◌==◌, Bool, List, Option, Option-cases, ◌^◌, ap, arith, false, if◌then◌else◌, inl, inr,
  none, refl, some, subst, sym, true, ℕ, ◌∙◌, ◌≡◌, ◌≤◌, [], suc, ◌∷◌, ◌++◌, zero,
}
use cryptix_miner_test.Pow.{PartialBlock, partial_block}
use cryptix_miner_test.Stratum.{ShareStats, StratumHandler, Reply, done, failed, panicked}
use cryptix_miner_test.Stratum.Codec.{ErrorCode, StratumLine}
use cryptix_miner_test.Stratum.Shares.{accept, lookup, reject, submit, insert}
use cryptix_miner_test.Stratum.Shares.Accounting.{
  IsMap, Settled, accept_lem, accounted, is_counted, lookup-remove_other, reject_lem, reject_panics,
  remove-IsMap, remove-none, lookup-remove,
}
use cryptix_miner_test.Stratum.Session.{Environment, handle_message}

pub data Event : Type 0 where
  share : PartialBlock → Event
  line : StratumLine → Event

-- No share waits under an id that is still to be given.
pub record Sound (h : StratumHandler) : Type 0 where
  pub is_map : IsMap h.shares_stats.shares_pending
  pub unused : (k : ℕ) → h.last_stratum_id ≤ k → lookup k h.shares_stats.shares_pending ≡ none

-- A handler after a step that sent a number of shares.
pub record Conserved (h : StratumHandler) (sent : ℕ) (h' : StratumHandler) : Type 0 where
  pub sound : Sound h'
  pub on_record : accounted h'.shares_stats ≡ accounted h.shares_stats + sent
  pub ids : h'.last_stratum_id ≡ h.last_stratum_id + sent

-- A step that leaves the shares alone.
pub record Untouched (h h' : StratumHandler) : Type 0 where
  pub stats : h'.shares_stats ≡ h.shares_stats
  pub id : h'.last_stratum_id ≡ h.last_stratum_id

pub Untouched-Conserved : {h h' : StratumHandler} → Sound h → Untouched h h' → Conserved h 0 h'
Untouched-Conserved {h} {h'} s u = record {
  sound = record {
    is_map = subst (λ (x : ShareStats). IsMap x.shares_pending) (sym u.stats) s.is_map;
    unused = λ k le.
        ap (λ (x : ShareStats). lookup k x.shares_pending) u.stats
        ∙ s.unused k (omega (arith, u.id));
  };
  on_record = ap accounted_of u.stats ∙ omega arith;
  ids = u.id ∙ omega arith;
}
  where
    accounted_of : ShareStats → ℕ
    accounted_of x = accounted x

Settled-Conserved :
    {h h' : StratumHandler} (id : ℕ)
    → Sound h
    → Settled id h.shares_stats.shares_pending h'.shares_stats.shares_pending
    → accounted h'.shares_stats ≡ accounted h.shares_stats
    → h'.last_stratum_id ≡ h.last_stratum_id
    → Conserved h 0 h'
Settled-Conserved {h} {h'} id s t same ids = record {
  sound = record {
    is_map = t.still_map;
    unused = λ k le. t.answers k ∙ drop_none (k == id) (s.unused k (omega (arith, ids)));
  };
  on_record = omega (arith, same);
  ids = omega (arith, ids);
}
  where
    drop_none : {x : Option (List ℕ)} (b : Bool) → x ≡ none → (if b then none else x) ≡ none
    drop_none true e = refl
    drop_none false e = e

-- One step: a share that the miner found, or a line of the pool.
unfoldable pub step :
    (env : Environment) → StratumHandler → env.Miner → Event → StratumHandler × env.Miner × Reply
step env h m (share seed) = elim (submit h (partial_block seed)) [
  | none ↦ (h, m, panicked)
  | some (h', sent_line) ↦ (h', m, done)
]
step env h m (line msg) = handle_message env h m msg

-- The steps one after the other, until one fails.
unfoldable pub converse :
    (env : Environment)
    → StratumHandler
    → env.Miner
    → List Event
    → StratumHandler × env.Miner × Reply
converse env h m [] = (h, m, done)
converse env h m (event ∷ rest) =
    let (h', m', r) = step env h m event in
    let more = converse env h' m' rest in
    elim r [ done ↦ more | failed ↦ (h', m', failed) | panicked ↦ (h', m', panicked) ]

-- The line that a share is sent in.
unfoldable pub sent_by : StratumHandler → Event → List StratumLine
sent_by h (share seed) = elim (submit h (partial_block seed)) [
  | none ↦ []
  | some (h', sent_line) ↦ sent_line ∷ []
]
sent_by h (line msg) = []

abbrev pub while_done : Reply → List StratumLine → List StratumLine
while_done done lines = lines
while_done failed lines = []
while_done panicked lines = []

-- The lines of the shares that a conversation sends, in their order.
unfoldable pub lines_sent :
    (env : Environment) → StratumHandler → env.Miner → List Event → List StratumLine
lines_sent env h m [] = []
lines_sent env h m (event ∷ rest) =
    let (h', m', r) = step env h m event in
    let more = lines_sent env h' m' rest in sent_by h event ++ while_done r more

-- The ids of n lines, from k on.
unfoldable pub ids_from : ℕ → ℕ → List (Option ℕ)
ids_from k zero = []
ids_from k (suc n) = some k ∷ ids_from (k + 1) n

-- The shares among some events.
unfoldable pub shares_of : List Event → ℕ
shares_of [] = 0
shares_of (share seed ∷ rest) = suc (shares_of rest)
shares_of (line msg ∷ rest) = shares_of rest

-- A new entry under an id that is not in use.
insert-Sound :
    (h h' : StratumHandler) (job : List ℕ)
    → Sound h
    → h'.last_stratum_id ≡ h.last_stratum_id + 1
    → h'.shares_stats.shares_pending ≡ insert h.last_stratum_id job h.shares_stats.shares_pending
    → Sound h'
unfolding lookup insert
insert-Sound h h' job s ids e =
    let k = h.last_stratum_id in
    let m = h.shares_stats.shares_pending in
    record {
      is_map =
          subst IsMap (sym e)
            (unfold IsMap insert in (lookup-remove k m, remove-IsMap k m s.is_map));
      unused = λ j le.
          ap (lookup j) e
          ∙ other (k == j) (ground (arith, ids, le))
          ∙ lookup-remove_other j k m (omega (arith, ids))
          ∙ s.unused j (omega (arith, ids));
    }
  where
    other : {x : Option (List ℕ)} (b : Bool) → b ≡ false → (if b then some job else x) ≡ x
    other true e = absurd (ground (arith, e))
    other false e = refl

pub submit-Conserved :
    (env : Environment) (h : StratumHandler) (m : env.Miner) (seed : PartialBlock)
    → Sound h
    → h.last_stratum_id + 1 < 2 ^ 32
    → Conserved h 1 (step env h m (share seed)).0
unfolding step submit
submit-Conserved env h m seed s lt = record {
  sound = insert-Sound h _ seed.id s (omega arith) refl;
  on_record =
      unfold insert in
      rw (remove-none h.last_stratum_id h.shares_stats.shares_pending (s.unused _ (omega arith)))
        (omega arith);
  ids = omega arith;
}

accept-last_stratum_id :
    (h : StratumHandler) (id : ℕ) → (accept h id).0.last_stratum_id ≡ h.last_stratum_id
unfolding accept
accept-last_stratum_id h id = elim (Option-cases (lookup id h.shares_stats.shares_pending)) [
  | inl e ↦ rw (accept, e) refl
  | inr (job, e) ↦ rw (accept, e) refl
]

reject-last_stratum_id :
    (h : StratumHandler) (id : ℕ) (code : ErrorCode)
    → (reject h id code).0.last_stratum_id ≡ h.last_stratum_id
unfolding reject
reject-last_stratum_id h id code = elim (Option-cases (lookup id h.shares_stats.shares_pending)) [
  | inl e ↦ rw (reject, e) refl
  | inr (job, e) ↦ rw (reject, e) refl
]

pub accept-Conserved :
    (h : StratumHandler) (id : ℕ)
    → Sound h
    → accounted h.shares_stats + 1 < 2 ^ 64
    → Conserved h 0 (accept h id).0
unfolding accept
accept-Conserved h id s lt = elim (Option-cases (lookup id h.shares_stats.shares_pending)) [
  | inl e ↦ rw (accept, e) (Untouched-Conserved s (record { stats = refl; id = refl }))
  | inr (job, e) ↦
      let (reply, settled, same, counted) = accept_lem h id job s.is_map e (omega arith) in
      Settled-Conserved id s settled same (accept-last_stratum_id h id)
]

pub reject-Conserved :
    (h : StratumHandler) (id : ℕ) (code : ErrorCode)
    → Sound h
    → accounted h.shares_stats + 1 < 2 ^ 64
    → (reject h id code).1 ≡ done
    → Conserved h 0 (reject h id code).0
unfolding reject
reject-Conserved h id code s lt ok = elim (Option-cases (lookup id h.shares_stats.shares_pending)) [
  | inl e ↦ let p = (reject_panics h id code).1 e in absurd (ground (arith, ok, p))
  | inr (job, e) ↦
      let (settled, reply, same) = reject_lem h id job code s.is_map e (omega arith) in
      Settled-Conserved id s settled (counted (is_counted code) (sym reply ∙ ok) same)
        (reject-last_stratum_id h id code)
]
  where
    counted :
        {n k : ℕ} (b : Bool)
        → (if b then done else failed) ≡ done
        → n + (if b then 0 else 1) ≡ k
        → n ≡ k
    counted true e same = omega (arith, same)
    counted false e same = absurd (ground (arith, e))
