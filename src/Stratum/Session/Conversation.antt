-- ===== src/Stratum/Session/Conversation.antt =====
-- src/client/stratum.rs: the shares over a whole conversation with the pool.
use cryptix_miner_test.Base.{
  Bool, List, ℕ, ◌%◌, ◌+◌, ◌/◌, ◌<◌, ◌==◌, Bool-cases, Option, Option-cases, [], ◌^◌, arith, false,
  inl, inr, length, none, refl, some, true, ◌∷◌, ◌≡◌, ◌≤◌, ◌++◌, ap, map, ◌∙◌,
}
use cryptix_miner_test.Stratum.{StratumHandler, Reply, done, failed, panicked}
use cryptix_miner_test.Stratum.Codec
use cryptix_miner_test.Stratum.Codec.{
  Reciprocal, StratumLine, StratumError, StratumCommand, StratumResult, plain, eth, subscribed,
  stratum_command, stratum_result, authorize, subscribe, set_extranonce_plain,
  set_extranonce_plain_eth, mining_set_difficulty, mining_notify, mining_submit,
  mining_notify_short, mining_notify_header_hex, mining_notify_long,
}
use cryptix_miner_test.Stratum.Nonce.{
  partition, set_extranonce, set_extranonce_eth, size_bytes_of, without_prefix,
}
use cryptix_miner_test.Stratum.Difficulty.{set_difficulty, target_of, install, Stored}
use cryptix_miner_test.Stratum.Shares.Accounting.{accounted}
use cryptix_miner_test.Stratum.Session.{
  Environment, dispatch, handle_command, handle_message, handle_result, hex32_to_u64x4,
}
use cryptix_miner_test.Stratum.Shares.{submit}
use cryptix_miner_test.Stratum.Session.Conserved.{
  sent_by, lines_sent, ids_from, while_done, Conserved, Event, Sound, Untouched, accept-Conserved,
  converse, line, reject-Conserved, share, shares_of, step, submit-Conserved, Untouched-Conserved,
  sent_by, lines_sent, ids_from, while_done,
}

install-Untouched : (h : StratumHandler) (s : Stored) → Untouched h (install h s).0
unfolding install
install-Untouched h (Stored.stored target) = record { stats = refl; id = refl }
install-Untouched h Stored.too_big = record { stats = refl; id = refl }
install-Untouched h Stored.aborted = record { stats = refl; id = refl }

set_difficulty-Untouched :
    (checks : Bool) (h : StratumHandler) (d : Reciprocal)
    → Untouched h (set_difficulty checks h d).0
unfolding set_difficulty
set_difficulty-Untouched checks h d = install-Untouched h (target_of checks d)

partition-Untouched :
    (h : StratumHandler) (extranonce : List ℕ) (shift : ℕ) (val : Option ℕ)
    → Untouched h (partition (record h { extranonce = some extranonce }) shift val).0
unfolding partition
partition-Untouched h extranonce shift none = record { stats = refl; id = refl }
partition-Untouched h extranonce shift (some val) = record { stats = refl; id = refl }

set_extranonce-Untouched :
    (h : StratumHandler) (text : List ℕ) (size : ℕ) → Untouched h (set_extranonce h text size).0
unfolding set_extranonce
set_extranonce-Untouched h text size =
    elim (Bool-cases (size_bytes_of (without_prefix text) size == 0)) [
      | inl e ↦ rw (set_extranonce, e) (record { stats = refl; id = refl })
      | inr e ↦ rw (set_extranonce, e) (partition-Untouched h _ _ _)
    ]

set_extranonce_eth-Untouched :
    (h : StratumHandler) (text : List ℕ) → Untouched h (set_extranonce_eth h text).0
unfolding set_extranonce_eth
set_extranonce_eth-Untouched h text =
    elim (Bool-cases ((length (without_prefix text) + 1) / 2 % 2 ^ 32 == 0)) [
      | inl e ↦ rw (set_extranonce_eth, e) (record { stats = refl; id = refl })
      | inr e ↦ rw (set_extranonce_eth, e) (partition-Untouched h _ _ _)
    ]

module _ (env : Environment) where
  same-Untouched : (h : StratumHandler) → Untouched h h
  same-Untouched h = record { stats = refl; id = refl }

  handle_command-Untouched :
      (h : StratumHandler) (m : env.Miner) (c : StratumCommand)
      → Untouched h (handle_command env h m c).0
  unfolding handle_command
  handle_command-Untouched h m (Codec.set_extranonce (set_extranonce_plain extranonce size)) =
      set_extranonce-Untouched h extranonce size
  handle_command-Untouched h m (Codec.set_extranonce (set_extranonce_plain_eth extranonce)) =
      set_extranonce_eth-Untouched h extranonce
  handle_command-Untouched h m (mining_set_difficulty d) =
      set_difficulty-Untouched env.overflow_checks h d
  handle_command-Untouched h m (mining_notify (mining_notify_short id h0 h1 h2 h3 timestamp)) =
      record { stats = refl; id = refl }
  handle_command-Untouched h m (mining_notify (mining_notify_header_hex id header_hex timestamp)) =
      elim (Option-cases (hex32_to_u64x4 env header_hex)) [
        | inl e ↦ rw (handle_command, e) (record { stats = refl; id = refl })
        | inr (header_hash, e) ↦ rw (handle_command, e) (record { stats = refl; id = refl })
      ]
  handle_command-Untouched h m (mining_notify (mining_notify_long a b c d branch e f g clean)) =
      same-Untouched h
  handle_command-Untouched h m (subscribe s) = same-Untouched h
  handle_command-Untouched h m (authorize a b) = same-Untouched h
  handle_command-Untouched h m (mining_submit s) = same-Untouched h

  -- The counters have room, and the step goes on.
  module _ (h : StratumHandler) (m : env.Miner) (s : Sound h)
      (lt : accounted h.shares_stats + 1 < 2 ^ 64) where
    handle_result-Conserved :
        (id : ℕ) (r : StratumResult) → Conserved h 0 (handle_result env h m id r).0
    unfolding handle_result
    handle_result-Conserved id (plain (some true)) = accept-Conserved h id s lt
    handle_result-Conserved id (plain (some false)) = Untouched-Conserved s (same-Untouched h)
    handle_result-Conserved id (plain none) = Untouched-Conserved s (same-Untouched h)
    handle_result-Conserved id (eth true message) = accept-Conserved h id s lt
    handle_result-Conserved id (eth false message) = Untouched-Conserved s (same-Untouched h)
    handle_result-Conserved id (subscribed subscriptions extranonce nonce_size) =
        Untouched-Conserved s (set_extranonce-Untouched h extranonce nonce_size)

    dispatch-Conserved :
        (id : Option ℕ) (payload : Codec.StratumLinePayload) (error : Option StratumError)
        → (dispatch env h m id payload error).2 ≡ done
        → Conserved h 0 (dispatch env h m id payload error).0
    unfolding dispatch
    dispatch-Conserved (some id) (stratum_result r) none ok = handle_result-Conserved id r
    dispatch-Conserved none (stratum_result r) none ok = Untouched-Conserved s (same-Untouched h)
    dispatch-Conserved id (stratum_command c) none ok =
        Untouched-Conserved s (handle_command-Untouched h m c)
    dispatch-Conserved (some id) (stratum_result r) (some e) ok =
        reject-Conserved h id e.error_code s lt ok
    dispatch-Conserved none (stratum_result r) (some e) ok =
        Untouched-Conserved s (same-Untouched h)
    dispatch-Conserved id (stratum_command c) (some e) ok = Untouched-Conserved s (same-Untouched h)

  -- Where a conversation stands after a step with a reply.
  abbrev next_of :
      StratumHandler
      → env.Miner
      → StratumHandler × env.Miner × Reply
      → Reply
      → StratumHandler × env.Miner × Reply
  next_of h m x done = x
  next_of h m x failed = (h, m, failed)
  next_of h m x panicked = (h, m, panicked)

  step-Conserved :
      (h : StratumHandler) (m : env.Miner) (event : Event)
      → Sound h
      → h.last_stratum_id + 1 < 2 ^ 32
      → accounted h.shares_stats + 1 < 2 ^ 64
      → (step env h m event).2 ≡ done
      → Conserved h (shares_of (event ∷ [])) (step env h m event).0
  unfolding step shares_of handle_message
  step-Conserved h m (share seed) s ids room ok = submit-Conserved env h m seed s ids
  step-Conserved h m (line msg) s ids room ok =
      dispatch-Conserved h m s room msg.id msg.payload msg.error ok

  together-Conserved :
      (h h' h'' : StratumHandler) (event : Event) (rest : List Event)
      → Conserved h (shares_of (event ∷ [])) h'
      → Conserved h' (shares_of rest) h''
      → Conserved h (shares_of (event ∷ rest)) h''
  together-Conserved h h' h'' event rest c d = record {
    sound = d.sound;
    on_record = omega (arith, c.on_record, d.on_record, split event);
    ids = omega (arith, c.ids, d.ids, split event);
  }
    where
      split : (e : Event) → shares_of (e ∷ rest) ≡ shares_of (e ∷ []) + shares_of rest
      split (share seed) = unfold shares_of in omega arith
      split (line msg) = unfold shares_of in omega arith

  shares_of-le : (event : Event) → shares_of (event ∷ []) ≤ 1
  unfolding shares_of
  shares_of-le (share seed) = omega arith
  shares_of-le (line msg) = omega arith

  sent_by-ids :
      (h : StratumHandler) (event : Event) (rest : List Event) (lines : List StratumLine) (k : ℕ)
      → k ≡ h.last_stratum_id + shares_of (event ∷ [])
      → map (λ (l : StratumLine). l.id) lines ≡ ids_from k (shares_of rest)
      → map (λ (l : StratumLine). l.id) (sent_by h event ++ lines)
        ≡ ids_from h.last_stratum_id (shares_of (event ∷ rest))
  unfolding sent_by shares_of ids_from submit
  sent_by-ids h (share seed) rest lines k e same =
      ap (λ (ids : List (Option ℕ)). some h.last_stratum_id ∷ ids)
        (same ∙ ap (λ (j : ℕ). ids_from j (shares_of rest)) e)
  sent_by-ids h (line msg) rest lines k e same =
      same ∙ ap (λ (j : ℕ). ids_from j (shares_of rest)) (omega (arith, e))

  -- Shares that wait under one id each, none of them under an id that is still to be given, and
  -- counters and ids that do not run out: after the steps of a conversation that goes on, whatever
  -- the order of the shares found and the lines received, that is so again, the lines of the shares
  -- carry the ids from the handler's on, each one once and in their order, and the number of shares
  -- that wait or were counted has grown by the number of those sent.
  pub converse-Conserved :
      (h : StratumHandler) (m : env.Miner) (events : List Event)
      → Sound h
      → h.last_stratum_id + length events < 2 ^ 32
      → accounted h.shares_stats + length events < 2 ^ 64
      → (converse env h m events).2 ≡ done
      → Conserved h (shares_of events) (converse env h m events).0
        × (map (λ (l : StratumLine). l.id) (lines_sent env h m events)
            ≡ ids_from h.last_stratum_id (shares_of events))
  unfolding converse shares_of lines_sent ids_from
  converse-Conserved h m [] s ids room ok = (Untouched-Conserved s (same-Untouched h), refl)
  converse-Conserved h m (event ∷ rest) s ids room ok =
      let next = step env h m event in
      let few = shares_of-le event in
      after next.0 next.1 (converse env next.0 next.1 rest) next.2
        (lines_sent env next.0 next.1 rest) ok
        (λ went more.
          let one = step-Conserved h m event s (omega arith) (omega arith) went in
          let (later, lines) =
            converse-Conserved next.0 next.1 rest one.sound (omega (arith, one.ids, few))
              (omega (arith, one.on_record, few)) more in
          (
            together-Conserved h next.0 _ event rest one later,
            sent_by-ids h event rest _ next.0.last_stratum_id one.ids lines,
          ))
    where
      Sent : StratumHandler → List StratumLine → Type 0
      Sent h' lines =
          Conserved h (shares_of (event ∷ rest)) h'
          × (map (λ (l : StratumLine). l.id) (sent_by h event ++ lines)
              ≡ ids_from h.last_stratum_id (shares_of (event ∷ rest)))

      after :
          (h' : StratumHandler) (m' : env.Miner) (x : StratumHandler × env.Miner × Reply)
          (r : Reply) (lines : List StratumLine)
          → (next_of h' m' x r).2 ≡ done
          → (r ≡ done → x.2 ≡ done → Sent x.0 lines)
          → Sent (next_of h' m' x r).0 (while_done r lines)
      after h' m' x done lines e k = k refl e
      after h' m' x failed lines e k = absurd (ground (arith, e))
      after h' m' x panicked lines e k = absurd (ground (arith, e))
