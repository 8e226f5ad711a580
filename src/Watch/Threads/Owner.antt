-- ===== src/Watch/Threads/Owner.antt =====
-- src/watch.rs: the owner of the mutex.
use cryptix_miner_test.Base.{
  ap, ◌+◌, ℕ, ℕ_discrete, Option, ◌≡◌, ◌≢◌, ◌∙◌, arith, false, none, refl, some, subst, suc, sym,
  true, zero, ap,
}
use cryptix_miner_test.Watch.Threads.{
  sending, written, poll, first, second, again, Pc, Memory, Local, System, Step, receives, sends,
  notify_all, Send, send, replace_value, increment_id, wake_up_threads, drop_sender, waking, Move,
  call_get_changed, call_wait_for_change, closed, alive, same_poll, same_first, same_second,
  changed, taken, clone_value, take_lock, wait, wake, relock, update, Reach, begin, later, SenderPc,
}
use cryptix_miner_test.Watch.Threads.Invariant.Moves.{Kept, leaves, takes, gives, Move-Kept}
use cryptix_miner_test.Watch.Threads.Invariant.{never, is_holding, is_notifying}

module _ {T : Type 0} where
  -- The owner of the mutex is where a thread has it.
  abbrev pub Owned : System T → Option ℕ → Type 0
  Owned s none = Unit
  Owned s (some zero) = is_notifying s.mem.sender ≡ true
  Owned s (some (suc i)) = is_holding (s.receivers i).pc ≡ true

  -- What a receiver's step makes of the mutex.
  data Handed (i : ℕ) (m m' : Memory T) (before after : Pc) : Type 0 where
    frees : m'.mutex ≡ none → Handed i m m' before after
    has : m'.mutex ≡ some (suc i) → is_holding after ≡ true → Handed i m m' before after
    keeps :
        m'.mutex ≡ m.mutex
        → (is_holding before ≡ true → is_holding after ≡ true)
        → Handed i m m' before after

  Move-Handed :
      {i last : ℕ} {m m' : Memory T} {given : Option T} {pc : Pc} {r : Local T}
      → Move i m last given pc m' r
      → Handed i m m' pc r.pc
  Move-Handed call_get_changed = keeps refl never
  Move-Handed call_wait_for_change = keeps refl never
  Move-Handed (closed poll e) = keeps refl never
  Move-Handed (closed first e) = keeps refl never
  Move-Handed (closed second e) = frees refl
  Move-Handed (closed again e) = frees refl
  Move-Handed (alive c e) = keeps refl (λ h. h)
  Move-Handed (same_poll e) = keeps refl never
  Move-Handed (same_first e) = keeps refl never
  Move-Handed (same_second e) = keeps refl (λ h. refl)
  Move-Handed (changed c e) = keeps refl (λ h. h)
  Move-Handed taken = keeps refl (λ h. refl)
  Move-Handed (clone_value poll e) = keeps refl never
  Move-Handed (clone_value first e) = keeps refl never
  Move-Handed (clone_value second e) = frees refl
  Move-Handed (clone_value again e) = frees refl
  Move-Handed (take_lock e) = has refl refl
  Move-Handed wait = frees refl
  Move-Handed wake = keeps refl never
  Move-Handed (relock e) = has refl refl

  Kept-sender : {i : ℕ} {m m' : Memory T} {pc : Pc} → Kept i pc m m' → m'.sender ≡ m.sender
  Kept-sender leaves = refl
  Kept-sender (takes e) = refl
  Kept-sender (gives e) = refl

  pub update_same : (f : ℕ → Local T) (i : ℕ) (r : Local T) → update f i r i ≡ r
  update_same f i r = ground arith

  pub update_other : (f : ℕ → Local T) (i j : ℕ) (r : Local T) → i ≢ j → update f i r j ≡ f j
  update_other f i j r ne = ground (arith, ne)

  -- An owner before a receiver's step that leaves the mutex is the owner after it.
  unmoved-Owned :
      (s : System T) (i : ℕ) (m : Memory T) (r : Local T) (owner : Option ℕ)
      → m.sender ≡ s.mem.sender
      → (is_holding (s.receivers i).pc ≡ true → is_holding r.pc ≡ true)
      → Owned s owner
      → Owned (record { mem = m; receivers = update s.receivers i r }) owner
  unmoved-Owned s i m r none e k old = tt
  unmoved-Owned s i m r (some zero) e k old = ap is_notifying e ∙ old
  unmoved-Owned s i m r (some (suc j)) e k old = elim (ℕ_discrete i j) [
    | yes same ↦
        subst (λ (n : ℕ). is_holding (update s.receivers i r n).pc ≡ true) same
          (ap (λ (q : Local T). is_holding q.pc) (update_same s.receivers i r)
            ∙ k (subst (λ (n : ℕ). is_holding (s.receivers n).pc ≡ true) (sym same) old))
    | no other ↦ ap (λ (q : Local T). is_holding q.pc) (update_other s.receivers i j r other) ∙ old
  ]

  Handed-Owned :
      (s : System T) (i : ℕ) (m : Memory T) (r : Local T)
      → Handed i s.mem m (s.receivers i).pc r.pc
      → m.sender ≡ s.mem.sender
      → Owned s s.mem.mutex
      → Owned (record { mem = m; receivers = update s.receivers i r }) m.mutex
  Handed-Owned s i m r (frees e) same old =
      subst (Owned (record { mem = m; receivers = update s.receivers i r })) (sym e) tt
  Handed-Owned s i m r (has e h) same old =
      subst (Owned (record { mem = m; receivers = update s.receivers i r })) (sym e)
        (ap (λ (q : Local T). is_holding q.pc) (update_same s.receivers i r) ∙ h)
  Handed-Owned s i m r (keeps e k) same old =
      subst (Owned (record { mem = m; receivers = update s.receivers i r })) (sym e)
        (unmoved-Owned s i m r s.mem.mutex same k old)

  quiet-Owned :
      (s : System T) (m : Memory T) (owner : Option ℕ)
      → is_notifying s.mem.sender ≡ false
      → Owned s owner
      → Owned (record { mem = m; receivers = s.receivers }) owner
  quiet-Owned s m none e old = tt
  quiet-Owned s m (some zero) e old = never (sym e ∙ old)
  quiet-Owned s m (some (suc j)) e old = old

  Send-Owned :
      (s : System T) {m : Memory T} {pc : SenderPc T}
      → Send s.mem pc m
      → s.mem.sender ≡ pc
      → Owned s s.mem.mutex
      → Owned (record { mem = m; receivers = s.receivers }) m.mutex
  Send-Owned s (send v) e old =
      quiet-Owned s (record s.mem { sender = sending v }) s.mem.mutex (ap is_notifying e) old
  Send-Owned s (replace_value v) e old =
      quiet-Owned s (record s.mem { value = v; sender = written }) s.mem.mutex (ap is_notifying e)
        old
  Send-Owned s (increment_id lt) e old =
      quiet-Owned s (record s.mem { id = s.mem.id + 1; sender = waking }) s.mem.mutex
        (ap is_notifying e) old
  Send-Owned s (wake_up_threads free) e old = refl
  Send-Owned s drop_sender e old =
      quiet-Owned s (record s.mem { sender_alive = false; sender = waking }) s.mem.mutex
        (ap is_notifying e) old

  Step-Owned : {s t : System T} → Step s t → Owned s s.mem.mutex → Owned t t.mem.mutex
  Step-Owned {s} (receives i {m} {r} mv) old =
      Handed-Owned s i m r (Move-Handed mv) (Kept-sender (Move-Kept mv)) old
  Step-Owned {s} (sends sd) old = Send-Owned s sd refl old
  Step-Owned {s} (notify_all e) old = tt

  pub Reach-Owned : {init : T} {s : System T} → Reach init s → Owned s s.mem.mutex
  Reach-Owned begin = tt
  Reach-Owned (later r st) = Step-Owned st (Reach-Owned r)
