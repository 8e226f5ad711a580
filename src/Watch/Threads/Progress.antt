-- ===== src/Watch/Threads/Progress.antt =====
-- src/watch.rs: from a wake-up that has begun to its end.
use cryptix_miner_test.Base.{
  ℕ, ℕ_discrete, Bool, Bool-cases, Option, ap, ◌≡◌, ◌≢◌, ◌∙◌, false, inl, inr, none, refl, some,
  subst, suc, sym, true, zero,
}
use cryptix_miner_test.Watch.Threads.{
  after_notify, Call, first, second, again, poll, Pc, rest, check, load, read, to_wait, asleep,
  lock, woken, is_locked, is_written, Memory, Local, System, Step, receives, sends, notify_all,
  wake_up_threads, waking, notifying, Move, closed, alive, same_second, changed, taken, clone_value,
  wait, update, wake_pc, Reach, release, Send,
}
use cryptix_miner_test.Watch.Threads.Invariant.{never, is_holding, is_notifying}
use cryptix_miner_test.Watch.Threads.Owner.{update_other, Owned, Reach-Owned, update_same}

abbrev is_asleep : Pc → Bool
is_asleep asleep = true
is_asleep _ = false

is_asleep-wake_pc : (pc : Pc) → is_asleep (wake_pc pc) ≡ false
is_asleep-wake_pc rest = refl
is_asleep-wake_pc (check c) = refl
is_asleep-wake_pc (load c) = refl
is_asleep-wake_pc (read c) = refl
is_asleep-wake_pc lock = refl
is_asleep-wake_pc to_wait = refl
is_asleep-wake_pc asleep = refl
is_asleep-wake_pc woken = refl

wake_pc-awake : (pc : Pc) → wake_pc pc ≢ asleep
wake_pc-awake pc e = never (sym (is_asleep-wake_pc pc) ∙ ap is_asleep e)

module _ {T : Type 0} where
  pub data Steps : System T → System T → Type 0 where
    stop : {s : System T} → Steps s s
    step : {s t u : System T} → Step s t → Steps t u → Steps s u

  append : {s t u : System T} → Steps s t → Steps t u → Steps s u
  append stop r = r
  append (step st l) r = step st (append l r)

  -- The steps to a state in which the mutex is free and the sender is still about to take it.
  record Freed (s : System T) : Type 0 where
    end : System T
    steps : Steps s end
    free : end.mem.mutex ≡ none
    waits : end.mem.sender ≡ waking
    id_is : end.mem.id ≡ s.mem.id
    kept : (j : ℕ) → (s.receivers j).pc ≡ asleep → (end.receivers j).pc ≡ asleep

  moved :
      (s : System T) (i : ℕ) (m : Memory T) (r : Local T) (pc : Pc)
      → (s.receivers i).pc ≡ pc
      → Move i s.mem (s.receivers i).last_observed (s.receivers i).given pc m r
      → Step s (record { mem = m; receivers = update s.receivers i r })
  moved s i m r pc e mv = receives i (
      subst (λ p. Move i s.mem (s.receivers i).last_observed (s.receivers i).given p m r) (sym e)
        mv)

  -- A step of a receiver that is awake leaves the sleepers.
  others_sleep :
      (s : System T) (i : ℕ) (r : Local T) (pc : Pc)
      → (s.receivers i).pc ≡ pc
      → is_asleep pc ≡ false
      → (j : ℕ) → (s.receivers j).pc ≡ asleep
      → (update s.receivers i r j).pc ≡ asleep
  others_sleep s i r pc e awake j sleeps = elim (ℕ_discrete i j) [
    | yes same ↦ never (
        sym (ap is_asleep (sym (ap (λ (k : ℕ). (s.receivers k).pc) same) ∙ e) ∙ awake)
        ∙ ap is_asleep sleeps)
    | no other ↦ ap (λ (q : Local T). q.pc) (update_other s.receivers i j r other) ∙ sleeps
  ]

  -- A receiver's step that frees the mutex.
  freed :
      (s : System T) (i : ℕ) (m : Memory T) (r : Local T) (pc : Pc)
      → (s.receivers i).pc ≡ pc
      → is_asleep pc ≡ false
      → Move i s.mem (s.receivers i).last_observed (s.receivers i).given pc m r
      → m.mutex ≡ none
      → m.sender ≡ waking
      → m.id ≡ s.mem.id
      → Freed s
  freed s i m r pc e awake mv free waits same = record {
    end = record { mem = m; receivers = update s.receivers i r };
    steps = step (moved s i m r pc e mv) stop;
    free = free;
    waits = waits;
    id_is = same;
    kept = others_sleep s i r pc e awake;
  }

  -- A receiver's step that leaves the memory, before the others.
  before :
      (s : System T) (i : ℕ) (r : Local T) (pc : Pc)
      → (s.receivers i).pc ≡ pc
      → is_asleep pc ≡ false
      → Move i s.mem (s.receivers i).last_observed (s.receivers i).given pc s.mem r
      → Freed (record { mem = s.mem; receivers = update s.receivers i r })
      → Freed s
  before s i r pc e awake mv f = record {
    end = f.end;
    steps = step (moved s i s.mem r pc e mv) f.steps;
    free = f.free;
    waits = f.waits;
    id_is = f.id_is;
    kept = λ j sleeps. f.kept j (others_sleep s i r pc e awake j sleeps);
  }

  at_update : (s : System T) (i : ℕ) (r : Local T) → (update s.receivers i r i).pc ≡ r.pc
  at_update s i r = ap (λ (q : Local T). q.pc) (update_same s.receivers i r)

  released : (c : Call) (m : Memory T) → is_locked c ≡ true → (release c m).mutex ≡ none
  released c m e = rw e refl

  from_read :
      (s : System T) (i : ℕ) (c : Call)
      → s.mem.sender ≡ waking
      → is_locked c ≡ true
      → (s.receivers i).pc ≡ read c
      → Freed s
  from_read s i c w l e =
      freed s i (release c s.mem) _ (read c) e refl (clone_value c (ap is_written w))
        (released c s.mem l) w refl

  from_to_wait :
      (s : System T) (i : ℕ) → s.mem.sender ≡ waking → (s.receivers i).pc ≡ to_wait → Freed s
  from_to_wait s i w e = freed s i _ _ to_wait e refl wait refl w refl

  from_load :
      (s : System T) (i : ℕ) (c : Call)
      → s.mem.sender ≡ waking
      → is_locked c ≡ true
      → (s.receivers i).pc ≡ load c
      → Freed s
  from_load s i poll w l e = never l
  from_load s i first w l e = never l
  from_load s i again w l e =
      before s i _ (load again) e refl taken (from_read _ i again w l (at_update s i _))
  from_load s i second w l e = elim (ℕ_discrete (s.receivers i).last_observed s.mem.id) [
    | yes same ↦
        before s i _ (load second) e refl (same_second same) (from_to_wait _ i w (at_update s i _))
    | no other ↦
        before s i _ (load second) e refl (changed second other)
          (from_read _ i second w l (at_update s i _))
  ]

  from_check :
      (s : System T) (i : ℕ) (c : Call)
      → s.mem.sender ≡ waking
      → is_locked c ≡ true
      → (s.receivers i).pc ≡ check c
      → Freed s
  from_check s i c w l e = elim (Bool-cases s.mem.sender_alive) [
    | inr dead ↦
        freed s i (release c s.mem) _ (check c) e refl (closed c dead) (released c s.mem l) w refl
    | inl lives ↦
        before s i _ (check c) e refl (alive c lives) (from_load _ i c w l (at_update s i _))
  ]

  from_holder :
      (s : System T) (i : ℕ) (pc : Pc)
      → s.mem.sender ≡ waking
      → is_holding pc ≡ true
      → (s.receivers i).pc ≡ pc
      → Freed s
  from_holder s i (check c) w h e = from_check s i c w h e
  from_holder s i (load c) w h e = from_load s i c w h e
  from_holder s i (read c) w h e = from_read s i c w h e
  from_holder s i to_wait w h e = from_to_wait s i w e
  from_holder s i rest w h e = never h
  from_holder s i lock w h e = never h
  from_holder s i asleep w h e = never h
  from_holder s i woken w h e = never h

  mutex_freed :
      (s : System T) (owner : Option ℕ)
      → s.mem.sender ≡ waking
      → s.mem.mutex ≡ owner
      → Owned s owner
      → Freed s
  mutex_freed s none w e h = record {
    end = s;
    steps = stop;
    free = e;
    waits = w;
    id_is = refl;
    kept = λ j sleeps. sleeps;
  }
  mutex_freed s (some zero) w e h = never (sym (ap is_notifying w) ∙ h)
  mutex_freed s (some (suc i)) w e h = from_holder s i (s.receivers i).pc w h refl

  -- From every state that the threads reach with the sender about to wake the receivers, there are
  -- steps to one in which it holds the lock, has sent nothing more, and every receiver that slept
  -- still sleeps; and the sender's next step takes each of them out of its sleep at once, and leaves
  -- no receiver asleep.
  pub Reach-wakes :
      {init : T} {s : System T}
      → Reach init s
      → s.mem.sender ≡ waking
      → (locked : System T) × Steps s locked
        × (locked.mem.sender ≡ notifying)
        × (locked.mem.id ≡ s.mem.id)
        × ((i : ℕ) → (s.receivers i).pc ≡ asleep → (locked.receivers i).pc ≡ asleep)
        × ((t : System T) × Step locked t
            × (t.mem.sender ≡ after_notify t.mem.sender_alive)
            × ((i : ℕ) → (s.receivers i).pc ≡ asleep → (t.receivers i).pc ≡ woken)
            × ((i : ℕ) → (t.receivers i).pc ≢ asleep))
  Reach-wakes {s} r w = (
    locked,
    append f.steps (step takes stop),
    refl,
    f.id_is,
    f.kept,
    (
      _,
      notify_all refl,
      refl,
      λ i sleeps. ap wake_pc (f.kept i sleeps),
      λ i. wake_pc-awake (f.end.receivers i).pc,
    ),
  )
    where
      f : Freed s
      f = mutex_freed s s.mem.mutex w refl (Reach-Owned r)

      locked : System T
      locked = record {
        mem = record f.end.mem { mutex = some 0; sender = notifying };
        receivers = f.end.receivers;
      }

      takes : Step f.end locked
      takes =
          sends (subst (λ p. Send f.end.mem p locked.mem) (sym f.waits) (wake_up_threads f.free))
