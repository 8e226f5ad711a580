-- ===== src/Watch/Threads/Wakeup.antt =====
-- src/watch.rs: the receivers that sleep, and what a receiver that is up to date was given.
use mathlib.Core.Logic.{ite}
use cryptix_miner_test.Base.{
  ℕ, ◌≡◌, arith, some, true, false, refl, ℕ_discrete, ◌≢◌, Bool, ap, inl, inr, subst, sym, ◌∙◌,
}
use cryptix_miner_test.Watch.Threads.{
  after_notify, Memory, Local, System, Step, Reach, begin, later, receives, sends, notify_all,
  update, start, idle, asleep, is_written,
}
use cryptix_miner_test.Watch.Threads.Invariant.{
  never, Good, Inv, is_reading, is_notifying, is_waking, never,
}
use cryptix_miner_test.Watch.Threads.Invariant.Moves.{Move-Good, Move-Kept, Kept-Good, Kept-owner}
use cryptix_miner_test.Watch.Threads.Invariant.Sends.{Send-Good, Send-owner, notify-Good}

after_notify-quiet : (T : Type 0) (alive : Bool) → is_notifying (after_notify {T = T} alive) ≡ false
after_notify-quiet T true = refl
after_notify-quiet T false = refl

module _ {T : Type 0} where
  start-Inv : (init : T) → Inv (start init)
  start-Inv init = record {
    good = λ i. record {
      behind = omega arith;
      fresh = λ h w same. absurd (omega (arith, same));
      holds = never;
      checked = never;
      news = never;
    };
    owner = never;
  }

  update-Good :
      {m : Memory T} (f : ℕ → Local T) (i : ℕ) (r : Local T)
      → Good m i r
      → ((j : ℕ) → i ≢ j → Good m j (f j))
      → (j : ℕ) → Good m j (update f i r j)
  update-Good {m} f i r here others j = go (ℕ_discrete i j)
    where
      go : (d : Dec (i ≡ j)) → Good m j (ite d r (f j))
      go (yes e) = subst (λ (k : ℕ). Good m k r) e here
      go (no ne) = others j ne

  -- Every step keeps the invariant.
  pub Step-Inv : {s t : System T} → Step s t → Inv s → Inv t
  Step-Inv {s} (receives i mv) inv = record {
    good =
        update-Good s.receivers i _ (Move-Good mv (inv.good i))
          (λ j ne. Kept-Good (Move-Kept mv) ne (inv.good i) (inv.good j));
    owner = Kept-owner (Move-Kept mv) (inv.good i) inv.owner;
  }
  Step-Inv {s} (sends sd) inv = record {
    good = λ i. Send-Good sd refl (inv.good i);
    owner = Send-owner sd;
  }
  Step-Inv {s} (notify_all e) inv = record {
    good = λ i. notify-Good e (inv.owner (ground (arith, e))) (inv.good i);
    owner = λ h. never (sym (after_notify-quiet T s.mem.sender_alive) ∙ h);
  }

  pub Reach-Inv : {init : T} {s : System T} → Reach init s → Inv s
  Reach-Inv {init} begin = start-Inv init
  Reach-Inv (later r st) = Step-Inv st (Reach-Inv r)

  -- In every state that the threads reach, a receiver that is not between the load of an id and the
  -- read of a value, and has observed the current id, was given the current value last, unless the
  -- sender is just replacing it: what `get_changed` passes over, its caller has.
  pub Reach-given :
      {init : T} {s : System T}
      → Reach init s
      → (i : ℕ) → is_reading (s.receivers i).pc ≡ false
      → is_written s.mem.sender ≡ false
      → (s.receivers i).last_observed ≡ s.mem.id
      → (s.receivers i).given ≡ some s.mem.value
  Reach-given r i = ((Reach-Inv r).good i).fresh

  -- No wake-up is lost: in every state that the threads reach, while the sender is at rest, a
  -- receiver that sleeps in `wait_for_change` was given the current value last, and the sender
  -- lives. Fewer than 2^64 sends are made.
  pub Reach-asleep :
      {init : T} {s : System T}
      → Reach init s
      → (i : ℕ) → (s.receivers i).pc ≡ asleep
      → s.mem.sender ≡ idle
      → ((s.receivers i).given ≡ some s.mem.value) × (s.mem.sender_alive ≡ true)
  Reach-asleep {s} r i sleeps still = elim (g.news (ground (arith, sleeps))) [
    | inl (same, alive) ↦ (g.fresh (ground (arith, sleeps)) (ground (arith, still)) same, alive)
    | inr news ↦ never (sym (ap is_waking still) ∙ news)
  ]
    where
      g : Good s.mem i (s.receivers i)
      g = (Reach-Inv r).good i
