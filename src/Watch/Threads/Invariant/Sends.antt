-- ===== src/Watch/Threads/Invariant/Sends.antt =====
-- src/watch.rs: the invariant over a sender's step.
use cryptix_miner_test.Base.{ℕ, ◌≡◌, none, some, true, arith, inl, inr, refl, sym, ◌∙◌}
use cryptix_miner_test.Watch.Threads.{
  Pc, rest, check, load, read, lock, to_wait, asleep, woken, poll, first, second, again, wake_pc,
  SenderPc, Memory, Local, Send, send, replace_value, increment_id, wake_up_threads, drop_sender,
  notified, after_notify, notifying,
}
use cryptix_miner_test.Watch.Threads.Invariant.{
  never, is_reading, is_checked, is_quiet, Good, is_holding, is_notifying,
}

-- What a notification leaves of a receiver's place.
record Woken (before after : Pc) : Type 0 where
  reading_is : is_reading after ≡ is_reading before
  holding_is : is_holding after ≡ is_holding before
  checked_held : is_checked after ≡ true → is_holding before ≡ true
  quiet_held : is_quiet after ≡ true → is_holding before ≡ true

stays :
    (pc : Pc)
    → (is_checked pc ≡ true → is_holding pc ≡ true)
    → (is_quiet pc ≡ true → is_holding pc ≡ true)
    → Woken pc pc
stays pc c q = record { reading_is = refl; holding_is = refl; checked_held = c; quiet_held = q }

wake_pc-Woken : (pc : Pc) → Woken pc (wake_pc pc)
wake_pc-Woken asleep = record {
  reading_is = refl;
  holding_is = refl;
  checked_held = λ h. never h;
  quiet_held = λ h. never h;
}
wake_pc-Woken rest = stays rest never never
wake_pc-Woken lock = stays lock never never
wake_pc-Woken woken = stays woken never never
wake_pc-Woken to_wait = stays to_wait (λ h. refl) (λ h. refl)
wake_pc-Woken (check c) = stays (check c) never never
wake_pc-Woken (load poll) = stays (load poll) never never
wake_pc-Woken (load first) = stays (load first) never never
wake_pc-Woken (load second) = stays (load second) (λ h. refl) never
wake_pc-Woken (load again) = stays (load again) (λ h. refl) (λ h. refl)
wake_pc-Woken (read c) = stays (read c) never never

module _ {T : Type 0} where
  pub Send-Good :
      {i : ℕ} {m m' : Memory T} {pc : SenderPc T} {r : Local T}
      → Send m pc m'
      → m.sender ≡ pc
      → Good m i r
      → Good m' i r
  Send-Good (send v) e g = record {
    behind = g.behind;
    fresh = λ h w same. g.fresh h (ground (arith, e)) same;
    holds = g.holds;
    checked = λ h. elim (g.checked h) [ inl a ↦ inl a | inr w ↦ absurd (ground (arith, w, e)) ];
    news = λ h. elim (g.news h) [ inl a ↦ inl a | inr w ↦ absurd (ground (arith, w, e)) ];
  }
  Send-Good (replace_value v) e g = record {
    behind = g.behind;
    fresh = λ h w same. absurd (ground (arith, w));
    holds = g.holds;
    checked = λ h. elim (g.checked h) [ inl a ↦ inl a | inr w ↦ absurd (ground (arith, w, e)) ];
    news = λ h. elim (g.news h) [ inl a ↦ inl a | inr w ↦ absurd (ground (arith, w, e)) ];
  }
  Send-Good (increment_id lt) e g = record {
    behind = omega (arith, g.behind);
    fresh = λ h w same. absurd (omega (arith, g.behind, same));
    holds = g.holds;
    checked = λ h. inr refl;
    news = λ h. inr refl;
  }
  Send-Good (wake_up_threads free) e g = record {
    behind = g.behind;
    fresh = λ h w same. g.fresh h (ground (arith, e)) same;
    holds = λ h. absurd (ground (arith, g.holds h, free));
    checked = λ h. inr refl;
    news = λ h. inr refl;
  }
  Send-Good drop_sender e g = record {
    behind = g.behind;
    fresh = λ h w same. g.fresh h (ground (arith, e)) same;
    holds = g.holds;
    checked = λ h. inr refl;
    news = λ h. inr refl;
  }

  pub Send-owner :
      {m m' : Memory T} {pc : SenderPc T}
      → Send m pc m'
      → is_notifying m'.sender ≡ true
      → m'.mutex ≡ some 0
  Send-owner (send v) h = never h
  Send-owner (replace_value v) h = never h
  Send-owner (increment_id lt) h = never h
  Send-owner (wake_up_threads free) h = refl
  Send-owner drop_sender h = never h

  -- While the sender notifies, no receiver has the lock; after that, none sleeps.
  pub notify-Good :
      {i : ℕ} {m : Memory T} {r : Local T}
      → m.sender ≡ notifying
      → m.mutex ≡ some 0
      → Good m i r
      → Good (record m { mutex = none; sender = after_notify m.sender_alive }) i (notified r)
  notify-Good {m} {r} e owner g = record {
    behind = g.behind;
    fresh = λ h w same. g.fresh (sym k.reading_is ∙ h) (ground (arith, e)) same;
    holds = λ h. free (sym k.holding_is ∙ h);
    checked = λ h. free (k.checked_held h);
    news = λ h. free (k.quiet_held h);
  }
    where
      k : Woken r.pc (wake_pc r.pc)
      k = wake_pc-Woken r.pc

      free : {A : Type 0} → is_holding r.pc ≡ true → A
      free h = absurd (ground (arith, owner, g.holds h))
