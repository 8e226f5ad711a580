-- ===== src/Watch/Threads/Invariant/Moves.antt =====
-- src/watch.rs: the invariant over a receiver's step.
use cryptix_miner_test.Base.{
  ℕ, ◌≡◌, ◌≤◌, Option, false, none, some, suc, true, arith, inl, inr, refl, ◌≢◌, sym,
}
use cryptix_miner_test.Watch.Threads.{
  Call, Pc, release, check, read, is_locked, is_written, Memory, Local, Move, set_mutex,
  call_get_changed, call_wait_for_change, closed, alive, same_poll, same_first, same_second,
  changed, taken, clone_value, take_lock, wait, wake, relock, poll, first, second, again,
}
use cryptix_miner_test.Watch.Threads.Invariant.{
  never, Good, is_holding, is_checked, is_quiet, is_reading, is_notifying,
}

module _ {T : Type 0} where
  -- A receiver that has not the lock and does not sleep.
  away :
      {m : Memory T} {i : ℕ} {r : Local T}
      → is_holding r.pc ≡ false
      → is_checked r.pc ≡ false
      → is_quiet r.pc ≡ false
      → r.last_observed ≤ m.id
      → (is_reading r.pc ≡ false
          → is_written m.sender ≡ false
          → r.last_observed ≡ m.id
          → r.given ≡ some m.value)
      → Good m i r
  away free unchecked loud behind fresh = record {
    behind = behind;
    fresh = fresh;
    holds = λ h. absurd (ground (arith, h, free));
    checked = λ h. absurd (ground (arith, h, unchecked));
    news = λ h. absurd (ground (arith, h, loud));
  }

  -- The receiver that moves.
  pub Move-Good :
      {i last : ℕ} {m m' : Memory T} {given : Option T} {pc : Pc} {r : Local T}
      → Move i m last given pc m' r
      → Good m i (record { pc = pc; last_observed = last; given = given })
      → Good m' i r
  Move-Good call_get_changed g = away refl refl refl g.behind g.fresh
  Move-Good call_wait_for_change g = away refl refl refl g.behind g.fresh
  Move-Good (closed c e) g = away refl refl refl g.behind g.fresh
  Move-Good (alive c e) g = record {
    behind = g.behind;
    fresh = g.fresh;
    holds = g.holds;
    checked = λ h. inl e;
    news = never;
  }
  Move-Good (same_poll e) g = away refl refl refl g.behind g.fresh
  Move-Good (same_first e) g = away refl refl refl g.behind g.fresh
  Move-Good (same_second e) g = record {
    behind = g.behind;
    fresh = g.fresh;
    holds = g.holds;
    checked = never;
    news = λ h. elim (g.checked refl) [ inl a ↦ inl (e, a) | inr w ↦ inr w ];
  }
  Move-Good (changed c e) g = record {
    behind = omega arith;
    fresh = λ h. never (sym h);
    holds = g.holds;
    checked = never;
    news = never;
  }
  Move-Good taken g = record {
    behind = omega arith;
    fresh = λ h. never (sym h);
    holds = g.holds;
    checked = never;
    news = never;
  }
  Move-Good (clone_value c e) g = away refl refl refl g.behind (λ h w same. refl)
  Move-Good (take_lock e) g = record {
    behind = g.behind;
    fresh = g.fresh;
    holds = λ h. refl;
    checked = never;
    news = never;
  }
  Move-Good wait g = record {
    behind = g.behind;
    fresh = g.fresh;
    holds = never;
    checked = never;
    news = g.news;
  }
  Move-Good wake g = away refl refl refl g.behind g.fresh
  Move-Good (relock e) g = record {
    behind = g.behind;
    fresh = g.fresh;
    holds = λ h. refl;
    checked = never;
    news = never;
  }

  -- What a receiver's step does to the memory: it takes the lock when it is free, gives it back, or
  -- leaves it.
  pub data Kept (i : ℕ) (pc : Pc) (m : Memory T) : Memory T → Type 0 where
    leaves : Kept i pc m m
    takes : m.mutex ≡ none → Kept i pc m (set_mutex m (some (suc i)))
    gives : is_holding pc ≡ true → Kept i pc m (set_mutex m none)

  release-Kept :
      {i : ℕ} {m : Memory T} (c : Call) (pc : Pc)
      → is_holding pc ≡ is_locked c
      → Kept i pc m (release c m)
  release-Kept poll pc e = leaves
  release-Kept first pc e = leaves
  release-Kept second pc e = gives e
  release-Kept again pc e = gives e

  pub Move-Kept :
      {i last : ℕ} {m m' : Memory T} {given : Option T} {pc : Pc} {r : Local T}
      → Move i m last given pc m' r
      → Kept i pc m m'
  Move-Kept call_get_changed = leaves
  Move-Kept call_wait_for_change = leaves
  Move-Kept (closed c e) = release-Kept c (check c) refl
  Move-Kept (alive c e) = leaves
  Move-Kept (same_poll e) = leaves
  Move-Kept (same_first e) = leaves
  Move-Kept (same_second e) = leaves
  Move-Kept (changed c e) = leaves
  Move-Kept taken = leaves
  Move-Kept (clone_value c e) = release-Kept c (read c) refl
  Move-Kept (take_lock e) = takes e
  Move-Kept wait = gives refl
  Move-Kept wake = leaves
  Move-Kept (relock e) = takes e

  -- The other receivers, and the sender.
  other_mutex :
      {m : Memory T} {j : ℕ} {r : Local T} (owner : Option ℕ)
      → Good m j r
      → (is_holding r.pc ≡ true → owner ≡ some (suc j))
      → Good (set_mutex m owner) j r
  other_mutex owner g h = record {
    behind = g.behind;
    fresh = g.fresh;
    holds = h;
    checked = g.checked;
    news = g.news;
  }

  pub Kept-Good :
      {i j : ℕ} {m m' : Memory T} {r q : Local T}
      → Kept i r.pc m m'
      → i ≢ j
      → Good m i r
      → Good m j q
      → Good m' j q
  Kept-Good leaves ne gi gj = gj
  Kept-Good (takes e) ne gi gj = other_mutex _ gj (λ h. absurd (ground (arith, e, gj.holds h)))
  Kept-Good (gives e) ne gi gj =
      other_mutex _ gj (λ h. absurd (ground (arith, ne, gi.holds e, gj.holds h)))

  pub Kept-owner :
      {i : ℕ} {m m' : Memory T} {r : Local T}
      → Kept i r.pc m m'
      → Good m i r
      → (is_notifying m.sender ≡ true → m.mutex ≡ some 0)
      → is_notifying m'.sender ≡ true
      → m'.mutex ≡ some 0
  Kept-owner leaves g owner h = owner h
  Kept-owner (takes e) g owner h = absurd (ground (arith, e, owner h))
  Kept-owner (gives e) g owner h = absurd (ground (arith, g.holds e, owner h))
