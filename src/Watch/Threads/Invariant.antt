-- ===== src/Watch/Threads/Invariant.antt =====
-- src/watch.rs: the invariant of the threads.
pub mod Moves
pub mod Sends
use cryptix_miner_test.Base.{ℕ, ◌+◌, ◌≡◌, ◌≤◌, ◌⊎◌, Bool, false, none, some, suc, true, arith}
use cryptix_miner_test.Watch.Threads.{
  Pc, SenderPc, Memory, Local, System, is_locked, is_written, rest, check, load, read, lock,
  to_wait, asleep, woken, second, waking, notifying,
}

pub never {ℓ} : {A : Type ℓ} → false ≡ true → A
never h = absurd (ground (arith, h))

abbrev pub is_reading : Pc → Bool
is_reading (read c) = true
is_reading _ = false

-- Whether a receiver has the lock.
abbrev pub is_holding : Pc → Bool
is_holding (check c) = is_locked c
is_holding (load c) = is_locked c
is_holding (read c) = is_locked c
is_holding to_wait = true
is_holding _ = false

-- Whether it has seen the sender alive under the lock, or goes to sleep or sleeps.
abbrev pub is_checked : Pc → Bool
is_checked (load second) = true
is_checked _ = false

abbrev pub is_quiet : Pc → Bool
is_quiet to_wait = true
is_quiet asleep = true
is_quiet _ = false

module _ {T : Type 0} where
  -- Whether the sender has news that it has not notified the receivers of.
  abbrev pub is_waking : SenderPc T → Bool
  is_waking waking = true
  is_waking notifying = true
  is_waking _ = false

  abbrev pub is_notifying : SenderPc T → Bool
  is_notifying notifying = true
  is_notifying _ = false

  pub record Good (m : Memory T) (i : ℕ) (r : Local T) : Type 0 where
    pub behind : r.last_observed ≤ m.id
    pub fresh :
        is_reading r.pc ≡ false
        → is_written m.sender ≡ false
        → r.last_observed ≡ m.id
        → r.given ≡ some m.value
    pub holds : is_holding r.pc ≡ true → m.mutex ≡ some (suc i)
    pub checked : is_checked r.pc ≡ true → (m.sender_alive ≡ true) ⊎ (is_waking m.sender ≡ true)
    pub news :
        is_quiet r.pc ≡ true
        → ((r.last_observed ≡ m.id) × (m.sender_alive ≡ true)) ⊎ (is_waking m.sender ≡ true)

  pub record Inv (s : System T) : Type 0 where
    pub good : (i : ℕ) → Good s.mem i (s.receivers i)
    pub owner : is_notifying s.mem.sender ≡ true → s.mem.mutex ≡ some 0
