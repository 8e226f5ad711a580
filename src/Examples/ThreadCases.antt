-- ===== src/Examples/ThreadCases.antt =====
-- The threads of the channel on a concrete run.
use cryptix_miner_test.Base.{ℕ_discrete, ℕ, ◌≡◌, arith, refl, some, true, ◌≢◌}
use cryptix_miner_test.Watch.Threads.Progress.{Steps, Reach-wakes}
use cryptix_miner_test.Watch.Threads.{
  Step, notifying, after_notify, woken, sends, send, replace_value, increment_id, asleep, System,
  Reach, begin, later, receives, call_wait_for_change, alive, changed, clone_value, same_first,
  take_lock, same_second, wait, first, second,
}
use cryptix_miner_test.Watch.Threads.Wakeup.{Reach-asleep}

-- A receiver takes the first value, and sleeps when it asks for the next.
sleeping : (s : System ℕ) × Reach 5 s
unfolding ℕ_discrete
sleeping = (
  _,
  later
      (later
        (later
          (later
            (later
              (later
                (later
                  (later
                    (later
                      (later (later begin (receives 0 call_wait_for_change))
                        (receives 0 (alive first refl)))
                      (receives 0 (changed first (ground arith))))
                    (receives 0 (clone_value first refl)))
                  (receives 0 call_wait_for_change))
                (receives 0 (alive first refl)))
              (receives 0 (same_first refl)))
            (receives 0 (take_lock refl)))
          (receives 0 (alive second refl)))
        (receives 0 (same_second refl)))
      (receives 0 wait),
)

Reach-asleep_example :
    ((sleeping.0.receivers 0).given ≡ some sleeping.0.mem.value)
    × (sleeping.0.mem.sender_alive ≡ true)
unfolding ℕ_discrete sleeping
Reach-asleep_example = Reach-asleep sleeping.1 0 refl refl

-- A send while the receiver sleeps, up to the wake-up.
sent : (s : System ℕ) × Reach 5 s
unfolding ℕ_discrete sleeping
sent = (
  _,
  later (later (later sleeping.1 (sends (send 6))) (sends (replace_value 6)))
      (sends (increment_id (omega arith))),
)

Reach-wakes_example :
    (locked : System ℕ) × Steps sent.0 locked
    × (locked.mem.sender ≡ notifying)
    × (locked.mem.id ≡ sent.0.mem.id)
    × ((i : ℕ) → (sent.0.receivers i).pc ≡ asleep → (locked.receivers i).pc ≡ asleep)
    × ((t : System ℕ) × Step locked t
        × (t.mem.sender ≡ after_notify t.mem.sender_alive)
        × ((i : ℕ) → (sent.0.receivers i).pc ≡ asleep → (t.receivers i).pc ≡ woken)
        × ((i : ℕ) → (t.receivers i).pc ≢ asleep))
unfolding ℕ_discrete sleeping sent
Reach-wakes_example = Reach-wakes sent.1 refl
