-- ===== src/Watch/Threads.antt =====
-- src/watch.rs: a sender and its receivers as threads, one access to the shared memory at a time.
-- A lock is taken and given back as the guards are; the read lock is held for one access, and the
-- write lock from the write of the value to the increment of the id. An access sees the last store.
-- The receivers' number does not change, and is not 0.
pub mod Invariant
pub mod Owner
pub mod Progress
pub mod Wakeup
use mathlib.Core.Logic.{ite}
use cryptix_miner_test.Base.{
  ℕ_discrete, ℕ, ◌+◌, ◌<◌, ◌^◌, ◌≡◌, ◌≢◌, Bool, Option, false, if◌then◌else◌, none, some, suc, true,
  ℕ_discrete,
}

-- Which call of `get_changed_internal` a receiver is in: that of `get_changed`, the first or the
-- second of `wait_for_change`, or the looks that follow its wait.
pub data Call : Type 0 where
  poll : Call
  first : Call
  second : Call
  again : Call

-- Where a receiver stands.
pub data Pc : Type 0 where
  rest : Pc  -- outside of the calls
  check : Call → Pc  -- before the load of `sender_alive`
  load : Call → Pc  -- before the load of the id
  read : Call → Pc  -- before `clone_value`
  lock : Pc  -- before `wait_for_change.lock()`
  to_wait : Pc  -- before `notify_change.wait`, with the lock
  asleep : Pc
  woken : Pc  -- in `notify_change.wait`, before it has the lock again

-- Where the sender stands.
pub data SenderPc (T : Type 0) : Type 0 where
  idle : SenderPc T
  sending : T → SenderPc T  -- before `replace_value`
  written : SenderPc T  -- before `increment_id`, with the write lock
  waking : SenderPc T  -- before `wait_for_change.lock()`
  notifying : SenderPc T  -- before `notify_all`, with the lock
  gone : SenderPc T

-- `Shared`, the owner of its mutex (0 is the sender and suc i the receiver i), and the sender.
pub record Memory (T : Type 0) : Type 0 where
  pub value : T
  pub id : ℕ
  pub sender_alive : Bool
  pub mutex : Option ℕ
  pub sender : SenderPc T

-- A receiver: where it stands, its `last_observed`, and the value that it was given last.
pub record Local (T : Type 0) : Type 0 where
  pub pc : Pc
  pub last_observed : ℕ
  pub given : Option T

-- The calls under the lock, which is dropped when they return.
abbrev pub is_locked : Call → Bool
is_locked poll = false
is_locked first = false
is_locked second = true
is_locked again = true

abbrev pub is_written : {T : Type 0} → SenderPc T → Bool
is_written written = true
is_written _ = false

-- `notify_all`, at a receiver.
abbrev pub wake_pc : Pc → Pc
wake_pc asleep = woken
wake_pc pc = pc

pub record System (T : Type 0) : Type 0 where
  pub mem : Memory T
  pub receivers : ℕ → Local T

module _ {T : Type 0} where
  abbrev pub set_mutex : Memory T → Option ℕ → Memory T
  set_mutex m owner = record m { mutex = owner }

  abbrev pub release : Call → Memory T → Memory T
  release c m = set_mutex m (if is_locked c then none else m.mutex)

  -- A step of the receiver i, with its `last_observed` and the value that it was given last.
  pub data Move (i : ℕ) (m : Memory T) (last : ℕ) (given : Option T)
      : Pc → Memory T → Local T → Type 0 where
    call_get_changed :
        Move i m last given rest m (record { pc = check poll; last_observed = last; given = given })
    call_wait_for_change :
        Move i m last given rest m
          (record { pc = check first; last_observed = last; given = given })
    closed :
        (c : Call)
        → m.sender_alive ≡ false
        → Move i m last given
            (check c)
            (release c m)
            (record { pc = rest; last_observed = last; given = given })
    alive :
        (c : Call)
        → m.sender_alive ≡ true
        → Move i m last given
            (check c)
            m
            (record { pc = load c; last_observed = last; given = given })
    same_poll :
        last ≡ m.id
        → Move i m last given
            (load poll)
            m
            (record { pc = rest; last_observed = last; given = given })
    same_first :
        last ≡ m.id
        → Move i m last given
            (load first)
            m
            (record { pc = lock; last_observed = last; given = given })
    same_second :
        last ≡ m.id
        → Move i m last given
            (load second)
            m
            (record { pc = to_wait; last_observed = last; given = given })
    changed :
        (c : Call)
        → last ≢ m.id
        → Move i m last given
            (load c)
            m
            (record { pc = read c; last_observed = m.id; given = given })
    -- After the wait the id is taken without a comparison.
    taken :
        Move i m last given
          (load again)
          m
          (record { pc = read again; last_observed = m.id; given = given })
    clone_value :
        (c : Call)
        → is_written m.sender ≡ false
        → Move i m last given
            (read c)
            (release c m)
            (record { pc = rest; last_observed = last; given = some m.value })
    take_lock :
        m.mutex ≡ none
        → Move i m last given lock
            (set_mutex m (some (suc i)))
            (record { pc = check second; last_observed = last; given = given })
    wait :
        Move i m last given to_wait
          (set_mutex m none)
          (record { pc = asleep; last_observed = last; given = given })
    -- A wait may also end without a notification.
    wake : Move i m last given asleep m (record { pc = woken; last_observed = last; given = given })
    relock :
        m.mutex ≡ none
        → Move i m last given woken
            (set_mutex m (some (suc i)))
            (record { pc = check again; last_observed = last; given = given })

  abbrev pub notified : Local T → Local T
  notified r = record r { pc = wake_pc r.pc }

  -- A step of the sender. The id is a usize; fewer than 2^64 sends are made.
  pub data Send (m : Memory T) : SenderPc T → Memory T → Type 0 where
    send : (v : T) → Send m idle (record m { sender = sending v })
    replace_value : (v : T) → Send m (sending v) (record m { value = v; sender = written })
    increment_id : m.id + 1 < 2 ^ 64 → Send m written (record m { id = m.id + 1; sender = waking })
    wake_up_threads :
        m.mutex ≡ none → Send m waking (record m { mutex = some 0; sender = notifying })
    drop_sender : Send m idle (record m { sender_alive = false; sender = waking })

  abbrev pub after_notify : Bool → SenderPc T
  after_notify true = idle
  after_notify false = gone

  abbrev pub update : (ℕ → Local T) → ℕ → Local T → ℕ → Local T
  update f i r j = ite (ℕ_discrete i j) r (f j)

  pub data Step (s : System T) : System T → Type 0 where
    receives :
        (i : ℕ) {m : Memory T} {r : Local T}
        → Move i s.mem (s.receivers i).last_observed (s.receivers i).given (s.receivers i).pc m r
        → Step s (record { mem = m; receivers = update s.receivers i r })
    sends :
        {m : Memory T}
        → Send s.mem s.mem.sender m
        → Step s (record { mem = m; receivers = s.receivers })
    notify_all :
        s.mem.sender ≡ notifying
        → Step s (record {
          mem = record s.mem { mutex = none; sender = after_notify s.mem.sender_alive };
          receivers = λ i. notified (s.receivers i);
        })

  -- `channel`, with any number of clones of its receiver.
  abbrev pub start : T → System T
  start init = record {
    mem = record { value = init; id = 1; sender_alive = true; mutex = none; sender = idle };
    receivers = λ i. record { pc = rest; last_observed = 0; given = none };
  }

  pub data Reach (init : T) : System T → Type 0 where
    begin : Reach init (start init)
    later : {s t : System T} → Reach init s → Step s t → Reach init t
