-- ===== src/Watch.antt =====
-- src/watch.rs: the channel that hands the current work to the workers. A call runs as one step
-- here: what the methods do when no other thread comes between their loads and stores.
pub mod Delivery
pub mod Threads
use cryptix_miner_test.Base.{
  ℕ, ◌%◌, ◌+◌, ◌-◌, ◌==◌, Bool, Option, ◌^◌, false, if◌then◌else◌, none, not, some, true,
}

-- `Shared`; the id, the number of receivers and the senders' life are atomics. An id is a usize.
pub record Shared (T : Type 0) : Type 0 where
  pub value : T
  pub id : ℕ
  pub receivers_count : ℕ
  pub sender_alive : Bool

-- `Receiver`, without its reference to the shared state.
pub record Receiver : Type 0 where
  pub last_observed : ℕ

-- `Result<A, ChannelClosed>`
pub data Result (A : Type 0) : Type 0 where
  ok : A → Result A
  channel_closed : Result A

module _ {T : Type 0} where
  unfoldable pub channel : T → Shared T × Receiver
  channel init = (
    record { value = init; id = 1; receivers_count = 1; sender_alive = true },
    record { last_observed = 0 },
  )

  unfoldable pub increment_receiver_count : Shared T → Shared T
  increment_receiver_count s = record s { receivers_count = (s.receivers_count + 1) % 2 ^ 64 }

  -- `fetch_sub`, which wraps around.
  unfoldable pub decrement_receivers_count : Shared T → Shared T
  decrement_receivers_count s = record s {
    receivers_count = (s.receivers_count + (2 ^ 64 - 1)) % 2 ^ 64;
  }

  -- `replace_value`
  unfoldable pub replace_value : Shared T → T → Shared T
  replace_value s val = record s { value = val; id = (s.id + 1) % 2 ^ 64 }

  -- `Sender::send`
  unfoldable pub send : Shared T → T → Shared T × Result Unit
  unfolding replace_value
  send s value =
      if s.receivers_count == 0 then (s, channel_closed) else (replace_value s value, ok tt)

  -- `Drop for Sender`
  unfoldable pub drop_sender : Shared T → Shared T
  drop_sender s = record s { sender_alive = false }

  -- `get_changed_internal`
  unfoldable pub get_changed : Shared T → Receiver → Receiver × Result (Option T)
  get_changed s r =
      if not s.sender_alive
      then (r, channel_closed)
      else if r.last_observed == s.id
      then (r, ok none)
      else (record { last_observed = s.id }, ok (some s.value))

  -- What `wait_for_change` does once its wait is over, with the state that it wakes up in.
  unfoldable pub wake : Shared T → Receiver → Receiver × Result T
  wake s r =
      if not s.sender_alive
      then (r, channel_closed)
      else (record { last_observed = s.id }, ok s.value)

  -- `wait_for_change`: `at_call` and `locked` are the states of its two checks, and `woken` is the
  -- one after the wait, which is read only if neither check finds a change.
  unfoldable pub wait_for_change : Shared T → Shared T → Shared T → Receiver → Receiver × Result T
  unfolding get_changed wake
  wait_for_change at_call locked woken r =
      let (r1, first) = get_changed at_call r in
      elim first [
        | channel_closed ↦ (r1, channel_closed)
        | ok (some v) ↦ (r1, ok v)
        | ok none ↦
            let (r2, second) = get_changed locked r1 in
            elim second [
              | channel_closed ↦ (r2, channel_closed)
              | ok (some v) ↦ (r2, ok v)
              | ok none ↦ wake woken r2
            ]
      ]

  -- `Clone for Receiver`
  unfoldable pub clone : Shared T → Receiver → Shared T × Receiver
  unfolding increment_receiver_count
  clone s r = (increment_receiver_count s, r)

  -- `Drop for Receiver`
  unfoldable pub drop : Shared T → Receiver → Shared T
  unfolding decrement_receivers_count
  drop s r = decrement_receivers_count s
