-- ===== src/Watch/Delivery.antt =====
-- src/watch.rs: what a receiver observes after a send, and in a wait.
use cryptix_miner_test.Base.{◌<◌, ◌^◌, arith, none, refl, some, true, ◌≡◌}
use cryptix_miner_test.Watch.{
  Shared, Receiver, ok, channel_closed, send, get_changed, wait_for_change, drop_sender,
}

module _ {T : Type 0} where
  -- While the sender and a receiver live, a receiver that has seen everything gets the value of
  -- the next send from `get_changed`, and `get_changed` has nothing more for it after that.
  pub send-get_changed :
      (s : Shared T) (r : Receiver) (v : T)
      → s.sender_alive ≡ true
      → 0 < s.receivers_count
      → s.id < 2 ^ 64
      → r.last_observed ≡ s.id
      → let s' = (send s v).0 in
        let r' = (get_changed s' r).0 in
        ((send s v).1 ≡ ok tt)
        × ((get_changed s' r).1 ≡ ok (some v))
        × ((get_changed s' r').1 ≡ ok none)
  unfolding send get_changed
  send-get_changed s r v alive pos lt current = ground arith

  -- A send without a receiver is refused and changes nothing; one with a receiver changes the
  -- value and the id.
  pub send-refused : (s : Shared T) (v : T) → s.receivers_count ≡ 0 → send s v ≡ (s, channel_closed)
  unfolding send
  send-refused s v e = ground arith

  -- Once the sender is gone every wait and every poll ends with an error.
  pub drop_sender-closed :
      (s at_call locked : Shared T) (r : Receiver)
      → ((get_changed (drop_sender s) r).1 ≡ channel_closed)
        × ((wait_for_change (drop_sender s) locked at_call r).1 ≡ channel_closed)
  unfolding get_changed wait_for_change drop_sender
  drop_sender-closed s at_call locked r = (refl, refl)
