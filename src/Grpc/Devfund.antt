-- ===== src/Grpc/Devfund.antt =====
-- How many templates are asked for in the devfund's name, and when a block is mined.
use cryptix_miner_test.Base.{
  ℕ, ◌+◌, ◌<◌, ap₂, arith, if◌then◌else◌, leb, ltb, refl, suc, zero, ◌∙◌, ◌≡◌, List, some,
}
use cryptix_miner_test.Base.Cycle.{turns, turns_cycle}
use cryptix_miner_test.Grpc.{CryptixdHandler, next_template, pay_address}

-- Of the next n templates, how many are asked for with this address.
unfoldable pub dev_turns : ℕ → CryptixdHandler → ℕ
dev_turns zero h = 0
dev_turns (suc n) h =
    (if leb h.block_template_ctr h.devfund_percent then 1 else 0) + dev_turns n (next_template h)

dev_turns-eq-turns :
    (n : ℕ) (h : CryptixdHandler)
    → dev_turns n h ≡ turns (h.devfund_percent + 1) n h.block_template_ctr
unfolding dev_turns turns
dev_turns-eq-turns zero h = refl
dev_turns-eq-turns (suc n) h = ap₂ ◌+◌ first (dev_turns-eq-turns n (next_template h))
  where
    first :
        ◌≡◌ {A = ℕ}
          (if leb h.block_template_ctr h.devfund_percent then 1 else 0)
          (if ltb h.block_template_ctr (h.devfund_percent + 1) then 1 else 0)
    first = ground arith

-- With a devfund address, the request goes out in the devfund's name when the counter is at most
-- `devfund_percent`, so of 10000 requests in a row `devfund_percent + 1` do.
pub grpc_dev_turns_cycle :
    (h : CryptixdHandler) (address : List ℕ)
    → h.devfund_address ≡ some address
    → h.block_template_ctr < 10_000
    → h.devfund_percent < 10_000
    → (pay_address h
        ≡ (if leb h.block_template_ctr h.devfund_percent then address else h.miner_address))
      × (dev_turns 10_000 h ≡ h.devfund_percent + 1)
unfolding pay_address
grpc_dev_turns_cycle h address e lt le = (rw (pay_address, e) refl, cycle)
  where
    cycle : dev_turns 10_000 h ≡ h.devfund_percent + 1
    cycle =
        dev_turns-eq-turns 10_000 h
        ∙ turns_cycle (h.devfund_percent + 1) 10_000 h.block_template_ctr refl lt (omega arith)
