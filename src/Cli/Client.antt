-- ===== src/Cli/Client.antt =====
-- src/cli.rs, src/main.rs and src/client/grpc.rs together: whom the client that the options start
-- mines for.
use cryptix_miner_test.Base.{
  Bool, ◌+◌, ◌<◌, false, true, ℕ, ◌≡◌, ◌⊎◌, Bool-cases, List, Option-cases, ap, ap₂, arith,
  if◌then◌else◌, inl, inr, ltb, refl, ◌∙◌, leb, some,
}
use cryptix_miner_test.Base.Ascii.{contains, eq_text}
use cryptix_miner_test.Grpc.{CryptixdHandler, connect, add_devfund, pay_address}
use cryptix_miner_test.Grpc.Devfund.{dev_turns, grpc_dev_turns_cycle}
use cryptix_miner_test.Base.Text.{codes}
use cryptix_miner_test.Cli.Devfund.{parse_devfund_percent-lt}
use cryptix_miner_test.Cli.{
  parse_devfund_percent, port, or_local, Opt, process, process_address, node_client, network,
  devfund,
}

abbrev is_of_network : Opt → Bool
is_of_network opt = eq_text (network opt.mining_address) (network devfund)

-- The two fields that the client is made of do not depend on the address of the node.
abbrev IsKept : Opt → Opt → Type 0
IsKept opt opt' =
    (opt'.mining_address ≡ opt.mining_address) × (opt'.devfund_percent ≡ opt.devfund_percent)

port-IsKept : (opt : Opt) → IsKept opt (port opt).0
unfolding port
port-IsKept opt = elim (Option-cases opt.port) [
  | inl default ↦ rw (port, default) (refl, refl)
  | inr (p, given) ↦ rw (port, given) (refl, refl)
]

process_address-IsKept : (opt : Opt) → IsKept opt (process_address opt)
unfolding process_address
process_address-IsKept opt = elim (Bool-cases (contains (codes "://") opt.cryptixd_address)) [
  | inl full ↦ rw (process_address, full) (refl, refl)
  | inr bare ↦ rw (process_address, bare) (port-IsKept opt)
]

process-fields :
    (opt : Opt)
    → ((process opt).mining_address ≡ opt.mining_address)
      × ((process opt).devfund_percent ≡ (if is_of_network opt then opt.devfund_percent else 0))
unfolding process
process-fields opt =
    let (mining, percent) =
      process_address-IsKept (record opt { cryptixd_address = or_local opt.cryptixd_address }) in
    (
      mining,
      ap₂ (λ (m : List ℕ) (p : ℕ). if eq_text (network m) (network devfund) then p else 0) mining
          percent,
    )

node_client-connect :
    (opt : Opt) (ctr : ℕ)
    → opt.devfund_percent ≡ 0
    → node_client opt ctr ≡ connect opt.mining_address opt.mine_when_not_synced ctr
unfolding node_client
node_client-connect opt ctr e = rw (node_client, test) refl
  where
    test : ltb 0 opt.devfund_percent ≡ false
    test = ground (arith, e)

node_client-add_devfund :
    (opt : Opt) (ctr : ℕ)
    → 0 < opt.devfund_percent
    → node_client opt ctr
      ≡ add_devfund
          (connect opt.mining_address opt.mine_when_not_synced ctr)
          opt.devfund_address
          opt.devfund_percent
unfolding node_client
node_client-add_devfund opt ctr positive = rw (node_client, test) refl
  where
    test : ltb 0 opt.devfund_percent ≡ true
    test = ground (arith, positive)

-- The client of the processed options.
abbrev pub started : Opt → ℕ → CryptixdHandler
started opt ctr = node_client (process opt) ctr

-- With a percentage above 0 that the option was given, and a mining address of the devfund's
-- network, a template is asked for in the devfund's name while the counter is at most the
-- percentage, and in the miner's name otherwise: of 10000 in a row, `percent + 1` are the devfund's.
pub node_client-dev_turns :
    (opt : Opt) (text : List ℕ) (ctr : ℕ)
    → is_of_network opt ≡ true
    → parse_devfund_percent text ≡ some opt.devfund_percent
    → 0 < opt.devfund_percent
    → ctr < 10_000
    → (pay_address (started opt ctr)
        ≡ (if leb ctr opt.devfund_percent then devfund else opt.mining_address))
      × (dev_turns 10_000 (started opt ctr) ≡ opt.devfund_percent + 1)
unfolding process connect add_devfund
node_client-dev_turns opt text ctr same parsed positive lt = (
  ap pay_address is_client
      ∙ turns.0
      ∙ ap₂ (λ (p : ℕ) (m : List ℕ). if leb ctr p then devfund else m) kept (process-fields opt).0,
  ap (dev_turns 10_000) is_client ∙ turns.1 ∙ ap (λ (t : ℕ). t + 1) kept,
)
  where
    kept : (process opt).devfund_percent ≡ opt.devfund_percent
    kept = (process-fields opt).1 ∙ rw same refl

    below : opt.devfund_percent < 10_000
    below = parse_devfund_percent-lt text opt.devfund_percent parsed

    client : CryptixdHandler
    client =
        add_devfund (connect (process opt).mining_address (process opt).mine_when_not_synced ctr)
          (process opt).devfund_address (process opt).devfund_percent

    is_client : started opt ctr ≡ client
    is_client = node_client-add_devfund (process opt) ctr (omega (arith, kept, positive))

    turns :
        (pay_address client ≡ (
          if leb ctr (process opt).devfund_percent then devfund else (process opt).mining_address))
        × (dev_turns 10_000 client ≡ (process opt).devfund_percent + 1)
    turns = grpc_dev_turns_cycle client devfund refl lt (omega (arith, kept, below))

-- Without a percentage, or with a mining address of another network, all templates are asked for in
-- the miner's name.
pub node_client-miner_address :
    (opt : Opt) (ctr : ℕ)
    → (is_of_network opt ≡ false) ⊎ (opt.devfund_percent ≡ 0)
    → pay_address (started opt ctr) ≡ opt.mining_address
unfolding connect pay_address
node_client-miner_address opt ctr h =
    ap pay_address (node_client-connect (process opt) ctr off) ∙ (process-fields opt).0
  where
    off : (process opt).devfund_percent ≡ 0
    off =
        (process-fields opt).1
        ∙ elim h [ inl other ↦ rw other refl | inr none_given ↦ ground (arith, none_given) ]
