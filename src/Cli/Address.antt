-- ===== src/Cli/Address.antt =====
-- src/cli.rs and src/main.rs: the address of the node or the pool.
use cryptix_miner_test.Base.{
  Bool, ◌++◌, List, if◌then◌else◌, none, refl, some, ℕ, ◌≡◌, Bool-cases, Option-cases, inl, inr,
}
use cryptix_miner_test.Base.Text.{codes}
use cryptix_miner_test.Base.Ascii.{contains, decimal_u16}
use cryptix_miner_test.Cli.{
  Opt, port, process, process_address, or_local, host_and_port, get_client, grpc,
}

abbrev port_of : Opt → ℕ
port_of opt = elim opt.port [ some p ↦ p | none ↦ if opt.testnet then 19202 else 19201 ]

abbrev has_schema : Opt → Bool
has_schema opt = contains (codes "://") (or_local opt.cryptixd_address)

-- The address that is made of one without a schema.
abbrev grpc_address : Opt → List ℕ
grpc_address opt =
    let (host, port_text) =
      host_and_port (or_local opt.cryptixd_address) (decimal_u16 (port_of opt)) in
    codes "grpc://" ++ (host ++ (codes ":" ++ port_text))

port-value : (opt : Opt) → (port opt).1 ≡ port_of opt
unfolding port
port-value opt = elim (Option-cases opt.port) [
  | inl default ↦ rw (port, default) refl
  | inr (p, given) ↦ rw (port, given) refl
]

grpc_address-get_client : (opt : Opt) → get_client (grpc_address opt) ≡ grpc (grpc_address opt)
unfolding get_client
grpc_address-get_client opt = refl

process_address-value :
    (opt : Opt)
    → (process_address
        (record opt { cryptixd_address = or_local opt.cryptixd_address })).cryptixd_address
      ≡ (if has_schema opt then or_local opt.cryptixd_address else grpc_address opt)
unfolding process_address
process_address-value opt = elim (Bool-cases (has_schema opt)) [
  | inl full ↦ rw (process_address, full) refl
  | inr bare ↦
      rw
        (
          process_address,
          bare,
          port-value (record opt { cryptixd_address = or_local opt.cryptixd_address }),
        )
        refl
]

-- `process` keeps an address that has a schema, the empty one stands for this host, and of one
-- without a schema it makes an address of a node, which `get_client` takes for one: the port is the
-- one that the address names, or else the option's, or else the network's.
pub process-get_client :
    (opt : Opt)
    → ((process opt).cryptixd_address
        ≡ (if has_schema opt then or_local opt.cryptixd_address else grpc_address opt))
      × (get_client (grpc_address opt) ≡ grpc (grpc_address opt))
unfolding process
process-get_client opt = (process_address-value opt, grpc_address-get_client opt)
