-- ===== src/Cli.antt =====
-- src/cli.rs and src/main.rs: the options, what they are made into, and which client they start.
pub mod Devfund
pub mod Address
pub mod Client
use cryptix_miner_test.Base.{
  Bool, ◌%◌, ◌&&◌, ◌*◌, ◌+◌, ◌++◌, ◌==◌, List, Option, [], ◌^◌, drop, if◌then◌else◌, leb, length,
  ltb, none, not, some, ◌||◌, ℕ, ◌∷◌,
}
use cryptix_miner_test.Base.Text.{codes}
use cryptix_miner_test.Grpc.{CryptixdHandler, connect, add_devfund}
use cryptix_miner_test.Base.Ascii.{
  contains, decimal_u16, eq_text, parse_u16, split, split_once, starts_with,
}

-- `Opt`
pub record Opt : Type 0 where
  pub debug : Bool
  pub mining_address : List ℕ
  pub cryptixd_address : List ℕ
  pub devfund_percent : ℕ
  pub port : Option ℕ
  pub testnet : Bool
  pub num_threads : Option ℕ
  pub mine_when_not_synced : Bool
  pub devfund_address : List ℕ

-- The end of `parse_devfund_percent`, from the two parts on.
unfoldable pub percent_of_parts : List ℕ → List ℕ → Option ℕ
percent_of_parts prefix postfix =
    if ltb 2 (length prefix) || ltb 2 (length postfix) then none else elim (parse_u16 postfix) [
      | none ↦ none
      | some after ↦ elim (parse_u16 prefix) [
        | none ↦ none
        | some before ↦
            if leb 100 before || leb 100 after then none else some ((before * 100 + after) % 2 ^ 16)
      ]
    ]

-- What it does with the first part and the others.
unfoldable pub percent_of_split : List ℕ × List (List ℕ) → Option ℕ
percent_of_split (prefix, []) = percent_of_parts prefix (b'0' ∷ [])
percent_of_split (prefix, postfix ∷ []) = percent_of_parts prefix postfix
percent_of_split (prefix, postfix ∷ third ∷ others) = none

-- `parse_devfund_percent`; `none` is its error.
unfoldable pub parse_devfund_percent : List ℕ → Option ℕ
unfolding percent_of_split
parse_devfund_percent s = percent_of_split (split b'.' s)

-- `port`, which remembers the default.
unfoldable pub port : Opt → Opt × ℕ
port self = elim self.port [
  | some p ↦ (self, p)
  | none ↦ let p = if self.testnet then 19202 else 19201 in (record self { port = some p }, p)
]

-- The two parts of an address, with the port for one that has none.
abbrev pub host_and_port : List ℕ → List ℕ → List ℕ × List ℕ
host_and_port address port_text = elim (split_once b':' address) [
  | some parts ↦ parts
  | none ↦ (address, port_text)
]

-- The address part of `process`.
unfoldable pub process_address : Opt → Opt
unfolding port
process_address self =
    let address = self.cryptixd_address in
    let (self', p) = port self in
    if contains (codes "://") address
    then self
    else let (cryptixd, port_text) = host_and_port address (decimal_u16 p) in
      record self' { cryptixd_address = codes "grpc://" ++ (cryptixd ++ (codes ":" ++ port_text)) }

abbrev pub or_local : List ℕ → List ℕ
or_local [] = codes "127.0.0.1"
or_local (c ∷ cs) = c ∷ cs

abbrev pub or_zero : Option ℕ → ℕ
or_zero none = 0
or_zero (some n) = n

-- The devfund's address of the source.
abbrev pub devfund : List ℕ
devfund = codes "cryptix:qrjefk2r8wp607rmyvxmgjansqcwugjazpu2kk2r7057gltxetdvk8gl9fs0w"

-- `address.split(':').next()`
abbrev pub network : List ℕ → List ℕ
network address = (split b':' address).0

-- `Opt::process`
unfoldable pub process : Opt → Opt
unfolding process_address
process self =
    let self' =
      process_address (record self { cryptixd_address = or_local self.cryptixd_address }) in
    record self' {
      num_threads = some (or_zero self'.num_threads);
      devfund_address = devfund;
      devfund_percent =
          if eq_text (network self'.mining_address) (network devfund)
          then self'.devfund_percent
          else 0;
    }

-- The client that `get_client` connects, and the address that it is given.
pub data Connection : Type 0 where
  stratum : List ℕ → Connection
  grpc : List ℕ → Connection
  unknown_schema : Connection

-- `split_once("://")`, whose second part is kept.
abbrev pub after_schema : List ℕ → List ℕ
after_schema [] = []
after_schema (c ∷ cs) =
    let rest = after_schema cs in
    if starts_with (codes "://") (c ∷ cs) then drop 3 (c ∷ cs) else rest

-- `get_client`
unfoldable pub get_client : List ℕ → Connection
get_client address =
    if starts_with (codes "stratum+tcp://") address
    then stratum (after_schema address)
    else if starts_with (codes "grpc://") address
    then grpc address
    else unknown_schema

-- The test of `main` after the plugins have taken their options: whether it goes on.
unfoldable pub has_workers : ℕ → Opt → Bool
has_workers worker_count opt = not ((worker_count == 0) && (or_zero opt.num_threads == 0))

-- The client of a node as `client_main` starts it, with the devfund of the options.
unfoldable pub node_client : Opt → ℕ → CryptixdHandler
unfolding connect add_devfund
node_client opt block_template_ctr =
    let client = connect opt.mining_address opt.mine_when_not_synced block_template_ctr in
    if ltb 0 opt.devfund_percent
    then add_devfund client opt.devfund_address opt.devfund_percent
    else client
