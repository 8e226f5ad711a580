-- ===== src/Examples/CliCases.antt =====
-- The options at concrete inputs.
use cryptix_miner_test.Base.{◌+◌, ◌≡◌, arith, false, none, refl, some, if◌then◌else◌, leb}
use cryptix_miner_test.Base.Text.{codes}
use cryptix_miner_test.Grpc.Devfund.{dev_turns}
use cryptix_miner_test.Base.Ascii.{decimal_u16}
use cryptix_miner_test.Base.Ascii.{parse_u16, digits_u16}
use cryptix_miner_test.Grpc.{pay_address}
use cryptix_miner_test.Cli.{devfund, percent_of_split, percent_of_parts, Opt, parse_devfund_percent}
use cryptix_miner_test.Cli.Devfund.{percent_text, parse_devfund_percent-percent_text}
use cryptix_miner_test.Cli.Client.{started, node_client-dev_turns}

parse_devfund_percent-percent_text_example : parse_devfund_percent (percent_text 105) ≡ some 105
parse_devfund_percent-percent_text_example = parse_devfund_percent-percent_text 105 (omega arith)

-- The text of 105 hundredths has one digit after the dot.
one_digit : percent_text 105 ≡ codes "1.5"
unfolding decimal_u16
one_digit = refl

abbrev opt : Opt
opt = record {
  debug = false;
  mining_address = codes "cryptix:qz";
  cryptixd_address = codes "pool.example";
  devfund_percent = 200;
  port = none;
  testnet = false;
  num_threads = none;
  mine_when_not_synced = false;
  devfund_address = codes "";
}

node_client-dev_turns_example :
    (pay_address (started opt 150) ≡ (if leb 150 200 then devfund else codes "cryptix:qz"))
    × (dev_turns 10_000 (started opt 150) ≡ 200 + 1)
node_client-dev_turns_example =
    node_client-dev_turns opt (codes "2.0") 150 refl
      (unfold parse_devfund_percent percent_of_split percent_of_parts parse_u16 digits_u16 in refl)
      (omega arith) (omega arith)
