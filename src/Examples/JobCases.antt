-- ===== src/Examples/JobCases.antt =====
-- A run of the client with a pool at concrete options and lines.
use cryptix_miner_test.Base.{List, [], false, none, some, ℕ, ◌∷◌, Option}
use cryptix_miner_test.Base.Text.{codes}
use cryptix_miner_test.Cli.{Opt}
use cryptix_miner_test.Stratum.Codec.{
  StratumLine, mining_notify, mining_notify_short, stratum_command,
}

abbrev plain_id : ℕ → List ℕ
plain_id n = n ∷ []

abbrev pool_opt : Opt
pool_opt = record {
  debug = false;
  mining_address = codes "cryptix:a";
  cryptixd_address = codes "stratum+tcp://pool:1";
  devfund_percent = 200;
  port = none;
  testnet = false;
  num_threads = some 2;
  mine_when_not_synced = false;
  devfund_address = codes "cryptix:b";
}

abbrev cannot_decode : List ℕ → Option (List ℕ)
cannot_decode text = none

abbrev pool_lines : List (Option StratumLine)
pool_lines =
    some (record {
      id = none;
      payload = stratum_command (mining_notify (mining_notify_short (codes "j") 1 2 3 4 1000));
      jsonrpc = none;
      error = none;
    })
    ∷ []
