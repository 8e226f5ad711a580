-- ===== src/Examples/ShareCases.antt =====
-- The shares of a concrete conversation, and of a connection that takes over the statistics.
use cryptix_miner_test.Base.{
  ◌-◌, List, [], ◌^◌, arith, false, none, refl, some, suc, true, ℕ, ◌∷◌, ◌≡◌, map,
}
use cryptix_miner_test.Base.Text.{codes}
use cryptix_miner_test.Pow.{PartialBlock, partial_block}
use cryptix_miner_test.Stratum.{ShareStats, StratumHandler, done}
use cryptix_miner_test.Stratum.Codec.{StratumLine, job_not_found, plain, stratum_result}
use cryptix_miner_test.Stratum.Shares.{accept, count_error, insert, lookup, reject, remove, submit}
use cryptix_miner_test.Stratum.Shares.Accounting.{IsMap, accounted}
use cryptix_miner_test.Stratum.Connect.{connect, reconnect_overwrites}
use cryptix_miner_test.Stratum.Session.{
  Environment, dispatch, handle_message, handle_result, register,
}
use cryptix_miner_test.Stratum.Session.Conserved.{
  lines_sent, ids_from, Conserved, Event, Sound, converse, line, share, shares_of, step,
}
use cryptix_miner_test.Stratum.Session.Conversation.{converse-Conserved}
use cryptix_miner_test.Examples.StratumCases.{handler}

abbrev share_seed : ℕ → PartialBlock
share_seed n = record {
  id = codes "job";
  header_hash = record { w0 = 1; w1 = 2; w2 = 3; w3 = 4 };
  timestamp = 1;
  nonce = n;
  target = record { w0 = 0; w1 = 0; w2 = 0; w3 = 9 };
  nonce_mask = 2 ^ 64 - 1;
  nonce_fixed = 0;
  hash = none;
}

abbrev share_env : Environment
share_env = record {
  Miner = ℕ;
  process_block = λ m block. (suc m, done);
  hex_decode = λ text. none;
  overflow_checks = false;
}

abbrev answer : ℕ → StratumLine
answer id = record {
  id = some id;
  payload = stratum_result (plain (some true));
  jsonrpc = none;
  error = none;
}

abbrev refusal : ℕ → StratumLine
refusal id = record {
  id = some id;
  payload = stratum_result (plain none);
  jsonrpc = none;
  error = some (record { error_code = job_not_found; message = [] });
}

-- Two shares, of which the first is accepted, and one that waited before is stale.
abbrev events : List Event
events =
    share (share_seed 10)
    ∷ line (refusal 5)
    ∷ share (share_seed 11)
    ∷ line (answer 7)
    ∷ line (answer 7)
    ∷ []

handler-Sound : Sound handler
unfolding IsMap lookup
handler-Sound = record { is_map = (refl, (refl, tt)); unused = λ k le. ground arith }

goes_on : (converse share_env handler 0 events).2 ≡ done
unfolding converse step submit insert remove lookup accept reject count_error dispatch
    handle_message handle_result
goes_on = refl

converse-Conserved_example :
    Conserved handler (shares_of events) (converse share_env handler 0 events).0
    × (map (λ (l : StratumLine). l.id) (lines_sent share_env handler 0 events)
        ≡ ids_from 7 (shares_of events))
converse-Conserved_example =
    converse-Conserved share_env handler 0 events handler-Sound (omega arith) (omega arith) goes_on

abbrev old_stats : ShareStats
old_stats = record {
  accepted = 3;
  stale = 0;
  low_diff = 0;
  duplicate = 0;
  shares_pending = (2, codes "old") ∷ [];
}

reconnect_overwrites_example :
    let h = connect (codes "miner") false none 77 (some old_stats) in
    (h' h'' : StratumHandler) × (lines : List StratumLine) × (line : StratumLine) × (register
        (codes "v1")
        h
      ≡ some (h', lines))
    × (submit h' (partial_block (share_seed 10)) ≡ some (h'', line))
    × (lookup 2 h''.shares_stats.shares_pending ≡ some (codes "job"))
    × (accounted h''.shares_stats ≡ accounted old_stats)
reconnect_overwrites_example =
    reconnect_overwrites (codes "miner") false none 77 (codes "v1") (codes "old") old_stats
      (share_seed 10) (unfold IsMap lookup in (refl, tt)) (unfold lookup in refl)
