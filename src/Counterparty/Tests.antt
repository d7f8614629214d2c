-- ===== src/Counterparty/Tests.antt =====
-- A call of a contract without an index, deployed a thousand seconds ago, and of one that is indexed.
use mathlib.Core.List.{Memᴰ}
use presign.Prelude.{◌≡◌, refl, none, [], ◌∷◌, lower, arith}
use presign.Types.{low, high, value, field}
use presign.Capability.{DeploymentCandidate}
use presign.Origin.{deployed}
use presign.Mappings.Tests.{plain_viem}
use presign.Engine.{
  VerdictEngine, evaluate, judge, tier_of, fold_tier, higher, capped, contribution, collect,
  collect_one, note_revert, outcome_of, context,
}
use presign.Engine.Tests.{engine, diff, plain_tx}
use presign.Counterparty
use presign.Counterparty.{
  Options, unidentified_counterparty, chain_to_network, age_of, judge_code, judge_network,
  judge_indexing, delegate_of, unidentified_finding, describe_age, findings_for_codeless_target,
  selector_of,
}
use presign.Counterparty.Verdicts.{IsKnown, fresh_unindexed_high, low-IsKnown}

abbrev fresh : Options
fresh = record {
  find_indexing_deployments = λ address network. value [];
  origin_of = λ address. value (deployed 5 1000);
  fresh_deployment_seconds = 604800;
  now = 2000000;
}

abbrev candidate : DeploymentCandidate
candidate = record {
  deployment_id = "Qm1";
  subgraph_id = "s";
  display_name = "n";
  network = "mainnet";
  schema_family = none;
  protocol = none;
  contract_addresses = [];
  reliability = "1";
  query_url = "u";
  query_url_x402 = none;
}

abbrev indexed : Options
indexed = record fresh { find_indexing_deployments = λ address network. value (candidate ∷ []) }

abbrev engine_of : Options → VerdictEngine
engine_of o = record engine {
  simulator = record engine.simulator { get_code = λ address. value "0x6001" };
  rules = unidentified_counterparty o ∷ [];
}

fresh_verdict :
    evaluate plain_viem (engine_of fresh) plain_tx
    ≡ value (judge plain_viem (engine_of fresh) plain_tx diff)
unfolding evaluate
fresh_verdict = refl

fresh_unindexed_high_example : (judge plain_viem (engine_of fresh) plain_tx diff).tier ≡ high
unfolding lower chain_to_network age_of field
fresh_unindexed_high_example =
    fresh_unindexed_high plain_viem (engine_of fresh) plain_tx 1 diff
      (judge plain_viem (engine_of fresh) plain_tx diff) fresh "0xbb" "0x6001" "0xbb" "mainnet" 5
      1000 refl refl refl fresh_verdict (Memᴰ.head refl) refl refl refl refl refl refl refl
      (omega arith)

indexed_verdict :
    evaluate plain_viem (engine_of indexed) plain_tx
    ≡ value (judge plain_viem (engine_of indexed) plain_tx diff)
unfolding evaluate
indexed_verdict = refl

indexed_low : (judge plain_viem (engine_of indexed) plain_tx diff).tier ≡ low
unfolding judge tier_of fold_tier higher capped contribution collect collect_one note_revert
    outcome_of field Counterparty.evaluate judge_code judge_network judge_indexing chain_to_network
    lower delegate_of context
indexed_low = refl

low-IsKnown_example : IsKnown indexed 1 "0xbb"
unfolding lower field
low-IsKnown_example =
    low-IsKnown plain_viem (engine_of indexed) plain_tx 1 diff
      (judge plain_viem (engine_of indexed) plain_tx diff) indexed "0xbb" "0x6001" "0xbb" refl refl
      indexed_verdict (Memᴰ.head refl) refl refl refl refl indexed_low
