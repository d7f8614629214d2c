-- ===== src/Pipeline/Tests.antt =====
-- The pipeline with an engine that answers `medium`, and a human who approves.
use presign.Prelude.{ℕ, ◌≡◌, refl, String, true, ◌&&◌, none, some, []}
use presign.Types.{UnsignedTransaction, Verdict, value, medium}
use presign.Escalation.{decide_escalation}
use presign.Pipeline.{approved, PresignPipeline, signed_after_confirmation, run}
use presign.Pipeline.Order.{
  asks, refuses, allows, is_configured, is_refused, is_may_sign, run-decide_escalation,
}

abbrev escalated_tx : UnsignedTransaction
escalated_tx = record { from = "0xaa"; to = none; value = 5; calldata = "0x"; chain_id = 1 }

abbrev escalated : Verdict
escalated = record {
  tier = medium;
  action = "escalate";
  findings = [];
  provenance = record {
    simulated_at_block = some 9;
    simulated_block_age = none;
    chain_id = 1;
    lists = [];
    sources = [];
    unavailable_rules = [];
  };
  effects = record { observed = true; eth_out = 0; eth_recipients = []; tokens_out = [] };
  evaluated_at = 100;
}

abbrev pipeline : PresignPipeline ℕ String
pipeline = record {
  evaluate = λ t. value escalated;
  confirmation = some (λ s v. value (approved "0xsig" true));
}

human_signs : (run pipeline escalated_tx 7).0 ≡ value (signed_after_confirmation escalated "0xsig")
unfolding run
human_signs = refl

run-decide_escalation_example :
    ((run pipeline escalated_tx 7).1
      ≡ (asks (decide_escalation escalated) && is_configured pipeline.confirmation))
    × (is_refused (run pipeline escalated_tx 7).0 ≡ refuses (decide_escalation escalated))
    × (is_may_sign (run pipeline escalated_tx 7).0 ≡ allows (decide_escalation escalated))
run-decide_escalation_example = run-decide_escalation pipeline escalated_tx 7 escalated refl
