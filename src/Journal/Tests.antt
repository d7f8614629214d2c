-- ===== src/Journal/Tests.antt =====
-- The journal of one verdict.
use presign.Prelude.{◌≡◌, refl, true, false, none, some, List, [], ◌∷◌, string_eq}
use presign.Types.{UnsignedTransaction, Verdict, Finding, medium, info, warning}
use presign.Broker.{commitment_of}
use presign.Journal.{to_entry}
use presign.Journal.Publishes.{Recording, to_entry-commitment}

abbrev told_tx : UnsignedTransaction
told_tx = record { from = "0xAA"; to = none; value = 5; calldata = "0x"; chain_id = 1 }

abbrev warned : Finding
warned = record {
  rule_id = "R4";
  standing = false;
  severity = warning;
  title = "t";
  detail = "d";
  evidence = [];
}

abbrev told : Verdict
told = record {
  tier = medium;
  action = "escalate";
  findings = record warned { severity = info; rule_id = "R1" } ∷ warned ∷ warned ∷ [];
  provenance = record {
    simulated_at_block = some 9;
    simulated_block_age = none;
    chain_id = 1;
    lists = [];
    sources = [];
    unavailable_rules = [];
  };
  effects = record { observed = true; eth_out = 0; eth_recipients = []; tokens_out = [] };
  evaluated_at = 100;
}

told_rules : (to_entry (λ s. s) told_tx told "salt").rules ≡ "R4" ∷ []
unfolding to_entry
told_rules = refl

to_entry-commitment_example :
    (to_entry (λ s. s) told_tx told "salt").tx_commitment ≡ commitment_of (λ s. s) told_tx "salt"
to_entry-commitment_example = to_entry-commitment (λ s. s) told_tx told "salt"

abbrev calls : List Recording
calls =
    record { fresh = "n"; transaction = told_tx; verdict = told; given = none }
    ∷ record { fresh = "m"; transaction = told_tx; verdict = told; given = some "salt" }
    ∷ []
