-- ===== src/Engine/Tests.antt =====
-- An engine with one rule, which warns about every call of 0xbad.
use presign.Prelude.{◌≡◌, ◌↔◌, refl, true, none, some, [], ◌∷◌, ◌++◌, All, string_eq}
use presign.Types.{
  UnsignedTransaction, low, unavailable, critical, info, Finding, StateDiff, Rule, evaluated, value,
  rejected, field,
}
use presign.Mappings.Tests.{plain_viem}
use presign.Engine.{
  default_tier_policy, contribution, tier_of, VerdictEngine, context, judge, evaluate, refusal,
  fold_tier, higher, capped, collect, collect_one, note_revert, outcome_of,
}
use presign.Engine.Evaluate.{
  all_findings, all_unavailable, revert_entry, IsQuiet, judge_accounts, evaluate-low_iff,
}

abbrev finding : Finding
finding = record {
  rule_id = "R2";
  standing = true;
  severity = critical;
  title = "t";
  detail = "d";
  evidence = [];
}

abbrev quiet : Rule
quiet = record {
  id = "R1";
  evaluate = λ ctx. value (evaluated (record finding { severity = info } ∷ []) [] []);
}

abbrev broken : Rule
broken = record { id = "R4"; evaluate = λ ctx. rejected "rpc down" }

abbrev pub diff : StateDiff
diff = record {
  pre = [];
  post = [];
  block_number = 9;
  block_timestamp = none;
  revert_reason = none;
}

abbrev pub engine : VerdictEngine
engine = record {
  simulator = record {
    chain_id = value 1;
    simulate = λ tx. value diff;
    get_storage_at = λ a s. value 0;
    get_code = λ a. value "0x";
    call = λ a d. value none;
  };
  rules = quiet ∷ [];
  policy = default_tier_policy;
  now = 1000;
}

abbrev pub plain_tx : UnsignedTransaction
plain_tx = record { from = "0xaa"; to = some "0xbb"; value = 0; calldata = "0x"; chain_id = 1 }

quiet_run : (judge plain_viem engine plain_tx diff).tier ≡ low
unfolding judge tier_of fold_tier higher capped contribution collect collect_one note_revert
    outcome_of field
quiet_run = refl

broken_run :
    (judge plain_viem (record engine { rules = quiet ∷ broken ∷ [] }) plain_tx diff).tier
    ≡ unavailable
unfolding judge tier_of fold_tier higher capped contribution collect collect_one note_revert
    outcome_of field
broken_run = refl

judge_accounts_example :
    ((judge plain_viem engine plain_tx diff).findings
      ≡ all_findings (context plain_viem engine plain_tx diff) engine.rules)
    × ((judge plain_viem engine plain_tx diff).provenance.unavailable_rules
        ≡ all_unavailable (context plain_viem engine plain_tx diff) engine.rules
          ++ revert_entry diff.revert_reason)
judge_accounts_example = judge_accounts plain_viem engine plain_tx diff

own_chain : evaluate plain_viem engine plain_tx ≡ value (judge plain_viem engine plain_tx diff)
unfolding evaluate
own_chain = refl

evaluate-low_iff_example : ((judge plain_viem engine plain_tx diff).tier ≡ low) ↔ (
    (plain_tx.chain_id ≡ 1)
    × (diff.revert_reason ≡ none)
    × All (IsQuiet engine.policy (context plain_viem engine plain_tx diff)) engine.rules)
evaluate-low_iff_example =
    evaluate-low_iff plain_viem engine plain_tx 1 diff (judge plain_viem engine plain_tx diff) refl
      refl own_chain

abbrev foreign_tx : UnsignedTransaction
foreign_tx = record plain_tx { chain_id = 2 }

other_chain : evaluate plain_viem engine foreign_tx ≡ value (refusal engine 1 foreign_tx)
unfolding evaluate
other_chain = refl
