-- ===== src/Approvals/Tests.antt =====
-- An allowance of five units to 0xbb, and a call of 0xbb where it is listed.
use mathlib.Core.List.{Memᴰ}
use Prim.Native.String
use presign.Prelude.{◌≡◌, refl, String, false, some, none, [], ◌∷◌, arith, lower, string_eq}
use presign.Types.{StateDiff, AccountDiff, low, high, value, field}
use presign.JsMap.{get, unique}
use presign.Mappings.{
  nested_slot, nested_mapping_entries, transaction_addresses, all_addresses, calldata_addresses,
}
use presign.Mappings.Tests.{plain_viem, digits}
use presign.Effects.{value_effects, token_effects, token_effect, move_slots, move_slot, storage}
use presign.Incidents.{address_list, to_incident_registry, static_registry}
use presign.Engine.{
  VerdictEngine, evaluate, judge, tier_of, fold_tier, higher, capped, contribution, collect,
  collect_one, note_revert, outcome_of, context,
}
use presign.Engine.Tests.{engine, diff, plain_tx}
use presign.Approvals.{
  Options, default_options, new_rule, reached_listed_addresses, reached_addresses, listed_findings,
  basis_of, uint_result,
}
use presign.Approvals.Evaluate as R1
use presign.Approvals.Evaluate.{unlimited_approval, accounts_findings, sender_allowances, written}
use presign.Approvals.Budgets.{IsBudget, low_budgets}
use presign.Approvals.Listed.{listed_reached_high}

abbrev pad : String → String
pad address = String.◌++◌ "0x" address

abbrev engine_of : Options → StateDiff → VerdictEngine
engine_of o d = record engine {
  simulator = record engine.simulator { simulate = λ tx. value d };
  rules = unlimited_approval plain_viem pad o ∷ [];
}

abbrev listing : Options
listing = record default_options { incident_registry = address_list ("0xBB" ∷ []) }

listed_verdict :
    evaluate plain_viem (engine_of listing diff) plain_tx
    ≡ value (judge plain_viem (engine_of listing diff) plain_tx diff)
unfolding evaluate
listed_verdict = refl

listed_reached_high_example : (judge plain_viem (engine_of listing diff) plain_tx diff).tier ≡ high
unfolding lower transaction_addresses all_addresses calldata_addresses unique accounts_findings
    new_rule to_incident_registry static_registry
listed_reached_high_example =
    listed_reached_high plain_viem pad (engine_of listing diff) plain_tx 1 diff
      (judge plain_viem (engine_of listing diff) plain_tx diff) listing "0xbb" [] refl refl refl
      listed_verdict (Memᴰ.head refl) refl refl refl refl refl

abbrev slot : String
slot = nested_slot plain_viem "0xaa" "0xbb" 2

abbrev token : AccountDiff
token = record { balance = none; nonce = none; code = none; storage = some ((slot, 5) ∷ []) }

abbrev word_of_thousand : String
word_of_thousand = "0x00000000000000000000000000000000000000000000000000000000000003e8"

abbrev approving : StateDiff
approving = record diff { post = ("0xcc", token) ∷ [] }

-- The token answers a thousand for its supply and for the sender's balance.
abbrev answering : VerdictEngine
answering =
    let plain = engine_of default_options approving in
    record plain {
      simulator = record plain.simulator {
        call = λ address calldata. value (some word_of_thousand);
      };
    }

approving_verdict :
    evaluate plain_viem answering plain_tx ≡ value (judge plain_viem answering plain_tx approving)
unfolding evaluate
approving_verdict = refl

proven :
    get (lower slot) (
      sender_allowances plain_viem pad
        (new_rule default_options)
        (context plain_viem answering plain_tx approving))
    ≡ some (record { key = "0xbb"; mapping_slot = 2 })
unfolding get sender_allowances nested_mapping_entries nested_slot digits lower
    transaction_addresses all_addresses calldata_addresses unique context new_rule
proven = refl

approving_low : (judge plain_viem answering plain_tx approving).tier ≡ low
unfolding judge tier_of fold_tier higher capped contribution collect collect_one note_revert
    outcome_of field R1.evaluate R1.findings_of_writes accounts_findings R1.slots_findings
    R1.write_findings R1.spender_findings R1.classify R1.classify_allowance sender_allowances get
    nested_mapping_entries nested_slot digits lower transaction_addresses all_addresses
    calldata_addresses unique context new_rule to_incident_registry static_registry basis_of
    uint_result reached_listed_addresses reached_addresses listed_findings value_effects
    token_effects token_effect move_slots move_slot storage
approving_low = refl

low_budgets_example :
    ((transaction_addresses plain_tx approving).truncated ≡ false)
    × ((new_rule default_options).incidents.has "0xbb" ≡ false)
    × IsBudget plain_viem pad (context plain_viem answering plain_tx approving) "0xcc" "0xaa" 5
unfolding lower new_rule
low_budgets_example =
    low_budgets plain_viem pad answering plain_tx 1 approving
      (judge plain_viem answering plain_tx approving) default_options "0xcc" slot token 5
      (record { key = "0xbb"; mapping_slot = 2 }) refl refl approving_verdict (Memᴰ.head refl)
      approving_low (Memᴰ.head refl) (Memᴰ.head refl) (λ e. omega (arith, e)) proven refl
