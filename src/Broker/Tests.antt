-- ===== src/Broker/Tests.antt =====
-- Concrete runs of the broker: a request of five wei to an allowlisted address.
use presign.Prelude.{◌≤◌, ◌≡◌, ◌↔◌, refl, String, true, some, [], ◌∷◌, arith, every, string_eq}
use presign.Types.{value}
use presign.Broker.{
  AssessedTransaction, SignatureFields, Signature, approved, Approver, Effects, Purchased, bought,
  BrokerPolicy, Broker, SignRequest, commitment_of, signed, signed_after_human_approval, Run,
  filled, bought_verdict, asked_device, agent_signed, sign_through_verdict, apply_policy,
  effective_tier, is_true, or_zero, or_nil, session_value_ceiling,
}
use presign.Broker.Policy.{eth_is_fine, token_is_fine, apply_policy-nil_iff}
use presign.Broker.Session.{serve, serve-spent}
use presign.Broker.Signing.{
  IsVouched, IsApproved, reasons_for, sign_through_verdict-signed, sign_through_verdict-IsApproved,
}
use presign.Broker.Refusals.{Untouched, sign_through_verdict-Untouched}

abbrev policy : BrokerPolicy
policy = record {
  allowed_recipients = "0xbb" ∷ [];
  max_eth_per_transaction = 6;
  max_eth_per_session = 9;
  max_fee = 100;
  max_priority_fee_per_gas = 3;
}

abbrev request : SignRequest
request = record { to = some "0xBB"; value = 5; calldata = "0x"; chain_id = 1 }

abbrev paid_tx : AssessedTransaction
paid_tx = record { from = "0xaa"; to = some "0xBB"; value = 5; calldata = "0x"; chain_id = 1 }

abbrev seen : Effects
seen = record {
  observed = some true;
  eth_out = some 5;
  eth_recipients = some ("0xBB" ∷ []);
  tokens_out = some [];
}

-- A purchase with a tier, bound to `paid_tx`.
abbrev purchase : String → Purchased
purchase tier = record {
  tier = tier;
  verdict = some (record { chain_id = some 1; effects = some seen });
  tx_commitment = some (commitment_of (λ s. s) paid_tx "salt");
  salt = some "salt";
}

abbrev device : Approver
device = record {
  address = "0xDD";
  request = λ u. value (approved (record { r = "1"; s = "2"; v = 27 }) true);
}

abbrev broker_for : String → Broker
broker_for tier = record {
  address = "0xaa";
  sign_transaction = λ u. value "0xraw";
  fill = λ t.
      value (record { nonce = 7; gas = 10; max_fee_per_gas = 4; max_priority_fee_per_gas = 2 });
  buy_verdict = λ t. value (bought (purchase tier));
  approver = some device;
  policy = policy;
  recover = λ u s. value "0xdd";
  sha256 = λ s. s;
}

abbrev start : Run
start = record { spent = 0; calls = [] }

abbrev after_low : Run
after_low = record { spent = 5; calls = filled ∷ bought_verdict ∷ agent_signed ∷ [] }

abbrev after_medium : Run
after_medium = record {
  spent = 5;
  calls = filled ∷ bought_verdict ∷ asked_device ∷ agent_signed ∷ [];
}

low_run :
    sign_through_verdict (broker_for "low") request start ≡ (value (signed "0xraw"), after_low)
unfolding sign_through_verdict
low_run = refl

medium_run :
    sign_through_verdict (broker_for "medium") request start
    ≡ (value (signed_after_human_approval "0xraw"), after_medium)
unfolding sign_through_verdict
medium_run = refl

-- The second request of five wei would pass the ceiling of nine.
second_run :
    (sign_through_verdict (broker_for "low") request after_low).0
    ≡ value (session_value_ceiling 5 5)
unfolding sign_through_verdict
second_run = refl

sign_through_verdict-signed_example :
    (fields : SignatureFields) × (p : Purchased) × IsVouched
      (broker_for "low")
      request
      start
      after_low
      "0xraw"
      fields
      p
    × (p.tier ≡ "low")
    × (reasons_for (broker_for "low") p ≡ [])
sign_through_verdict-signed_example =
    sign_through_verdict-signed (broker_for "low") request start after_low "0xraw" low_run

sign_through_verdict-IsApproved_example :
    (fields : SignatureFields) × (p : Purchased) × (a : Approver) × (g : Signature)
    × (from : String) × IsVouched (broker_for "medium") request start after_medium "0xraw" fields p
    × IsApproved (broker_for "medium") request fields a g from
    × (effective_tier p.tier (reasons_for (broker_for "medium") p) ≡ "medium")
sign_through_verdict-IsApproved_example =
    sign_through_verdict-IsApproved (broker_for "medium") request start after_medium "0xraw"
      medium_run

sign_through_verdict-Untouched_example :
    Untouched start (sign_through_verdict (broker_for "high") request start).1
sign_through_verdict-Untouched_example =
    sign_through_verdict-Untouched (broker_for "high") request start (purchase "high") refl
      (λ h. cc ((string_eq.equals_iff "high" "low").1 h))
      (λ h. cc ((string_eq.equals_iff "high" "medium").1 h))

serve-spent_example :
    (serve ((broker_for "low", request) ∷ (broker_for "low", request) ∷ []) start).spent ≤ 9
serve-spent_example =
    serve-spent 9 ((broker_for "low", request) ∷ (broker_for "low", request) ∷ []) start
      (refl, (refl, tt)) (omega arith)

apply_policy-nil_iff_example : ((apply_policy (some seen) policy).0 ≡ []) ↔ (
    (is_true seen.observed ≡ true)
    × (eth_is_fine policy (or_zero seen.eth_out) (or_nil seen.eth_recipients) ≡ true)
    × (every (token_is_fine policy) (or_nil seen.tokens_out) ≡ true))
apply_policy-nil_iff_example = apply_policy-nil_iff seen policy
