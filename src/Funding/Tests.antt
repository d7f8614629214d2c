-- ===== src/Funding/Tests.antt =====
-- A process that may spend 15000 and is asked for 10000 twice, and its ledger.
use presign.Prelude.{
  inl, ◌+◌, ◌≤◌, ◌≡◌, ◌≢◌, ◌⊎◌, refl, true, some, none, [], ◌∷◌, arith, string_eq,
}
use presign.Types.{value, rejected}
use presign.Funding.{
  Decoders, Paying, Response, PaymentRecord, fetched, paying, spend_limit_error, totals, or_zero,
}
use presign.JsMap.{get}
use presign.Funding.Sending.{Turn, send, send_all}
use presign.Funding.Spending.{signed_over, send_all_spend, send_refused, totals_paid, paid_in}
use presign.Funding.Choices.{
  ChooseOptions, studio_key, x402, choose_funding, choose_unforced, IsPaying,
  choose_funding_honours, x402_choice, choose_without_key,
}

abbrev pub decoders : Decoders
decoders = record {
  first_accepted =
      λ header. value (some (record { amount = 10000; asset = "USDC"; network = "base" }));
  error_text = λ header. value none;
  settlement =
      λ header. value (record { success = true; network = none; transaction = some "0x1" });
}

abbrev due : Response
due = record { status = 402; payment_required = some "h"; payment_response = none }

abbrev paid : Response
paid = record { status = 200; payment_required = none; payment_response = some "s" }

abbrev paid_turn : Turn
paid_turn = record {
  url = "g/x402/deployments/id/Qm1";
  events = fetched due ∷ paying 10000 true ∷ fetched paid ∷ [];
  ending = value paid;
  now = 0;
}

abbrev aborted_turn : Turn
aborted_turn = record {
  url = "g/x402/deployments/id/Qm2";
  events = fetched due ∷ paying 10000 true ∷ [];
  ending = rejected "payment creation aborted";
  now = 0;
}

abbrev start : Paying
start = record {
  max_total = 15000;
  committed = 0;
  signing = none;
  refusal = none;
  manifests = [];
  ledger = [];
}

send_all_spend_example :
    ((send_all decoders (paid_turn ∷ aborted_turn ∷ []) start).committed
      ≡ 0 + signed_over decoders (paid_turn ∷ aborted_turn ∷ []) start)
    × (0 + signed_over decoders (paid_turn ∷ aborted_turn ∷ []) start ≤ 15000)
send_all_spend_example = send_all_spend decoders (paid_turn ∷ aborted_turn ∷ []) start (omega arith)

abbrev later : Paying
later = record start { committed = 10000 }

send_refused_example :
    ((send decoders aborted_turn later).0 ≡ rejected (spend_limit_error 10000 15000 10000))
    × ((send decoders aborted_turn later).1.committed ≡ 10000)
    × ((send decoders aborted_turn later).1.ledger ≡ [])
send_refused_example =
    send_refused decoders aborted_turn later due 10000 true "payment creation aborted" refl refl
      (omega arith)

abbrev payment : PaymentRecord
payment = record {
  deployment_id = "Qm1";
  amount = 10000;
  display = "0.01 USDC";
  asset = "USDC";
  network = "base";
  paid_at = "1970-01-01T00:00:00.000Z";
  transaction = none;
}

totals_paid_example :
    or_zero (get "base:USDC" (totals (payment ∷ payment ∷ [])))
    ≡ paid_in "base:USDC" (payment ∷ payment ∷ [])
totals_paid_example = totals_paid "base:USDC" (payment ∷ payment ∷ [])

abbrev only_key : ChooseOptions
only_key = record { studio_api_key = some "k"; payer_key = some "p"; prefer = none }

key_choice :
    choose_funding (λ key. value "0x1") only_key
    ≡ value (record {
      kind = studio_key;
      reason = "using the Studio API key (set GATEWAY_FUNDING=x402 to pay per query instead)";
    })
unfolding choose_funding choose_unforced
key_choice = refl

choose_funding_honours_example :
    (IsPaying
        (λ key. value "0x1")
        only_key
        (record {
          kind = studio_key;
          reason = "using the Studio API key (set GATEWAY_FUNDING=x402 to pay per query instead)";
        })
      × ((only_key.prefer ≡ some x402)
          ⊎ ((only_key.prefer ≡ none) × (only_key.studio_api_key ≡ none))))
    ⊎ ((studio_key ≡ studio_key) × (only_key.prefer ≢ some x402) × (only_key.studio_api_key ≢ none))
choose_funding_honours_example =
    choose_funding_honours (λ key. value "0x1") only_key _ key_choice (inl (λ e. cc e))

-- Asked to force the Studio key where only a payer key is configured, the choice is to pay.
forced_key_pays :
    choose_funding
      (λ key. value "0x1")
      (record { studio_api_key = none; payer_key = some "p"; prefer = some studio_key })
    ≡ value (record {
      kind = x402;
      reason =
          "paying per query over x402 on Base from 0x1 — no Studio key is configured, which is the case x402 exists for";
    })
unfolding choose_funding choose_unforced choose_without_key x402_choice
forced_key_pays = refl
