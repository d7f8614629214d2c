-- ===== src/Funding/Spending.antt =====
-- What a process signs away over its requests, and what its ledger says.
use presign.Prelude.{
  ℕ, ◌+◌, ◌≤◌, ◌<◌, ◌≡◌, refl, ap, ◌∙◌, String, Bool, true, Option, none, some, List, [], ◌∷◌,
  arith, ltb, eqb, ◌==◌, if◌then◌else◌, inl, inr, Bool-cases, Option-cases, string_eq,
}
use presign.Types.{Settled, value, rejected, Settled-cases}
use presign.JsMap.{get, put}
use presign.JsMap.Laws.{get-put}
use presign.Funding.{
  Decoders, Paying, PaymentLedger, Event, fetched, paying, Response, handle, handle_all,
  before_payment, after_payment, Settlement, observe, first_requirement, asset_key, add_totals,
  totals, or_zero, spend_limit_error,
}
use presign.Funding.Sending.{Turn, send, send_all, after_turn, after_response, settle}

-- What one event signs: the amount, where the limit allows it and the client signs.
abbrev pub signed_by : Event → Paying → ℕ
signed_by (fetched response) s = 0
signed_by (paying asked signs) s =
    if ltb s.max_total (s.committed + asked) then 0 else if signs then asked else 0

abbrev pub signed_in : Decoders → String → List Event → Paying → ℕ
signed_in decoders url [] s = 0
signed_in decoders url (e ∷ es) s =
    signed_by e s + signed_in decoders url es (handle decoders url e s)

-- Everything that the requests sign, one after another.
abbrev pub signed_over : Decoders → List Turn → Paying → ℕ
signed_over decoders [] s = 0
signed_over decoders (turn ∷ turns) s =
    signed_in decoders turn.url turn.events (record s { refusal = none })
    + signed_over decoders turns (send decoders turn s).1

observe_spend :
    (decoders : Decoders) (url : String) (r : Response) (s : Paying)
    → ((observe decoders url r s).committed ≡ s.committed)
      × ((observe decoders url r s).max_total ≡ s.max_total)
      × ((observe decoders url r s).ledger ≡ s.ledger)
unfolding observe
observe_spend decoders url r s = elim (Bool-cases (eqb r.status 402)) [
  | inr other ↦ rw (other, observe) (refl, refl, refl)
  | inl due ↦ elim (Option-cases r.payment_required) [
    | inl silent ↦ rw (due, silent, observe) (refl, refl, refl)
    | inr (header, told) ↦ elim (Option-cases (first_requirement decoders header)) [
      | inl unread ↦ rw (due, told, unread, observe) (refl, refl, refl)
      | inr (q, read) ↦ rw (due, told, read, observe) (refl, refl, refl)
    ]
  ]
]

-- What an event adds to the amount committed is what it signs, and it stays within the limit.
handle_spend :
    (decoders : Decoders) (url : String) (e : Event) (s : Paying)
    → s.committed ≤ s.max_total
    → ((handle decoders url e s).committed ≡ s.committed + signed_by e s)
      × ((handle decoders url e s).max_total ≡ s.max_total)
      × ((handle decoders url e s).ledger ≡ s.ledger)
      × (s.committed + signed_by e s ≤ s.max_total)
unfolding handle before_payment after_payment
handle_spend decoders url (fetched r) s h =
    let (c, m, l) = observe_spend decoders url r s in (omega (arith, c), m, l, omega (arith, h))
handle_spend decoders url (paying asked signs) s h =
    elim (Bool-cases (ltb s.max_total (s.committed + asked))) [
      | inl beyond ↦ rw (beyond, before_payment) (omega arith, refl, refl, omega (arith, h))
      | inr within ↦ elim (Bool-cases signs) [
        | inl signed ↦
            rw (within, signed, before_payment) (refl, refl, refl, ground (arith, within))
        | inr unsigned ↦
            rw (within, unsigned, before_payment) (omega arith, refl, refl, omega (arith, h))
      ]
    ]

handle_all_spend :
    (decoders : Decoders) (url : String) (es : List Event) (s : Paying)
    → s.committed ≤ s.max_total
    → ((handle_all decoders url es s).committed ≡ s.committed + signed_in decoders url es s)
      × ((handle_all decoders url es s).max_total ≡ s.max_total)
      × ((handle_all decoders url es s).ledger ≡ s.ledger)
      × (s.committed + signed_in decoders url es s ≤ s.max_total)
unfolding handle_all
handle_all_spend decoders url [] s h = (omega arith, refl, refl, omega (arith, h))
handle_all_spend decoders url (e ∷ es) s h =
    let (c, m, l, w) = handle_spend decoders url e s h in
    let (c', m', l', w') =
      handle_all_spend decoders url es (handle decoders url e s) (omega (arith, c, m, w)) in
    (omega (arith, c, c'), m' ∙ m, l' ∙ l, omega (arith, c, m, w'))

settle_spend :
    (turn : Turn) (settlement : Settlement) (s : Paying)
    → ((settle turn settlement s).committed ≡ s.committed)
      × ((settle turn settlement s).max_total ≡ s.max_total)
unfolding settle
settle_spend turn settlement s = elim (Option-cases (get turn.url s.manifests)) [
  | inl unseen ↦ rw (unseen, settle) (refl, refl)
  | inr (manifest, seen) ↦ rw (seen, settle) (refl, refl)
]

after_response_spend :
    (decoders : Decoders) (turn : Turn) (r : Response) (header : Option String) (s : Paying)
    → ((after_response decoders turn r header s).1.committed ≡ s.committed)
      × ((after_response decoders turn r header s).1.max_total ≡ s.max_total)
unfolding after_response
after_response_spend decoders turn r none s = (refl, refl)
after_response_spend decoders turn r (some header) s =
    elim (Settled-cases (decoders.settlement header)) [
      | inl (e, failed) ↦ rw (failed, after_response) (refl, refl)
      | inr (settlement, read) ↦ rw (read, after_response) (settle_spend turn settlement s)
    ]

after_turn_spend :
    (decoders : Decoders) (turn : Turn) (ending : Settled Response) (s : Paying)
    → ((after_turn decoders turn ending s).1.committed ≡ s.committed)
      × ((after_turn decoders turn ending s).1.max_total ≡ s.max_total)
unfolding after_turn
after_turn_spend decoders turn (rejected e) s = (refl, refl)
after_turn_spend decoders turn (value r) s =
    after_response_spend decoders turn r r.payment_response s

-- One request: what it adds to the amount committed is what it signs, within the limit.
send_spend :
    (decoders : Decoders) (turn : Turn) (s : Paying)
    → s.committed ≤ s.max_total
    → ((send decoders turn s).1.committed
        ≡ s.committed + signed_in decoders turn.url turn.events (record s { refusal = none }))
      × ((send decoders turn s).1.max_total ≡ s.max_total)
      × ((send decoders turn s).1.committed ≤ s.max_total)
unfolding send
send_spend decoders turn s h =
    let start = record s { refusal = none } in
    let (c, m, l, w) = handle_all_spend decoders turn.url turn.events start h in
    let (c', m') =
      after_turn_spend decoders turn turn.ending (handle_all decoders turn.url turn.events start) in
    (c' ∙ c, m' ∙ m, omega (arith, c', c, w))

-- Whatever requests a process sends, and however each of them ends, the amount that it signs away,
-- counted from what it had committed, is the amount it has committed then, and is within the
-- limit on its total. An authorisation counts where it is signed, settled or not.
pub send_all_spend :
    (decoders : Decoders) (turns : List Turn) (s : Paying)
    → s.committed ≤ s.max_total
    → ((send_all decoders turns s).committed ≡ s.committed + signed_over decoders turns s)
      × (s.committed + signed_over decoders turns s ≤ s.max_total)
unfolding send_all
send_all_spend decoders [] s h = (omega arith, omega (arith, h))
send_all_spend decoders (turn ∷ turns) s h =
    let (c, m, w) = send_spend decoders turn s h in
    let (c', w') = send_all_spend decoders turns (send decoders turn s).1 (omega (arith, m, w)) in
    (omega (arith, c, c'), omega (arith, c, m, w'))

handle_beyond :
    (decoders : Decoders) (url : String) (asked : ℕ) (signs : Bool) (s : Paying)
    → ltb s.max_total (s.committed + asked) ≡ true
    → handle decoders url (paying asked signs) s
      ≡ record s { refusal = some (spend_limit_error s.committed s.max_total asked) }
unfolding handle before_payment
handle_beyond decoders url asked signs s beyond = rw (beyond, before_payment) refl

-- A request whose one payment is past the limit on the total is refused with that reason, whatever
-- error the wrapper reports: nothing is committed, and nothing is recorded as paid.
pub send_refused :
    (decoders : Decoders) (turn : Turn) (s : Paying) (first : Response) (asked : ℕ) (signs : Bool)
    (error : String)
    → turn.events ≡ fetched first ∷ paying asked signs ∷ []
    → turn.ending ≡ rejected error
    → s.max_total < s.committed + asked
    → ((send decoders turn s).0 ≡ rejected (spend_limit_error s.committed s.max_total asked))
      × ((send decoders turn s).1.committed ≡ s.committed)
      × ((send decoders turn s).1.ledger ≡ s.ledger)
unfolding send after_turn handle_all handle
send_refused decoders turn s first asked signs error events ending beyond =
    let start = record s { refusal = none } in
    let (c, m, l) = observe_spend decoders turn.url first start in
    let over : ltb (observe decoders turn.url first start).max_total
          ((observe decoders turn.url first start).committed + asked)
        ≡ true =
      ground (arith, c, m, beyond) in
    let obs = observe decoders turn.url first start in
    let e : send decoders turn s ≡ (
      rejected (spend_limit_error obs.committed obs.max_total asked),
      record obs { refusal = some (spend_limit_error obs.committed obs.max_total asked) },
    ) =
      ap (λ es. after_turn decoders turn turn.ending (handle_all decoders turn.url es start)) events
      ∙ ap (λ x. after_turn decoders turn turn.ending x)
          (handle_beyond decoders turn.url asked signs obs over)
      ∙ ap
          (λ x.
            after_turn decoders turn x
              (record obs { refusal = some (spend_limit_error obs.committed obs.max_total asked) }))
          ending in
    (
      ap (λ (p : Settled Response × Paying). p.0) e
          ∙ ap (λ n. rejected (spend_limit_error n obs.max_total asked)) c
          ∙ ap (λ n. rejected (spend_limit_error s.committed n asked)) m,
      ap (λ (p : Settled Response × Paying). p.1.committed) e ∙ c,
      ap (λ (p : Settled Response × Paying). p.1.ledger) e ∙ l,
    )

-- The amounts paid in one asset of one network.
abbrev pub paid_in : String → PaymentLedger → ℕ
paid_in key [] = 0
paid_in key (payment ∷ rest) =
    (if asset_key payment == key then payment.amount else 0) + paid_in key rest

add_totals_paid :
    (key : String) (sums : List (String × ℕ)) (ledger : PaymentLedger)
    → or_zero (get key (add_totals sums ledger)) ≡ or_zero (get key sums) + paid_in key ledger
unfolding add_totals
add_totals_paid key sums [] = omega arith
add_totals_paid key sums (payment ∷ rest) =
    let k = asset_key payment in
    let sum = or_zero (get k sums) + payment.amount in
    add_totals_paid key (put k sum sums) rest
    ∙ ap (λ o. or_zero o + paid_in key rest) (get-put k key sum sums)
    ∙ elim (Bool-cases (k == key)) [
      | inl same ↦
          let path : k ≡ key = (string_eq.equals_iff k key).0 same in
          rw same (omega (arith, ap (λ i. or_zero (get i sums)) path))
      | inr other ↦ rw other (omega arith)
    ]

pub totals_paid :
    (key : String) (ledger : PaymentLedger) → or_zero (get key (totals ledger)) ≡ paid_in key ledger
unfolding totals get
totals_paid key ledger = omega (arith, add_totals_paid key [] ledger)
