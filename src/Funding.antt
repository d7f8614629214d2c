-- ===== src/Funding.antt =====
-- packages/operational-layer/src/gateway/funding.ts: how a query is paid for. The x402 client is a
-- parameter by what it does in a turn: each of its fetches, and each payment it sets out to make,
-- with the hooks called round the signature. So are the decoders of its headers and viem's accounts.
-- An amount is the number that its decimal digits denote.
pub mod Sending
pub mod Spending
pub mod Choices
pub mod Tests
use Prim.Native.String
use text.Mathlib.Text.{starts_with}
use presign.Prelude.{
  ℕ, ◌+◌, ◌/◌, ◌%◌, String, Bool, true, false, Option, none, some, List, [], ◌∷◌, ◌++◌, map, ltb,
  eqb, if◌then◌else◌, ◌==◌, string_eq, text_of, decimal, strip_zeros,
}
use presign.Types.{Settled, value, rejected}
use presign.JsMap.{get, put, remove}
use presign.Duration.{padded, iso_string}

abbrev pub base_network : String
base_network = "eip155:8453"

abbrev pub base_usdc : String
base_usdc = "0x833589fCD6eDb6E08f4c7C32D4f71b54bdA02913"

abbrev pub default_max_per_query : ℕ
default_max_per_query = 50000

abbrev pub default_max_total_spend : ℕ
default_max_total_spend = 1000000

-- formatUnits6
unfoldable pub format_units6 : ℕ → String → String
unfolding padded strip_zeros decimal text_of
format_units6 amount symbol =
    let whole = decimal (amount / 1000000) in
    let fraction = strip_zeros (padded 6 (amount % 1000000)) in
    text_of (
      (if fraction == "" then whole else text_of (whole ∷ "." ∷ fraction ∷ [])) ∷ " " ∷ symbol ∷ [])

-- PaymentRecord; `paidAt` is its ISO text.
pub record PaymentRecord : Type 0 where
  pub deployment_id : String
  pub amount : ℕ
  pub display : String
  pub asset : String
  pub network : String
  pub paid_at : String
  pub transaction : Option String

-- PaymentLedger: its payments in order
abbrev pub PaymentLedger : Type 0
PaymentLedger = List PaymentRecord

unfoldable pub record_payment : PaymentLedger → PaymentRecord → PaymentLedger
record_payment ledger payment = ledger ++ payment ∷ []

-- `${payment.network}:${payment.asset}`
unfoldable pub asset_key : PaymentRecord → String
unfolding text_of
asset_key payment = text_of (payment.network ∷ ":" ∷ payment.asset ∷ [])

abbrev pub or_zero : Option ℕ → ℕ
or_zero none = 0
or_zero (some n) = n

-- The loop of totals.
unfoldable pub add_totals : List (String × ℕ) → PaymentLedger → List (String × ℕ)
add_totals sums [] = sums
add_totals sums (payment ∷ rest) =
    add_totals
      (put (asset_key payment) (or_zero (get (asset_key payment) sums) + payment.amount) sums) rest

-- totals, with each sum as a number
unfoldable pub totals : PaymentLedger → List (String × ℕ)
unfolding add_totals
totals ledger = add_totals [] ledger

-- GatewaySpendLimitError's message, of what is spent, the limit and what is asked.
unfoldable pub spend_limit_error : ℕ → ℕ → ℕ → String
unfolding format_units6 text_of
spend_limit_error spent limit asked = text_of (
    "paying "
    ∷ format_units6 asked "USDC"
    ∷ " would take this process past its gateway spend limit of "
    ∷ format_units6 limit "USDC"
    ∷ " ("
    ∷ format_units6 spent "USDC"
    ∷ " signed so far). Nothing was paid."
    ∷ [])

-- PaymentRequirementsLike
pub record Requirements : Type 0 where
  pub amount : ℕ
  pub asset : String
  pub network : String

-- What a decoded `payment-response` header holds.
pub record Settlement : Type 0 where
  pub success : Bool
  pub network : Option String
  pub transaction : Option String

pub record Response : Type 0 where
  pub status : ℕ
  pub payment_required : Option String
  pub payment_response : Option String

-- `decodePaymentRequiredHeader`, as the first entry of its `accepts` and as its `error` text, and
-- `decodePaymentResponseHeader`.
pub record Decoders : Type 0 where
  pub first_accepted : String → Settled (Option Requirements)
  pub error_text : String → Settled (Option String)
  pub settlement : String → Settled Settlement

-- paymentRefusalReason
unfoldable pub payment_refusal_reason : Decoders → Option String → Option String
payment_refusal_reason decoders none = none
payment_refusal_reason decoders (some header) = elim (decoders.error_text header) [
  | rejected e ↦ none
  | value text ↦ text
]

-- firstRequirement
unfoldable pub first_requirement : Decoders → String → Option Requirements
first_requirement decoders header = elim (decoders.first_accepted header) [
  | rejected e ↦ none
  | value first ↦ first
]

-- What buildPayingFetch closes over: its variables, and the ledger that it was given.
pub record Paying : Type 0 where
  pub max_total : ℕ
  pub committed : ℕ
  pub signing : Option ℕ
  pub refusal : Option String
  pub manifests : List (String × Requirements)
  pub ledger : PaymentLedger

-- onBeforePaymentCreation: whether it lets the payment pass, and the state
unfoldable pub before_payment : ℕ → Paying → Bool × Paying
unfolding spend_limit_error
before_payment asked s =
    if ltb s.max_total (s.committed + asked)
    then (false, record s { refusal = some (spend_limit_error s.committed s.max_total asked) })
    else (true, record s { signing = some asked })

-- onAfterPaymentCreation
unfoldable pub after_payment : Paying → Paying
after_payment s = elim s.signing [
  | none ↦ s
  | some amount ↦ record s { committed = s.committed + amount; signing = none }
]

-- The observing fetch, on a response to the request for `url`.
unfoldable pub observe : Decoders → String → Response → Paying → Paying
unfolding first_requirement
observe decoders url response s =
    if eqb response.status 402
    then elim response.payment_required [
      | none ↦ s
      | some header ↦ elim (first_requirement decoders header) [
        | none ↦ s
        | some requirements ↦ record s { manifests = put url requirements s.manifests }
      ]
    ]
    else s

-- What the payment wrapper does in a turn: a fetch that was answered, or a payment of an amount,
-- which it signs or fails to sign once the hook before it has let it pass.
pub data Event : Type 0 where
  fetched : Response → Event
  paying : ℕ → Bool → Event

unfoldable pub handle : Decoders → String → Event → Paying → Paying
unfolding observe before_payment after_payment
handle decoders url (fetched response) s = observe decoders url response s
handle decoders url (paying asked signs) s =
    let (passes, s') = before_payment asked s in
    if passes then if signs then after_payment s' else s' else s'

unfoldable pub handle_all : Decoders → String → List Event → Paying → Paying
unfolding handle
handle_all decoders url [] s = s
handle_all decoders url (e ∷ es) s = handle_all decoders url es (handle decoders url e s)
