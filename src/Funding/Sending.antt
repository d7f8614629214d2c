-- ===== src/Funding/Sending.antt =====
-- packages/operational-layer/src/gateway/funding.ts: `send` of buildPayingFetch. Payments are
-- serialised, the default: the requests run one after another, each with the settlement after its
-- turn. A request's timeout is one of the endings of its turn.
use Prim.Native.String
use Prim.Native.Char.{code}
use presign.Prelude.{ℕ, String, Option, none, some, List, [], ◌∷◌, eqb, if◌then◌else◌, string_eq}
use presign.Types.{Settled, value, rejected}
use presign.JsMap.{get, remove}
use presign.Duration.{iso_string}
use presign.Funding.{
  Decoders, Paying, PaymentRecord, Requirements, Settlement, Response, Event, handle_all,
  record_payment, format_units6,
}

-- `url.split("?")[0]`
unfoldable pub before_query : String → String
before_query String.[] = String.[]
before_query (String.◌∷◌ c s) =
    if eqb (code c) b'?' then String.[] else String.◌∷◌ c (before_query s)

-- The last part of `split("/")`, with the part read so far.
unfoldable pub last_segment : String → String → String
last_segment part String.[] = part
last_segment part (String.◌∷◌ c s) =
    if eqb (code c) b'/'
    then last_segment "" s
    else last_segment (String.◌++◌ part (String.◌∷◌ c String.[])) s

-- deploymentIdFromUrl
unfoldable pub deployment_id_from_url : String → String
unfolding before_query last_segment
deployment_id_from_url url = last_segment "" (before_query url)

-- What the payment wrapper does for one request, and how it ends.
pub record Turn : Type 0 where
  pub url : String
  pub events : List Event
  pub ending : Settled Response
  -- what `now()` answers at the settlement, in milliseconds
  pub now : ℕ

-- `refusal ?? error`
abbrev or_error : Option String → String → String
or_error none e = e
or_error (some refusal) e = refusal

abbrev or_network : Option String → String → String
or_network none n = n
or_network (some m) n = m

unfoldable pub payment_of : Turn → Requirements → Settlement → PaymentRecord
unfolding format_units6 iso_string deployment_id_from_url
payment_of turn manifest settlement = record {
  deployment_id = deployment_id_from_url turn.url;
  amount = manifest.amount;
  display = format_units6 manifest.amount "USDC";
  asset = manifest.asset;
  network = or_network settlement.network manifest.network;
  paid_at = iso_string turn.now;
  transaction = settlement.transaction;
}

-- What is recorded of a settlement: a successful one whose manifest was seen.
unfoldable pub settle : Turn → Settlement → Paying → Paying
unfolding payment_of record_payment
settle turn settlement s = elim (get turn.url s.manifests) [
  | none ↦ record s { manifests = remove turn.url s.manifests }
  | some manifest ↦ record s {
    ledger =
        if settlement.success
        then record_payment s.ledger (payment_of turn manifest settlement)
        else s.ledger;
    manifests = remove turn.url s.manifests;
  }
]

-- The rest of `send`, from the settlement header on.
unfoldable pub after_response :
    Decoders → Turn → Response → Option String → Paying → Settled Response × Paying
unfolding settle
after_response decoders turn response none s = (value response, s)
after_response decoders turn response (some header) s = elim (decoders.settlement header) [
  | rejected e ↦ (rejected e, s)
  | value settlement ↦ (value response, settle turn settlement s)
]

-- The rest of `send`, after the turn.
unfoldable pub after_turn : Decoders → Turn → Settled Response → Paying → Settled Response × Paying
unfolding after_response
after_turn decoders turn (rejected e) s = (rejected (or_error s.refusal e), s)
after_turn decoders turn (value response) s =
    after_response decoders turn response response.payment_response s

-- send
unfoldable pub send : Decoders → Turn → Paying → Settled Response × Paying
unfolding handle_all after_turn
send decoders turn s =
    after_turn decoders turn turn.ending
      (handle_all decoders turn.url turn.events (record s { refusal = none }))

-- The requests of a process, in the order of the queue.
unfoldable pub send_all : Decoders → List Turn → Paying → Paying
unfolding send
send_all decoders [] s = s
send_all decoders (turn ∷ turns) s = send_all decoders turns (send decoders turn s).1
