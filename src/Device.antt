-- ===== src/Device.antt =====
-- packages/ledger/src/confirmation.ts: a transaction is put before a human on the device. The signer
-- is a parameter: its stream emits states, some of them perhaps while `subscribe` runs, and the timer
-- is one more event.
pub mod Waiting
pub mod Steps
mod Tests
pub mod Decline
use presign.Prelude.{
  ℕ, String, Bool, true, false, ◌&&◌, ◌||◌, Option, none, some, List, [], ◌∷◌, ◌++◌, if◌then◌else◌,
  ◌==◌, string_eq, not, is_empty, any, includes, lower, decimal, leb, eqb,
}
use presign.Types.{Verdict, UnsignedTransaction, RiskTier, low, medium, high, unavailable}
use presign.Escalation.{
  EscalationDecision, sign_directly, confirm_on_device, refuse, decide_escalation,
}
use Prim.Native.String
use Prim.Native.Char.{code}
use text.Mathlib.Text.{starts_with}

pub record Signature : Type 0 where
  pub r : String
  pub s : String
  pub v : ℕ

pub record SignableTransaction : Type 0 where
  pub transaction : UnsignedTransaction
  pub nonce : ℕ
  pub gas_limit : ℕ
  pub max_fee_per_gas : ℕ
  pub max_priority_fee_per_gas : ℕ

pub data Reason : Type 0 where
  rejected_on_device cancelled not_escalated device_error timeout : Reason

pub data ConfirmationResult : Type 0 where
  approved : Signature → Bool → List String → ConfirmationResult
  not_approved : Reason → String → ConfirmationResult

-- A state of the device action, a failure of its stream, or the timer.
pub data Event : Type 0 where
  -- `intermediateValue.step` and `.requiredUserInteraction`
  pending : Option String → Option String → Event
  completed : Signature → Event
  stopped : Event
  -- `_tag`, `message`, `errorCode`
  error : Option String → Option String → Option String → Event
  stream_error : String → Event
  -- with `timeoutMs`
  timer : ℕ → Event

abbrev pub blind_sign_fallback_step : String
blind_sign_fallback_step = "signer.eth.steps.blindSignTransactionFallback"

abbrev pub sign_transaction_step : String
sign_transaction_step = "signer.eth.steps.signTransaction"

unfoldable pub contains : String → String → Bool
contains String.[] t = starts_with String.[] t
contains (String.◌∷◌ c s) t = starts_with (String.◌∷◌ c s) t || contains s t

-- `step === BLIND_SIGN_FALLBACK_STEP || /fallback/i.test(step)`
unfoldable pub is_fallback : String → Bool
unfolding contains lower
is_fallback step = step == blind_sign_fallback_step || contains (lower step) "fallback"

-- \w
unfoldable pub is_word : ℕ → Bool
is_word c =
    (leb b'0' c && leb c b'9')
    || ((leb b'A' c && leb c b'Z') || ((leb b'a' c && leb c b'z') || eqb c b'_'))

unfoldable pub starts_word : String → Bool
unfolding is_word
starts_word String.[] = false
starts_word (String.◌∷◌ c s) = is_word (code c)

-- The text after its first four characters.
unfoldable pub after_four : String → String
after_four (String.◌∷◌ a (String.◌∷◌ b (String.◌∷◌ c (String.◌∷◌ d s)))) = s
after_four _ = ""

-- `/\b6985\b/`, from a place that follows a word character or not.
unfoldable pub has_6985 : Bool → String → Bool
unfolding starts_word after_four is_word
has_6985 in_word String.[] = false
has_6985 in_word (String.◌∷◌ c s) =
    (not in_word
      && (starts_with (String.◌∷◌ c s) "6985" && not (starts_word (after_four (String.◌∷◌ c s)))))
    || has_6985 (is_word (code c)) s

abbrev pub is_text : Option String → String → Bool
is_text none t = false
is_text (some s) t = s == t

-- `error?.message ?? error?._tag ?? "unknown device error"`
unfoldable pub message_of : Option String → Option String → String
message_of tag (some message) = message
message_of (some tag) none = tag
message_of none none = "unknown device error"

-- The human pressed reject.
unfoldable pub is_decline : Option String → Option String → Option String → Bool
unfolding message_of has_6985
is_decline tag message error_code =
    is_text error_code "6985" || has_6985 false (message_of tag message)

-- `intermediate?.step ?? intermediate?.requiredUserInteraction ?? ""`
unfoldable pub label : Option String → Option String → String
label (some step) interaction = step
label none (some interaction) = interaction
label none none = ""

-- `steps[steps.length - 1] !== label`
unfoldable pub is_last : String → List String → Bool
is_last t [] = false
is_last t (x ∷ []) = x == t
is_last t (x ∷ y ∷ l) = is_last t (y ∷ l)

unfoldable pub push_label : String → List String → List String
unfolding is_last
push_label t steps = if t == "" || is_last t steps then steps else steps ++ t ∷ []

unfoldable pub clear_signed : List String → Bool
unfolding is_fallback
clear_signed steps = includes sign_transaction_step steps && not (any is_fallback steps)

-- What an event other than a pending state settles the promise with.
unfoldable pub settle : List String → Event → Option ConfirmationResult
unfolding clear_signed is_decline message_of decimal
settle steps (pending step interaction) = none
settle steps (completed g) = some (approved g (clear_signed steps) steps)
settle steps stopped =
    some (not_approved cancelled "the device action stopped before the transaction was signed")
settle steps (error tag message error_code) = some (
    if is_decline tag message error_code
    then not_approved rejected_on_device
        (String.◌++◌ "declined on the device (" (String.◌++◌ (message_of tag message) ")"))
    else not_approved device_error (message_of tag message))
settle steps (stream_error message) = some (not_approved device_error message)
settle steps (timer ms) = some (
    not_approved timeout
      (String.◌++◌ "no response from the device within " (String.◌++◌ (decimal ms) "ms")))

unfoldable pub steps_after : List String → Event → List String
unfolding push_label label
steps_after steps (pending step interaction) = push_label (label step interaction) steps
steps_after steps _ = steps

-- The promise of #awaitDevice: its two locals, whether `subscription` is bound yet, whether it was
-- cancelled, and what the promise was resolved with.
pub record Wait : Type 0 where
  pub steps : List String
  pub settled : Bool
  pub subscribed : Bool
  pub unsubscribed : Bool
  pub resolved : Option ConfirmationResult

abbrev pub new_wait : Wait
new_wait = record {
  steps = [];
  settled = false;
  subscribed = false;
  unsubscribed = false;
  resolved = none;
}

-- finish: where `subscription` is not bound yet, reading it throws after `settled` is set and before
-- the promise is resolved.
unfoldable pub finish : ConfirmationResult → Wait → Wait
finish result w = if w.settled then w else record w {
  settled = true;
  unsubscribed = w.subscribed;
  resolved = if w.subscribed then some result else none;
}

-- One event. A cancelled subscription delivers none, and the timer is cleared before it is cancelled.
unfoldable pub hear : Event → Wait → Wait
unfolding settle steps_after finish
hear e w = if w.unsubscribed then w else elim (settle w.steps e) [
  | some result ↦ finish result w
  | none ↦ record w { steps = steps_after w.steps e }
]

unfoldable pub hear_all : List Event → Wait → Wait
unfolding hear
hear_all [] w = w
hear_all (e ∷ es) w = hear_all es (hear e w)

-- #awaitDevice, over the events that the stream emits while `subscribe` runs and those that follow:
-- none where the promise is not resolved.
unfoldable pub await_device : List Event → List Event → Option ConfirmationResult
unfolding hear_all
await_device during after =
    (hear_all after (record (hear_all during new_wait) { subscribed = true })).resolved

abbrev tier_text : RiskTier → String
tier_text low = "low"
tier_text medium = "medium"
tier_text high = "high"
tier_text unavailable = "unavailable"

-- verdict tier … calls for "…", not device confirmation: …
unfoldable pub refusal_detail : RiskTier → String → String → String
refusal_detail tier action rationale = String.◌++◌ "verdict tier " (
    String.◌++◌ (tier_text tier) (
      String.◌++◌ " calls for \""
        (String.◌++◌ action (String.◌++◌ "\", not device confirmation: " rationale))))

-- `request`, over the events that the signer would answer the serialized transaction with, during the
-- subscription and after it, and whether the signer was started.
unfoldable pub request :
    (SignableTransaction → List Event × List Event)
    → SignableTransaction
    → Verdict
    → Option ConfirmationResult × Bool
unfolding decide_escalation await_device refusal_detail
request signer tx verdict = elim (decide_escalation verdict) [
  | confirm_on_device rationale lines ↦ (await_device (signer tx).0 (signer tx).1, true)
  | sign_directly rationale ↦ (
    some (not_approved not_escalated (refusal_detail verdict.tier "sign_directly" rationale)),
    false,
  )
  | refuse rationale ↦
      (some (not_approved not_escalated (refusal_detail verdict.tier "refuse" rationale)), false)
]
