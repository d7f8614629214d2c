-- ===== src/Broker.antt =====
-- packages/verdict-mcp/src/broker.ts: the signing broker. Its account, the chain reader, the purchase
-- of a verdict, the device and viem's signature recovery are the fields of `Broker`; a call of one
-- settles or rejects. `Run` holds the session beside a record of the outside calls made, in order.
pub mod Policy
mod Tests
pub mod Stages
pub mod Inversion
pub mod Signing
pub mod Session
pub mod Refusals
use presign.Prelude.{
  ℕ, ◌+◌, ◌*◌, ◌^◌, String, Bool, true, false, ◌&&◌, ◌||◌, Option, none, some, List, [], ◌∷◌, ◌++◌,
  ltb, if◌then◌else◌, ◌==◌, string_eq, nat_eq, lower, decimal, includes, every, is_empty, not,
}
use presign.Types.{UnsignedTransaction, TokenOut, Settled, value, rejected}
use Prim.Native.String

abbrev pub AssessedTransaction : Type 0
AssessedTransaction = UnsignedTransaction

pub record SignatureFields : Type 0 where
  pub nonce : ℕ
  pub gas : ℕ
  pub max_fee_per_gas : ℕ
  pub max_priority_fee_per_gas : ℕ

-- What a signature is made over.
pub record Signable : Type 0 where
  pub transaction : AssessedTransaction
  pub fields : SignatureFields

pub record Signature : Type 0 where
  pub r : String
  pub s : String
  pub v : ℕ

pub data Answer : Type 0 where
  approved : Signature → Bool → Answer
  not_approved : String → String → Answer

pub record Approver : Type 0 where
  pub address : String
  pub request : Signable → Settled Answer

-- The parts of the response that the broker reads; each may be missing from the JSON.
pub record Effects : Type 0 where
  pub observed : Option Bool
  pub eth_out : Option ℕ
  pub eth_recipients : Option (List String)
  pub tokens_out : Option (List TokenOut)

pub record BoughtVerdict : Type 0 where
  -- `verdict?.provenance?.chainId`
  pub chain_id : Option ℕ
  pub effects : Option Effects

pub record Purchased : Type 0 where
  pub tier : String
  pub verdict : Option BoughtVerdict
  -- `journal?.tx_commitment` and `journal?.salt`
  pub tx_commitment : Option String
  pub salt : Option String

pub data VerdictPurchase : Type 0 where
  bought : Purchased → VerdictPurchase
  not_bought : VerdictPurchase

pub record BrokerPolicy : Type 0 where
  pub allowed_recipients : List String
  pub max_eth_per_transaction : ℕ
  pub max_eth_per_session : ℕ
  pub max_fee : ℕ
  pub max_priority_fee_per_gas : ℕ

-- DEFAULT_BROKER_POLICY
abbrev pub default_broker_policy : BrokerPolicy
default_broker_policy = record {
  allowed_recipients = [];
  max_eth_per_transaction = 10 ^ 16;
  max_eth_per_session = 5 * 10 ^ 16;
  max_fee = 5 * 10 ^ 15;
  max_priority_fee_per_gas = 3 * 10 ^ 9;
}

-- APPROVAL_NONCE, `Number.MAX_SAFE_INTEGER`
abbrev pub approval_nonce : ℕ
approval_nonce = 9007199254740991

pub record Broker : Type 0 where
  pub address : String
  pub sign_transaction : Signable → Settled String
  pub fill : AssessedTransaction → Settled SignatureFields
  pub buy_verdict : AssessedTransaction → Settled VerdictPurchase
  pub approver : Option Approver
  pub policy : BrokerPolicy
  -- the address that an approval's signature recovers to
  pub recover : Signable → Signature → Settled String
  -- node:crypto, as hex
  pub sha256 : String → String

pub record SignRequest : Type 0 where
  pub to : Option String
  pub value : ℕ
  pub calldata : String
  pub chain_id : ℕ

infixr 60 ◌⧺◌
abbrev ◌⧺◌ : String → String → String
s ⧺ t = String.◌++◌ s t

abbrev pub or_empty : Option String → String
or_empty none = ""
or_empty (some s) = s

-- The fields of a transaction, joined by `|`.
unfoldable pub canonical : AssessedTransaction → String
unfolding lower decimal
canonical tx =
    lower tx.from
    ⧺ "|"
    ⧺ lower (or_empty tx.to)
    ⧺ "|"
    ⧺ decimal tx.value
    ⧺ "|"
    ⧺ lower tx.calldata
    ⧺ "|"
    ⧺ decimal tx.chain_id

-- commitmentOf
unfoldable pub commitment_of : (String → String) → AssessedTransaction → String → String
unfolding canonical
commitment_of sha256 tx salt = sha256 (salt ⧺ "|" ⧺ sha256 (canonical tx))

-- Why the policy wants a human.
pub data Reason : Type 0 where
  unobserved : Reason
  eth_outside : ℕ → List String → Reason
  eth_above : ℕ → Reason
  token_outside : TokenOut → Reason

unfoldable pub allowed : BrokerPolicy → String → Bool
unfolding lower
allowed policy address = includes (lower address) policy.allowed_recipients

abbrev pub or_nil {ℓ} : {A : Type ℓ} → Option (List A) → List A
or_nil none = []
or_nil (some xs) = xs

abbrev pub or_zero : Option ℕ → ℕ
or_zero none = 0
or_zero (some n) = n

abbrev pub is_true : Option Bool → Bool
is_true none = false
is_true (some b) = b

unfoldable pub eth_reasons : BrokerPolicy → ℕ → List String → List Reason
unfolding allowed
eth_reasons policy eth_out recipients =
    if ltb 0 eth_out
    then (if is_empty recipients || not (every (allowed policy) recipients)
        then eth_outside eth_out recipients ∷ []
        else [])
      ++ (if ltb policy.max_eth_per_transaction eth_out then eth_above eth_out ∷ [] else [])
    else []

unfoldable pub token_reasons : BrokerPolicy → List TokenOut → List Reason
unfolding allowed
token_reasons policy [] = []
token_reasons policy (t ∷ ts) =
    (if t.burned
      then []
      else if t.unidentified_recipient || not (every (allowed policy) t.recipients)
      then token_outside t ∷ []
      else [])
    ++ token_reasons policy ts

-- applyPolicy: the reasons, and the ETH that the transaction sends.
unfoldable pub apply_policy : Option Effects → BrokerPolicy → List Reason × ℕ
unfolding eth_reasons token_reasons
apply_policy none policy = (unobserved ∷ [], 0)
apply_policy (some effects) policy =
    if is_true effects.observed
    then (
      eth_reasons policy (or_zero effects.eth_out) (or_nil effects.eth_recipients)
          ++ token_reasons policy (or_nil effects.tokens_out),
      or_zero effects.eth_out,
    )
    else (unobserved ∷ [], 0)

pub data Decision : Type 0 where
  could_not_prepare : String → Decision
  fee_above_ceiling : SignatureFields → Decision
  no_verdict : Decision
  verdict_not_bound : Decision
  session_value_ceiling : ℕ → ℕ → Decision
  -- the raw transaction, and the reasons of the policy
  signed : String → Decision
  escalation_required : List Reason → Decision
  declined_by_human : String → Decision
  escalation_failed : String → String → Decision
  blind_signed : Decision
  approval_not_verified : String → Decision
  signed_after_human_approval : String → Decision
  high_risk : Decision
  evidence_unavailable : Decision
  unrecognised_tier : Decision

pub data Call : Type 0 where
  filled bought_verdict asked_device agent_signed : Call

pub record Run : Type 0 where
  -- `session.ethSpentWei`
  pub spent : ℕ
  pub calls : List Call

abbrev pub Outcome : Type 0
Outcome = Settled Decision × Run

abbrev pub record_call : Call → Run → Run
record_call c s = record s { calls = s.calls ++ c ∷ [] }

abbrev pub assessed : Broker → SignRequest → AssessedTransaction
assessed b req = record {
  from = b.address;
  to = req.to;
  value = req.value;
  calldata = req.calldata;
  chain_id = req.chain_id;
}

unfoldable pub fee_too_high : BrokerPolicy → SignatureFields → Bool
fee_too_high policy f =
    ltb policy.max_priority_fee_per_gas f.max_priority_fee_per_gas
    || ltb policy.max_fee (f.gas * f.max_fee_per_gas)

abbrev pub verdict_chain : Option BoughtVerdict → Option ℕ
verdict_chain none = none
verdict_chain (some v) = v.chain_id

abbrev pub verdict_effects : Option BoughtVerdict → Option Effects
verdict_effects none = none
verdict_effects (some v) = v.effects

abbrev pub is_text : Option String → String → Bool
is_text none t = false
is_text (some s) t = s == t

abbrev pub is_number : Option ℕ → ℕ → Bool
is_number none n = false
is_number (some m) n = m == n

-- The verdict is about this transaction: its commitment is recomputed from the salt.
unfoldable pub is_bound : Broker → AssessedTransaction → Purchased → Bool
unfolding commitment_of
is_bound b tx p = elim p.salt [
  | none ↦ false
  | some salt ↦
      is_text p.tx_commitment (commitment_of b.sha256 tx salt)
      && is_number (verdict_chain p.verdict) tx.chain_id
]

-- The agent's key signs, and the session is charged once the signature is there.
unfoldable pub sign_with_key : Broker → Signable → ℕ → (String → Decision) → Run → Outcome
sign_with_key b unsigned eth_out decision s = elim (b.sign_transaction unsigned) [
  | rejected e ↦ (rejected e, record_call agent_signed s)
  | value raw ↦
      (value (decision raw), record (record_call agent_signed s) { spent = s.spent + eth_out })
]

-- After a clear signature from the device: whose key made it.
unfoldable pub check_approval :
    Broker → Approver → Signable → Signable → Signature → ℕ → Run → Outcome
unfolding sign_with_key lower
check_approval b approver unsigned approval signature eth_out s =
    elim (b.recover approval signature) [
      | rejected e ↦ (rejected e, s)
      | value recovered ↦
          if lower recovered == lower approver.address
          then sign_with_key b unsigned eth_out signed_after_human_approval s
          else (value (approval_not_verified recovered), s)
    ]

abbrev pub approval_of : Signable → Signable
approval_of u = record {
  transaction = u.transaction;
  fields = record u.fields { nonce = approval_nonce };
}

unfoldable pub read_answer : Broker → Approver → Signable → ℕ → Run → Settled Answer → Outcome
unfolding check_approval
read_answer b approver unsigned eth_out s (rejected e) = (rejected e, s)
read_answer b approver unsigned eth_out s (value (not_approved reason detail)) = (
  value (
      if reason == "rejected_on_device"
      then declined_by_human detail
      else escalation_failed reason detail),
  s,
)
read_answer b approver unsigned eth_out s (value (approved signature clear_signed)) =
    if clear_signed
    then check_approval b approver unsigned (approval_of unsigned) signature eth_out s
    else (value blind_signed, s)

-- The branch of the tier `medium`.
unfoldable pub escalate : Broker → Signable → List Reason → ℕ → Run → Outcome
unfolding read_answer
escalate b unsigned reasons eth_out s = elim b.approver [
  | none ↦ (value (escalation_required reasons), s)
  | some approver ↦
      read_answer b approver unsigned eth_out (record_call asked_device s)
        (approver.request (approval_of unsigned))
]

-- The policy can only raise the tier.
unfoldable pub effective_tier : String → List Reason → String
effective_tier tier reasons = if tier == "low" && not (is_empty reasons) then "medium" else tier

unfoldable pub by_tier : Broker → Signable → String → List Reason → ℕ → Run → Outcome
unfolding sign_with_key escalate
by_tier b unsigned tier reasons eth_out s =
    if tier == "low"
    then sign_with_key b unsigned eth_out signed s
    else if tier == "medium"
    then escalate b unsigned reasons eth_out s
    else (
      value (
          if tier == "high"
          then high_risk
          else if tier == "unavailable"
          then evidence_unavailable
          else unrecognised_tier),
      s,
    )

-- From the session's ceiling on.
unfoldable pub within_session :
    Broker → AssessedTransaction → SignatureFields → Purchased → List Reason → ℕ → Run → Outcome
unfolding by_tier effective_tier
within_session b tx fields p reasons eth_out s =
    if ltb b.policy.max_eth_per_session (s.spent + eth_out)
    then (value (session_value_ceiling s.spent eth_out), s)
    else by_tier b (record { transaction = tx; fields = fields }) (effective_tier p.tier reasons)
        reasons eth_out s

unfoldable pub read_purchase :
    Broker → AssessedTransaction → SignatureFields → Run → Settled VerdictPurchase → Outcome
unfolding is_bound within_session apply_policy
read_purchase b tx fields s (rejected e) = (rejected e, s)
read_purchase b tx fields s (value not_bought) = (value no_verdict, s)
read_purchase b tx fields s (value (bought p)) =
    if is_bound b tx p
    then (let (reasons, eth_out) = apply_policy (verdict_effects p.verdict) b.policy in
        within_session b tx fields p reasons eth_out s)
    else (value verdict_not_bound, s)

unfoldable pub read_fields : Broker → AssessedTransaction → Run → Settled SignatureFields → Outcome
unfolding fee_too_high read_purchase
read_fields b tx s (rejected e) = (value (could_not_prepare e), s)
read_fields b tx s (value fields) =
    if fee_too_high b.policy fields
    then (value (fee_above_ceiling fields), s)
    else read_purchase b tx fields (record_call bought_verdict s) (b.buy_verdict tx)

-- signThroughVerdict
unfoldable pub sign_through_verdict : Broker → SignRequest → Run → Outcome
unfolding read_fields
sign_through_verdict b req s =
    read_fields b (assessed b req) (record_call filled s) (b.fill (assessed b req))
