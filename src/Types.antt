-- ===== src/Types.antt =====
-- packages/verdict-engine/src/types.ts: the vocabulary of a verdict. A `bigint` and a whole
-- `number` is a natural number, an address or other hex text a `String`, a `Date` its
-- milliseconds, and `T | null` and an optional field an `Option`. The word in a storage slot is the
-- number that its hex digits denote. A `Record` is the list of its entries in insertion order.
mod Details
pub use Details.*
use presign.Prelude.{
  ℕ, String, Bool, Option, List, if◌then◌else◌, none, some, [], ◌∷◌, ◌==◌, string_eq, ◌⊎◌, inl, inr,
  refl, ◌≡◌,
}

pub record UnsignedTransaction : Type 0 where
  pub from : String
  pub to : Option String
  pub value : ℕ
  pub calldata : String
  pub chain_id : ℕ

pub data RiskTier : Type 0 where
  low medium high unavailable : RiskTier

pub data Severity : Type 0 where
  info warning critical : Severity

-- `evidence` is machine-checkable support that no code of these packages reads.
pub record Finding : Type 0 where
  pub rule_id : String
  pub standing : Bool
  pub severity : Severity
  pub title : String
  pub detail : String
  pub evidence : List (String × String)

pub record VerdictSource : Type 0 where
  pub deployment_id : String
  pub display_name : String
  -- in milliseconds
  pub effective_lag : ℕ
  pub measured_at : ℕ

pub record RuleList : Type 0 where
  pub source : String
  pub url : Option String
  pub entries : ℕ
  pub fetched_at : Option ℕ

-- `RuleList` with the age of the copy, in tenths of a second.
pub record VerdictList : Type 0 where
  pub list : RuleList
  pub age_seconds : Option ℕ

pub record UnavailableRule : Type 0 where
  pub rule_id : String
  pub reason : String
  pub detail : Detail

pub record VerdictProvenance : Type 0 where
  pub simulated_at_block : Option ℕ
  -- in tenths of a second
  pub simulated_block_age : Option ℕ
  pub chain_id : ℕ
  pub lists : List VerdictList
  pub sources : List VerdictSource
  pub unavailable_rules : List UnavailableRule

-- One entry of `tokensOut`.
pub record TokenOut : Type 0 where
  pub token : String
  pub amount_out : ℕ
  pub recipients : List String
  pub burned : Bool
  pub unidentified_recipient : Bool

pub record ValueEffects : Type 0 where
  pub observed : Bool
  pub eth_out : ℕ
  pub eth_recipients : List String
  pub tokens_out : List TokenOut

pub record Verdict : Type 0 where
  pub tier : RiskTier
  pub action : String
  pub findings : List Finding
  pub provenance : VerdictProvenance
  pub effects : ValueEffects
  pub evaluated_at : ℕ

pub record AccountDiff : Type 0 where
  pub balance : Option ℕ
  pub nonce : Option ℕ
  pub code : Option String
  pub storage : Option (List (String × ℕ))

pub record StateDiff : Type 0 where
  pub pre : List (String × AccountDiff)
  pub post : List (String × AccountDiff)
  pub block_number : ℕ
  pub block_timestamp : Option ℕ
  pub revert_reason : Option String

-- `record[key]`, undefined on a missing key.
unfoldable pub field {ℓ} : {V : Type ℓ} → String → List (String × V) → Option V
field k [] = none
field k ((j, v) ∷ m) = if j == k then some v else field k m

-- An asynchronous call settles with a value, or rejects with an error that has a message.
pub data Settled {ℓ} (A : Type ℓ) : Type ℓ where
  value : A → Settled A
  rejected : String → Settled A

pub record RuleContext : Type 0 where
  pub transaction : UnsignedTransaction
  pub diff : StateDiff
  pub effects : ValueEffects
  pub get_storage_at : String → String → Settled ℕ
  pub get_code : String → Settled String
  pub call : String → String → Settled (Option String)

pub data RuleOutcome : Type 0 where
  evaluated : List Finding → List VerdictSource → List RuleList → RuleOutcome
  not_evaluated : String → Detail → RuleOutcome

pub record Rule : Type 0 where
  pub id : String
  pub evaluate : RuleContext → Settled RuleOutcome

pub Settled-cases {ℓ} :
    {A : Type ℓ} (x : Settled A) → ((m : String) × (x ≡ rejected m)) ⊎ ((a : A) × (x ≡ value a))
Settled-cases (rejected m) = inl (m, refl)
Settled-cases (value a) = inr (a, refl)

module _ {ℓ} {A : Type ℓ} where
  pub value_injective : {x y : A} → value x ≡ value y → x ≡ y
  value_injective h = cc h

  pub rejected-ne-value : (m : String) (x : A) → ¬ (rejected m ≡ value x)
  rejected-ne-value m x h = cc h
