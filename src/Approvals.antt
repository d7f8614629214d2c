-- ===== src/Approvals.antt =====
-- packages/verdict-engine/src/rules/r1-unlimited-approval.ts: rule R1. viem's `pad(address, { size:
-- 32 })` is a parameter beside its hash. Of the two reads that `Promise.all` gathers, the first that
-- fails here is that of the total supply.
pub mod Evaluate
pub mod Budgets
pub mod Listed
mod Tests
use Prim.Native.String
use Prim.Native.Char.{code}
use presign.Prelude.{
  ℕ, zero, suc, ◌+◌, ◌-◌, ◌*◌, ◌^◌, String, Bool, true, false, ◌&&◌, ◌||◌, Option, none, some, List,
  [], ◌∷◌, ◌++◌, map, leb, ltb, eqb, if◌then◌else◌, ◌==◌, string_eq, lower, text_drop, text_of,
  decimal, includes, is_empty, not,
}
use presign.Types.{
  warning, critical, Severity, Finding, RuleContext, RuleOutcome, evaluated, not_evaluated,
  RuleList, Rule, Settled, value, rejected, sentence, TokenOut, AccountDiff, ValueEffects,
  UnsignedTransaction,
}
use presign.JsMap.{get, put}
use presign.Mappings.{
  Viem, MappingEntry, max_mapping_slot, nested_mapping_entries, transaction_addresses,
}
use presign.Incidents.{
  IncidentRegistry, Status, RegistryInput, not_configured, registry, address_list,
  to_incident_registry,
}
use presign.Duration.{iso_string}

abbrev pub unlimited_threshold : ℕ
unlimited_threshold = 2 ^ 128

abbrev max_uint256 : ℕ
max_uint256 = 2 ^ 256 - 1

abbrev pub total_supply_selector : String
total_supply_selector = "0x18160ddd"

abbrev pub balance_of_selector : String
balance_of_selector = "0x70a08231"

abbrev pub is_approved_for_all_selector : String
is_approved_for_all_selector = "0xe985e9c5"

-- UnlimitedApprovalRuleOptions
pub record Options : Type 0 where
  pub allowlist : List String
  pub incident_registry : RegistryInput
  pub max_slot : ℕ

abbrev pub default_options : Options
default_options = record {
  allowlist = [];
  incident_registry = not_configured;
  max_slot = max_mapping_slot;
}

-- The rule, as its constructor makes it of the options.
pub record ApprovalRule : Type 0 where
  pub allowlist : List String
  pub incidents : IncidentRegistry
  pub has_registry : Bool
  pub max_slot : ℕ

abbrev is_configured : RegistryInput → Bool
is_configured not_configured = false
is_configured _ = true

unfoldable pub new_rule : Options → ApprovalRule
unfolding lower to_incident_registry
new_rule o = record {
  allowlist = map lower o.allowlist;
  incidents = to_incident_registry o.incident_registry;
  has_registry = is_configured o.incident_registry;
  max_slot = o.max_slot;
}

-- UnlimitedBasis
pub data Basis : Type 0 where
  at_least_2_128 at_least_total_supply covers_balance : Basis

pub data Grant : Type 0 where
  operator : Grant
  -- the basis, the total supply and the owner's balance
  allowance : Option Basis → Option ℕ → Option ℕ → Grant

-- The value of a hexadecimal digit, in either case.
abbrev pub hex_digit : ℕ → ℕ
hex_digit c = if leb c b'9' then c - b'0' else if leb c b'F' then c - b'A' + 10 else c - b'a' + 10

-- The digits, after the number that those before them denote.
unfoldable pub hex_value : ℕ → String → ℕ
hex_value n String.[] = n
hex_value n (String.◌∷◌ c s) = hex_value (n * 16 + hex_digit (code c)) s

-- uintResult
unfoldable pub uint_result : Option String → Option ℕ
unfolding hex_value text_drop
uint_result none = none
uint_result (some result) =
    if eqb (String.count result) 66 then some (hex_value 0 (text_drop 2 result)) else none

-- A read that gave a positive number which the amount reaches.
abbrev pub reaches : ℕ → Option ℕ → Bool
reaches amount none = false
reaches amount (some n) = ltb 0 n && leb n amount

-- The answer is one word.
abbrev pub is_word : Option String → Bool
is_word none = false
is_word (some answer) = eqb (String.count answer) 66

unfoldable pub basis_of : ℕ → Option ℕ → Option ℕ → Option Basis
basis_of amount supply balance =
    if reaches amount supply
    then some at_least_total_supply
    else if reaches amount balance
    then some covers_balance
    else none

-- The registry's name and the moment of its list, at the end of a sentence.
unfoldable pub listed_by : String → Status → String
unfolding text_of iso_string
listed_by start status = text_of (
    start
    ∷ status.source
    ∷ elim status.fetched_at [
      | none ↦ "."
      | some at ↦ text_of (", as fetched at " ∷ iso_string at ∷ "." ∷ [])
    ]
    ∷ [])

abbrev pub is_unlimited : Grant → Bool
is_unlimited (allowance (some at_least_2_128) supply balance) = true
is_unlimited (allowance (some at_least_total_supply) supply balance) = true
is_unlimited _ = false

unfoldable pub approval_title : Grant → Bool → String
approval_title operator true = "Operator approval to an address linked to a known incident"
approval_title operator false =
    "Operator approval over a whole collection to an unrecognised operator"
approval_title (allowance basis supply balance) true =
    if is_unlimited (allowance basis supply balance)
    then "Unlimited approval to an address linked to a known incident"
    else "Approval to an address linked to a known incident"
approval_title (allowance (some covers_balance) supply balance) false =
    "Approval of the entire token balance to an unrecognised spender"
approval_title (allowance _ supply balance) false =
    "Unlimited token approval to an unrecognised spender"

-- `${n}`, of a number that may be null
abbrev shown : Option ℕ → String
shown none = "null"
shown (some n) = decimal n

unfoldable pub consequence : Option Basis → Option ℕ → Option ℕ → String
unfolding text_of decimal
consequence (some at_least_2_128) supply balance =
    "The spender may move the full balance at any time, indefinitely."
consequence (some at_least_total_supply) supply balance = text_of (
    "That is at least the token's entire supply of "
    ∷ shown supply
    ∷ ", so no balance could exhaust it: the spender may move the full balance at any time, indefinitely."
    ∷ [])
consequence (some covers_balance) supply balance =
    text_of ("That covers the owner's whole current balance of " ∷ shown balance ∷ "." ∷ [])
consequence none supply balance = "The amount caps the loss, not the risk."

unfoldable pub approval_detail : String → String → String → ℕ → Grant → String
unfolding consequence text_of decimal
approval_detail token owner spender amount operator = text_of (
    "This transaction makes " ∷ spender ∷ " an operator for " ∷ owner ∷ " on " ∷ token
    ∷ ": it may transfer every token of that collection the owner holds now or receives later."
    ∷ [])
approval_detail token owner spender amount (allowance basis supply balance) = text_of (
    "This transaction sets allowance["
    ∷ owner
    ∷ "]["
    ∷ spender
    ∷ "] on token "
    ∷ token
    ∷ " to "
    ∷ (if eqb amount max_uint256 then "type(uint256).max" else decimal amount)
    ∷ ". "
    ∷ consequence basis supply balance
    ∷ [])

-- #approvalFinding
unfoldable pub approval_finding :
    ApprovalRule → String → String → String → ℕ → Grant → Bool → Finding
unfolding approval_title approval_detail listed_by
approval_finding rule token owner spender amount grant listed = record {
  rule_id = "R1";
  severity = if listed then critical else warning;
  standing = false;
  title = approval_title grant listed;
  detail =
      String.◌++◌ (approval_detail token owner spender amount grant)
        (if listed then listed_by " This address is listed by " rule.incidents.status else "");
  evidence = [];
}

-- An allowance within a budget, which no basis applies to.
abbrev pub is_budget : Grant → Bool
is_budget (allowance none supply balance) = true
is_budget _ = false

-- How a listed address is reached.
pub record Reached : Type 0 where
  pub called : Bool
  pub eth : Bool
  pub tokens : List String

abbrev pub unreached : Reached
unreached = record { called = false; eth = false; tokens = [] }

-- `entry(address)` and the change made to what it returns.
unfoldable pub reach :
    (Reached → Reached) → String → List (String × Reached) → List (String × Reached)
unfolding lower
reach change address m = elim (get (lower address) m) [
  | none ↦ put (lower address) (change unreached) m
  | some how ↦ put (lower address) (change how) m
]

unfoldable pub reach_all :
    (Reached → Reached) → List String → List (String × Reached) → List (String × Reached)
unfolding reach
reach_all change [] m = m
reach_all change (a ∷ rest) m = reach_all change rest (reach change a m)

unfoldable pub reach_tokens : List TokenOut → List (String × Reached) → List (String × Reached)
unfolding reach_all
reach_tokens [] m = m
reach_tokens (t ∷ ts) m =
    reach_tokens ts (reach_all (λ h. record h { tokens = h.tokens ++ t.token ∷ [] }) t.recipients m)

unfoldable pub reached_addresses : UnsignedTransaction → ValueEffects → List (String × Reached)
unfolding reach reach_all reach_tokens
reached_addresses tx effects =
    let called : List (String × Reached) = elim tx.to [
      | none ↦ []
      | some to ↦ reach (λ h. record h { called = true }) to []
    ] in
    reach_tokens effects.tokens_out
      (reach_all (λ h. record h { eth = true }) effects.eth_recipients called)

-- `list.join(glue)`
unfoldable pub join : String → List String → String
join glue [] = ""
join glue (s ∷ []) = s
join glue (s ∷ t ∷ rest) = String.◌++◌ s (String.◌++◌ glue (join glue (t ∷ rest)))

unfoldable pub reached_finding : ApprovalRule → String → Reached → Finding
unfolding listed_by text_of join
reached_finding rule address how =
    let ways : List String =
      (if how.called then "is the address this transaction calls" ∷ [] else [])
      ++ (if how.eth then "receives ETH from the sender" ∷ [] else [])
      ++ (if is_empty how.tokens
          then []
          else text_of ("receives the sender's tokens of " ∷ join ", " how.tokens ∷ []) ∷ []) in
    record {
      rule_id = "R1";
      severity = critical;
      standing = false;
      title =
          if how.eth || not (is_empty how.tokens)
          then "Sends value to an address linked to a known incident"
          else "Calls an address linked to a known incident";
      detail = text_of (
          address
          ∷ " "
          ∷ join " and " ways
          ∷ ". It is listed by "
          ∷ listed_by "" rule.incidents.status
          ∷ []);
      evidence = [];
    }

unfoldable pub listed_findings : ApprovalRule → List (String × Reached) → List Finding
unfolding reached_finding
listed_findings rule [] = []
listed_findings rule ((address, how) ∷ rest) =
    if rule.incidents.has address
    then reached_finding rule address how ∷ listed_findings rule rest
    else listed_findings rule rest

-- #reachedListedAddresses
unfoldable pub reached_listed_addresses : ApprovalRule → RuleContext → List Finding
unfolding listed_findings reached_addresses
reached_listed_addresses rule ctx =
    listed_findings rule (reached_addresses ctx.transaction ctx.effects)

abbrev pub rule_list : Status → RuleList
rule_list status = record {
  source = status.source;
  url = status.url;
  entries = status.entries;
  fetched_at = status.fetched_at;
}
