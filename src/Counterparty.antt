-- ===== src/Counterparty.antt =====
-- packages/verdict-engine/src/rules/r4-unidentified-counterparty.ts: rule R4. The directory and the
-- source of a contract's age are parameters. `CHAIN_TO_NETWORK` is that of r3-invariant-breach.ts.
pub mod Verdicts
mod Tests
use Prim.Native.String
use presign.Prelude.{
  ℕ, ◌+◌, ◌-◌, ◌/◌, String, Bool, true, false, ◌&&◌, ◌||◌, Option, none, some, List, [], ◌∷◌, ◌++◌,
  leb, ltb, eqb, if◌then◌else◌, ◌==◌, string_eq, lower, text_take, text_drop, text_of, decimal,
  is_empty, not,
}
use text.Mathlib.Text.{starts_with}
use presign.Types.{
  info, warning, critical, Severity, Finding, RuleContext, RuleOutcome, evaluated, not_evaluated,
  Rule, Settled, value, rejected, sentence, field,
}
use presign.Capability.{DeploymentCandidate}
use presign.Origin.{ContractOrigin, deployed, older_than, indeterminate, is_indeterminate}
use presign.Duration.{human_duration}
use presign.Engine.{◌>>=◌}
use presign.Effects.{is_none}

abbrev pub default_fresh_deployment_seconds : ℕ
default_fresh_deployment_seconds = 604800

abbrev conventional_selectors : List (String × String)
conventional_selectors =
    ("0x095ea7b3", "approve(address,uint256)")
    ∷ ("0xa9059cbb", "transfer(address,uint256)")
    ∷ ("0x23b872dd", "transferFrom(address,address,uint256)")
    ∷ ("0xd0e30db0", "deposit()")
    ∷ ("0x2e1a7d4d", "withdraw(uint256)")
    ∷ ("0x3593564c", "execute(bytes,bytes[],uint256)")
    ∷ []

-- CHAIN_TO_NETWORK[id]
unfoldable pub chain_to_network : ℕ → Option String
chain_to_network id =
    if eqb id 1
    then some "mainnet"
    else if eqb id 10
    then some "optimism"
    else if eqb id 137
    then some "matic"
    else if eqb id 8453
    then some "base"
    else if eqb id 42161
    then some "arbitrum-one"
    else none

-- UnidentifiedCounterpartyRuleOptions, with the two interfaces it holds.
pub record Options : Type 0 where
  pub find_indexing_deployments : String → String → Settled (List DeploymentCandidate)
  pub origin_of : String → Settled ContractOrigin
  pub fresh_deployment_seconds : ℕ
  -- what `now()` answers, in milliseconds
  pub now : ℕ

-- selectorOf
unfoldable pub selector_of : String → Option String
unfolding text_take lower
selector_of calldata =
    if leb 10 (String.count calldata) then some (lower (text_take 10 calldata)) else none

abbrev pub delegation_prefix : String
delegation_prefix = "0xef0100"

abbrev delegation_code_length : ℕ
delegation_code_length = 48

abbrev zero_address : String
zero_address = "0x0000000000000000000000000000000000000000"

-- delegateOf
unfoldable pub delegate_of : String → Option String
unfolding lower text_drop
delegate_of code =
    let lowered = lower code in
    let delegate : String = String.◌++◌ "0x" (text_drop 8 lowered) in
    if not (starts_with lowered delegation_prefix)
    then none
    else if not (eqb (String.count lowered) delegation_code_length)
    then none
    else if delegate == zero_address
    then none
    else some delegate

-- #delegationFinding
unfoldable pub delegation_finding : String → String → Finding
unfolding text_of
delegation_finding account delegate = record {
  rule_id = "R4";
  severity = info;
  standing = true;
  title = "Counterparty is an EIP-7702 delegated account";
  detail = text_of (
      account ∷ " is an account, not a contract. Its code is an EIP-7702 delegation to " ∷ delegate
      ∷ ", which is where the logic this call runs actually lives. The account holder can point that delegation somewhere else with a single signed authorisation — no proxy admin, no timelock — so what runs here is only as stable as their key."
      ∷ []);
  evidence = [];
}

-- #findingsForCodelessTarget
unfoldable pub findings_for_codeless_target : String → Option String → List Finding
unfolding text_of
findings_for_codeless_target target none = []
findings_for_codeless_target target (some selector) =
    record {
      rule_id = "R4";
      severity = warning;
      standing = false;
      title = "Call data sent to an address with no code";
      detail = text_of (
          target
          ∷ " holds no code at the simulated block, but this transaction carries calldata beginning "
          ∷ selector
          ∷ ". The call will not revert and will not do anything either: an address that cannot execute silently accepts any call. This is usually a wrong address or a contract that no longer exists."
          ∷ []);
      evidence = [];
    }
    ∷ []

-- `Math.max(0, Math.round(now / 1000 - timestamp))`
unfoldable pub age_of : ℕ → ℕ → ℕ
age_of now timestamp = (now + 500) / 1000 - timestamp

-- What `#describeAge` returns; the finding reads its `seconds` for the evidence alone.
pub record Age : Type 0 where
  pub fresh : Bool
  pub short : String
  pub sentence_of : String

-- #describeAge
unfoldable pub describe_age : Options → ContractOrigin → Age
unfolding age_of human_duration decimal text_of
describe_age o (indeterminate reason) = record {
  fresh = false;
  short = "at an unknown time";
  sentence_of = text_of (
      "Its age could not be established (" ∷ reason
      ∷ "), so how long it has existed is unknown rather than long." ∷ []);
}
describe_age o (older_than block timestamp) =
    let short : String = String.◌++◌ (human_duration (age_of o.now timestamp)) " ago" in
    record {
      fresh = false;
      short = short;
      sentence_of = text_of (
          "Code has existed at the address since at least block "
          ∷ decimal block
          ∷ ", "
          ∷ short
          ∷ ", so it is not a fresh deployment."
          ∷ []);
    }
describe_age o (deployed block timestamp) =
    let seconds = age_of o.now timestamp in
    let short : String = String.◌++◌ (human_duration seconds) " ago" in
    record {
      fresh = ltb seconds o.fresh_deployment_seconds;
      short = short;
      sentence_of = text_of (
          "Code first appeared at the address in block "
          ∷ decimal block
          ∷ ", "
          ∷ short
          ∷ ". "
          ∷ (if ltb seconds o.fresh_deployment_seconds
              then "A contract this new that nobody indexes has had no time to acquire any public record at all, which is the shape of a contract deployed for one transaction."
              else "It is old enough that its absence from every registry is a gap in coverage rather than a sign of a fresh deployment.")
          ∷ []);
    }

-- The sentence on the transaction's selector.
unfoldable pub selector_note : Option String → String
unfolding text_of field
selector_note none = "The transaction carries no calldata."
selector_note (some selector) = elim (field selector conventional_selectors) [
  | none ↦ text_of (
      "Its calldata begins " ∷ selector ∷ ", a selector this rule cannot interpret without an ABI."
      ∷ [])
  | some conventional ↦ text_of (
      "Its calldata begins " ∷ selector ∷ ", which matches " ∷ conventional
      ∷ " by convention only — on a contract nobody has identified, a familiar selector is a claim the code makes about itself, not evidence about what it does."
      ∷ [])
]

-- #unidentifiedFinding
unfoldable pub unidentified_finding :
    Options → String → String → Option String → ContractOrigin → Finding
unfolding describe_age selector_note text_of
unidentified_finding o target subject selector origin =
    let age = describe_age o origin in
    let delegated = not (subject == target) in
    let noun = if delegated then "delegate" else "contract" in
    record {
      rule_id = "R4";
      severity = if age.fresh then critical else if is_indeterminate origin then warning else info;
      standing = true;
      title =
          if age.fresh
          then text_of ("Unidentified " ∷ noun ∷ ", deployed " ∷ age.short ∷ [])
          else if is_indeterminate origin
          then text_of ("Unidentified " ∷ noun ∷ " of unknown age" ∷ [])
          else text_of (
              "Counterparty"
              ∷ (if delegated then "'s delegate" else "")
              ∷ " is not indexed by any known deployment"
              ∷ []);
      detail = text_of (
          "No deployment in the subgraph registry indexes "
          ∷ (if delegated
              then text_of (subject ∷ ", the contract " ∷ target ∷ " delegates to," ∷ [])
              else text_of (target ∷ "," ∷ []))
          ∷ " so nothing independent describes what this contract is. "
          ∷ age.sentence_of
          ∷ " "
          ∷ selector_note selector
          ∷ []);
      evidence = [];
    }

abbrev pub or_else {ℓ} : {A : Type ℓ} → Option A → A → A
or_else none a = a
or_else (some b) a = b

-- The rest of `evaluate`, from the answer of the registry on.
unfoldable pub judge_indexing :
    Options
    → String
    → Option String
    → Option String
    → Settled (List DeploymentCandidate)
    → Settled RuleOutcome
judge_indexing o target delegate selector (rejected message) =
    value (not_evaluated "identification_unavailable" (sentence message))
judge_indexing o target delegate selector (value indexing) =
    let delegation : List Finding = elim delegate [
      | none ↦ []
      | some d ↦ delegation_finding target d ∷ []
    ] in
    let subject = or_else delegate target in
    if not (is_empty indexing)
    then value (evaluated delegation [] [])
    else (o.origin_of subject >>= λ origin. value (
        evaluated (delegation ++ unidentified_finding o target subject selector origin ∷ []) [] []))

-- The rest of `evaluate`, from the network on.
unfoldable pub judge_network :
    Options → RuleContext → String → Option String → Option String → Settled RuleOutcome
unfolding judge_indexing
judge_network o ctx target delegate none = value (
    not_evaluated "unsupported_network" (
      sentence (
        text_of (
          "no contract registry is configured for chain "
          ∷ decimal ctx.transaction.chain_id
          ∷ ", so this counterparty could not be identified either way"
          ∷ []))))
judge_network o ctx target delegate (some network) =
    judge_indexing o target delegate (selector_of ctx.transaction.calldata)
      (o.find_indexing_deployments (or_else delegate target) network)

-- The rest of `evaluate`, from the code at the target on.
unfoldable pub judge_code : Options → RuleContext → String → String → Settled RuleOutcome
unfolding judge_network findings_for_codeless_target lower
judge_code o ctx target code =
    let delegate = if ltb 2 (String.count code) then delegate_of code else none in
    if leb (String.count code) 2 || (starts_with (lower code) delegation_prefix && is_none delegate)
    then value (
        evaluated (findings_for_codeless_target target (selector_of ctx.transaction.calldata)) []
          [])
    else judge_network o ctx target delegate (chain_to_network ctx.transaction.chain_id)

-- evaluate
unfoldable pub evaluate : Options → RuleContext → Settled RuleOutcome
unfolding judge_code lower
evaluate o ctx = elim ctx.transaction.to [
  | none ↦ value (evaluated [] [] [])
  | some to ↦ ctx.get_code (lower to) >>= judge_code o ctx (lower to)
]

-- UnidentifiedCounterpartyRule
abbrev pub unidentified_counterparty : Options → Rule
unidentified_counterparty o = record { id = "R4"; evaluate = evaluate o }
