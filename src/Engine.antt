-- ===== src/Engine.antt =====
-- packages/verdict-engine/src/engine.ts: rules composed into one verdict. The simulator enters as
-- the three calls that the engine makes of it; `withFreshFork` runs its argument, and the rules read
-- through the same simulator. Rules are settled in their order, as `Promise.all` returns them.
pub mod Tier
pub mod Tests
pub mod Evaluate
pub mod Rules
use presign.Prelude.{
  ℕ, ◌+◌, ◌-◌, ◌*◌, ◌/◌, String, Bool, true, false, ◌&&◌, Option, none, some, List, [], ◌∷◌, ◌++◌,
  map, leb, if◌then◌else◌, ◌==◌, nat_eq, not, is_empty,
}
use presign.Types.{
  UnsignedTransaction, RiskTier, low, medium, high, unavailable, Severity, info, warning, critical,
  Finding, VerdictSource, RuleList, VerdictList, UnavailableRule, VerdictProvenance, ValueEffects,
  Verdict, StateDiff, RuleContext, RuleOutcome, evaluated, not_evaluated, Rule, Settled, value,
  rejected, field, foreign_chain, reverts, sentence,
}
use presign.Effects.{no_effects, value_effects}
use presign.Mappings.{Viem}

-- TIER_ACTION
unfoldable pub tier_action : RiskTier → String
tier_action low = "The agent may sign without further confirmation."
tier_action medium = "Escalate to on-device human confirmation before signing."
tier_action high = "Do not sign. Report the finding."
tier_action unavailable =
    "Do not sign. Fresh context was unavailable, which is not the same as safe."

-- SEVERITY_TIER
abbrev pub severity_tier : Severity → RiskTier
severity_tier info = low
severity_tier warning = medium
severity_tier critical = high

-- `TIER_ORDER.indexOf(tier)` plus one: `unavailable` is not in the array, and `indexOf` gives -1.
abbrev pub tier_index : RiskTier → ℕ
tier_index unavailable = 0
tier_index low = 1
tier_index medium = 2
tier_index high = 3

unfoldable pub higher : RiskTier → RiskTier → RiskTier
higher a b = if leb (tier_index b) (tier_index a) then a else b

unfoldable pub capped : RiskTier → Option RiskTier → RiskTier
capped tier none = tier
capped tier (some ceiling) = if leb (tier_index tier) (tier_index ceiling) then tier else ceiling

-- TierPolicy; both the policy's field and an entry of it may be absent.
pub record TierPolicy : Type 0 where
  pub standing_ceilings : List (String × RiskTier)

abbrev pub default_tier_policy : TierPolicy
default_tier_policy = record { standing_ceilings = ("R2", medium) ∷ [] }

-- What one finding contributes: the body of the loop of `#tier`.
unfoldable pub contribution : TierPolicy → Finding → RiskTier
contribution policy f =
    capped (severity_tier f.severity)
      (if f.standing then field f.rule_id policy.standing_ceilings else none)

unfoldable pub fold_tier : TierPolicy → RiskTier → List Finding → RiskTier
fold_tier policy tier [] = tier
fold_tier policy tier (f ∷ fs) = fold_tier policy (higher tier (contribution policy f)) fs

abbrev is_low : RiskTier → Bool
is_low low = true
is_low _ = false

-- #tier
unfoldable pub tier_of : TierPolicy → List Finding → Bool → RiskTier
tier_of policy findings any_unavailable =
    let tier = fold_tier policy low findings in
    if any_unavailable && is_low tier then unavailable else tier

-- ForkSimulator, as the engine calls it.
pub record Simulator : Type 0 where
  pub chain_id : Settled ℕ
  pub simulate : UnsignedTransaction → Settled StateDiff
  pub get_storage_at : String → String → Settled ℕ
  pub get_code : String → Settled String
  pub call : String → String → Settled (Option String)

pub record VerdictEngine : Type 0 where
  pub simulator : Simulator
  pub rules : List Rule
  pub policy : TierPolicy
  -- what `now()` answers, in milliseconds
  pub now : ℕ

-- `Math.max(0, Math.round((now - moment) / 100) / 10)`, in tenths of a second.
unfoldable pub seconds_since : ℕ → ℕ → ℕ
seconds_since now moment = (now - moment + 50) / 100

-- #refuseForeignChain, past the test of the chain.
unfoldable pub refusal : VerdictEngine → ℕ → UnsignedTransaction → Verdict
refusal engine fork_chain tx =
    let detail = foreign_chain fork_chain tx.chain_id in
    record {
      tier = unavailable;
      action = tier_action unavailable;
      findings = [];
      provenance = record {
        simulated_at_block = none;
        simulated_block_age = none;
        chain_id = tx.chain_id;
        lists = [];
        sources = [];
        unavailable_rules =
            record { rule_id = "SIM"; reason = "unsupported_chain"; detail = detail }
            ∷ map
                (λ (r : Rule). record {
                  rule_id = r.id;
                  reason = "unsupported_chain";
                  detail = detail;
                })
                engine.rules;
      };
      effects = no_effects;
      evaluated_at = engine.now;
    }

-- The `try` round `rule.evaluate`: a rule that throws is unavailable.
unfoldable pub outcome_of : Settled RuleOutcome → RuleOutcome
outcome_of (value o) = o
outcome_of (rejected message) = not_evaluated "rule_error" (sentence message)

-- What the loop over the outcomes collects.
pub record Collected : Type 0 where
  pub findings : List Finding
  pub sources : List VerdictSource
  pub lists : List VerdictList
  pub unavailable_rules : List UnavailableRule

abbrev pub nothing : Collected
nothing = record { findings = []; sources = []; lists = []; unavailable_rules = [] }

unfoldable pub aged : ℕ → RuleList → VerdictList
aged now l = record {
  list = l;
  age_seconds = elim l.fetched_at [ none ↦ none | some at ↦ some (seconds_since now at) ];
}

unfoldable pub collect_one : ℕ → String → RuleOutcome → Collected → Collected
collect_one now id (not_evaluated reason detail) c = record c {
  unavailable_rules =
      c.unavailable_rules ++ record { rule_id = id; reason = reason; detail = detail } ∷ [];
}
collect_one now id (evaluated findings sources lists) c = record c {
  findings = c.findings ++ findings;
  sources = c.sources ++ sources;
  lists = c.lists ++ map (aged now) lists;
}

unfoldable pub collect : ℕ → RuleContext → List Rule → Collected → Collected
collect now ctx [] c = c
collect now ctx (r ∷ rs) c =
    collect now ctx rs (collect_one now r.id (outcome_of (r.evaluate ctx)) c)

-- A revert is a transaction not evaluated.
unfoldable pub note_revert : Option String → Collected → Collected
note_revert none c = c
note_revert (some why) c = record c {
  unavailable_rules =
      c.unavailable_rules
      ++ record { rule_id = "SIM"; reason = "reverts_in_simulation"; detail = reverts why } ∷ [];
}

infixl 5 ◌>>=◌
abbrev pub ◌>>=◌ {ℓ κ} : {A : Type ℓ} {B : Type κ} → Settled A → (A → Settled B) → Settled B
value a >>= f = f a
rejected e >>= f = rejected e

module _ (viem : Viem) where
  unfoldable pub context : VerdictEngine → UnsignedTransaction → StateDiff → RuleContext
  context engine tx diff = record {
    transaction = tx;
    diff = diff;
    effects = value_effects viem tx diff;
    get_storage_at = engine.simulator.get_storage_at;
    get_code = engine.simulator.get_code;
    call = engine.simulator.call;
  }

  -- The rest of `#evaluate`, from the diff on.
  unfoldable pub judge : VerdictEngine → UnsignedTransaction → StateDiff → Verdict
  judge engine tx diff =
      let c =
        note_revert diff.revert_reason
          (collect engine.now (context engine tx diff) engine.rules nothing) in
      let tier = tier_of engine.policy c.findings (not (is_empty c.unavailable_rules)) in
      record {
        tier = tier;
        action = tier_action tier;
        findings = c.findings;
        provenance = record {
          simulated_at_block = some diff.block_number;
          simulated_block_age = elim diff.block_timestamp [
            | none ↦ none
            | some at ↦ some (seconds_since engine.now (at * 1000))
          ];
          chain_id = tx.chain_id;
          lists = c.lists;
          sources = c.sources;
          unavailable_rules = c.unavailable_rules;
        };
        effects = value_effects viem tx diff;
        evaluated_at = engine.now;
      }

  -- evaluate, with #refuseForeignChain and #evaluate
  unfoldable pub evaluate : VerdictEngine → UnsignedTransaction → Settled Verdict
  evaluate engine tx = do
    fork_chain ← engine.simulator.chain_id
    if tx.chain_id == fork_chain
        then (engine.simulator.simulate tx >>= λ diff. value (judge engine tx diff))
        else value (refusal engine fork_chain tx)
