-- ===== src/Engine/Evaluate.antt =====
-- What `evaluate` of engine.ts returns: fail-closed tiers, and an account of every rule.
use presign.Prelude.{
  ℕ, ◌≤◌, String, ◌≡◌, refl, sym, ap, ◌∙◌, ◌≢◌, ◌↔◌, false, List, [], ◌∷◌, ◌++◌, arith, All, Option,
  none, some, not, is_empty, nat_eq, All-append, All-append_split,
}
use native.Mathlib.Decide.{ℕ_discrete}
use mathlib.Core.List.{append_assoc, append-nil, append-eq-nil_iff}
use presign.Types.{
  low, Finding, UnsignedTransaction, StateDiff, Rule, RuleContext, RuleOutcome, evaluated,
  not_evaluated, value, value_injective, UnavailableRule, Verdict, reverts,
}
use presign.Mappings.{Viem}
use presign.Engine.{
  VerdictEngine, TierPolicy, tier_index, contribution, tier_of, evaluate, judge, refusal, context,
  outcome_of, collect, collect_one, note_revert, Collected, nothing,
}
use presign.Engine.Tier.{tier_of-eq-low_iff}

-- The findings of an outcome, none where the rule was unavailable.
abbrev pub findings_of : RuleOutcome → List Finding
findings_of (evaluated fs ss ls) = fs
findings_of (not_evaluated reason detail) = []

abbrev pub unavailable_of : String → RuleOutcome → List UnavailableRule
unavailable_of id (evaluated fs ss ls) = []
unavailable_of id (not_evaluated reason detail) =
    record { rule_id = id; reason = reason; detail = detail } ∷ []

-- In rule order: what the rules found, and which of them could not run.
abbrev pub all_findings : RuleContext → List Rule → List Finding
all_findings ctx [] = []
all_findings ctx (r ∷ rs) = findings_of (outcome_of (r.evaluate ctx)) ++ all_findings ctx rs

abbrev pub all_unavailable : RuleContext → List Rule → List UnavailableRule
all_unavailable ctx [] = []
all_unavailable ctx (r ∷ rs) =
    unavailable_of r.id (outcome_of (r.evaluate ctx)) ++ all_unavailable ctx rs

abbrev pub revert_entry : Option String → List UnavailableRule
revert_entry none = []
revert_entry (some why) =
    record { rule_id = "SIM"; reason = "reverts_in_simulation"; detail = reverts why } ∷ []

collect_one-findings :
    (now : ℕ) (id : String) (o : RuleOutcome) (c : Collected)
    → (collect_one now id o c).findings ≡ c.findings ++ findings_of o
unfolding collect_one
collect_one-findings now id (evaluated fs ss ls) c = refl
collect_one-findings now id (not_evaluated r d) c = sym (append-nil c.findings)

collect_one-unavailable :
    (now : ℕ) (id : String) (o : RuleOutcome) (c : Collected)
    → (collect_one now id o c).unavailable_rules ≡ c.unavailable_rules ++ unavailable_of id o
unfolding collect_one
collect_one-unavailable now id (evaluated fs ss ls) c = sym (append-nil c.unavailable_rules)
collect_one-unavailable now id (not_evaluated r d) c = refl

collect-findings :
    (now : ℕ) (ctx : RuleContext) (rs : List Rule) (c : Collected)
    → (collect now ctx rs c).findings ≡ c.findings ++ all_findings ctx rs
unfolding collect
collect-findings now ctx [] c = sym (append-nil c.findings)
collect-findings now ctx (r ∷ rs) c =
    collect-findings now ctx rs (collect_one now r.id (outcome_of (r.evaluate ctx)) c)
    ∙ ap (λ l. l ++ all_findings ctx rs)
        (collect_one-findings now r.id (outcome_of (r.evaluate ctx)) c)
    ∙ append_assoc c.findings (findings_of (outcome_of (r.evaluate ctx))) (all_findings ctx rs)

collect-unavailable :
    (now : ℕ) (ctx : RuleContext) (rs : List Rule) (c : Collected)
    → (collect now ctx rs c).unavailable_rules ≡ c.unavailable_rules ++ all_unavailable ctx rs
unfolding collect
collect-unavailable now ctx [] c = sym (append-nil c.unavailable_rules)
collect-unavailable now ctx (r ∷ rs) c =
    collect-unavailable now ctx rs (collect_one now r.id (outcome_of (r.evaluate ctx)) c)
    ∙ ap (λ l. l ++ all_unavailable ctx rs)
        (collect_one-unavailable now r.id (outcome_of (r.evaluate ctx)) c)
    ∙ append_assoc c.unavailable_rules (unavailable_of r.id (outcome_of (r.evaluate ctx)))
        (all_unavailable ctx rs)

note_revert-findings :
    (why : Option String) (c : Collected) → (note_revert why c).findings ≡ c.findings
unfolding note_revert
note_revert-findings none c = refl
note_revert-findings (some why) c = refl

note_revert-unavailable :
    (why : Option String) (c : Collected)
    → (note_revert why c).unavailable_rules ≡ c.unavailable_rules ++ revert_entry why
unfolding note_revert
note_revert-unavailable none c = sym (append-nil c.unavailable_rules)
note_revert-unavailable (some why) c = refl

module _ (viem : Viem) (engine : VerdictEngine) (tx : UnsignedTransaction) (diff : StateDiff) where
  abbrev ctx : RuleContext
  ctx = context viem engine tx diff

  -- Every rule is accounted for, in order: the verdict's findings are those of the rules that ran,
  -- and its unavailable rules are those that could not run, then the simulation if it reverted.
  pub judge_accounts :
      ((judge viem engine tx diff).findings
        ≡ all_findings (context viem engine tx diff) engine.rules)
      × ((judge viem engine tx diff).provenance.unavailable_rules
          ≡ all_unavailable (context viem engine tx diff) engine.rules
            ++ revert_entry diff.revert_reason)
  unfolding judge
  judge_accounts =
      let c = collect engine.now ctx engine.rules nothing in
      (
        note_revert-findings diff.revert_reason c
            ∙ collect-findings engine.now ctx engine.rules nothing,
        note_revert-unavailable diff.revert_reason c
            ∙ ap (λ l. l ++ revert_entry diff.revert_reason)
                (collect-unavailable engine.now ctx engine.rules nothing),
      )

  pub judge_tier :
      (judge viem engine tx diff).tier
      ≡ tier_of engine.policy
          (judge viem engine tx diff).findings
          (not (is_empty (judge viem engine tx diff).provenance.unavailable_rules))
  unfolding judge
  judge_tier = refl

-- The rule ran to a conclusion and none of its findings contributes more than `low`.
abbrev pub IsQuiet : TierPolicy → RuleContext → Rule → Type 0
IsQuiet policy ctx r =
    (unavailable_of r.id (outcome_of (r.evaluate ctx)) ≡ [])
    × All (λ f. tier_index (contribution policy f) ≤ 1) (findings_of (outcome_of (r.evaluate ctx)))

IsQuiet-All :
    (policy : TierPolicy) (c : RuleContext) (rs : List Rule)
    → All (λ f. tier_index (contribution policy f) ≤ 1) (all_findings c rs)
    → all_unavailable c rs ≡ []
    → All (IsQuiet policy c) rs
IsQuiet-All policy c [] h e = tt
IsQuiet-All policy c (r ∷ rs) h e =
    let (here, later) = append-eq-nil_iff.0 e in
    let (quiet, rest) =
      All-append_split (λ f. tier_index (contribution policy f) ≤ 1)
        (findings_of (outcome_of (r.evaluate c))) (all_findings c rs) h in
    ((here, quiet), IsQuiet-All policy c rs rest later)

All-IsQuiet :
    (policy : TierPolicy) (c : RuleContext) (rs : List Rule)
    → All (IsQuiet policy c) rs
    → All (λ f. tier_index (contribution policy f) ≤ 1) (all_findings c rs)
      × (all_unavailable c rs ≡ [])
All-IsQuiet policy c [] h = (tt, refl)
All-IsQuiet policy c (r ∷ rs) h =
    let (quiet, clear) = All-IsQuiet policy c rs h.1 in
    (
      All-append (λ f. tier_index (contribution policy f) ≤ 1)
          (findings_of (outcome_of (r.evaluate c))) (all_findings c rs) h.0.1 quiet,
      append-eq-nil_iff.1 (h.0.0, clear),
    )

is_empty_iff : (l : List UnavailableRule) → (not (is_empty l) ≡ false) ↔ (l ≡ [])
is_empty_iff [] = (λ h. refl, λ h. refl)
is_empty_iff (x ∷ l) = (λ h. cc, λ h. cc)

revert_entry_iff : (why : Option String) → (revert_entry why ≡ []) ↔ (why ≡ none)
revert_entry_iff none = (λ h. refl, λ h. refl)
revert_entry_iff (some why) = (λ h. cc, λ h. cc)

judge-low_iff :
    (viem : Viem) (engine : VerdictEngine) (tx : UnsignedTransaction) (diff : StateDiff)
    → ((judge viem engine tx diff).tier ≡ low) ↔ (
        (diff.revert_reason ≡ none)
        × All (IsQuiet engine.policy (context viem engine tx diff)) engine.rules)
judge-low_iff viem engine tx diff =
    let v = judge viem engine tx diff in
    let c = context viem engine tx diff in
    let (fs, us) = judge_accounts viem engine tx diff in
    let t = judge_tier viem engine tx diff in
    let (to, from) =
      tier_of-eq-low_iff engine.policy v.findings (not (is_empty v.provenance.unavailable_rules)) in
    (
      λ h.
          let (ran, quiet) = to (sym t ∙ h) in
          let (clear, no_revert) = append-eq-nil_iff.0 (sym us ∙ (is_empty_iff _).0 ran) in
          (
            (revert_entry_iff _).0 no_revert,
            IsQuiet-All engine.policy c engine.rules (rw fs at quiet) clear,
          ),
      λ h.
          let (quiet, clear) = All-IsQuiet engine.policy c engine.rules h.1 in
          t
          ∙ from (
            (is_empty_iff _).1 (us ∙ append-eq-nil_iff.1 (clear, (revert_entry_iff _).1 h.0)),
            rw fs quiet,
          ),
    )

module _ (viem : Viem) (engine : VerdictEngine) (tx : UnsignedTransaction) (fork_chain : ℕ) where
  pub evaluate_own :
      (diff : StateDiff)
      → engine.simulator.chain_id ≡ value fork_chain
      → engine.simulator.simulate tx ≡ value diff
      → tx.chain_id ≡ fork_chain
      → evaluate viem engine tx ≡ value (judge viem engine tx diff)
  unfolding evaluate
  evaluate_own diff hc hs same = rw (hc, (nat_eq.equals_iff _ _).1 same, hs)

  evaluate_foreign :
      engine.simulator.chain_id ≡ value fork_chain
      → tx.chain_id ≢ fork_chain
      → evaluate viem engine tx ≡ value (refusal engine fork_chain tx)
  unfolding evaluate
  evaluate_foreign hc other = rw hc (ground arith)

refusal-ne-low :
    (engine : VerdictEngine) (n : ℕ) (tx : UnsignedTransaction) → (refusal engine n tx).tier ≢ low
unfolding refusal
refusal-ne-low engine n tx h = cc

-- Where the fork answers with its chain and a state diff, a verdict is `low` exactly when the transaction is for the fork's chain, its simulation did not
-- revert, and every rule ran to a conclusion with no finding that contributes more than `low`.
pub evaluate-low_iff :
    (viem : Viem) (engine : VerdictEngine) (tx : UnsignedTransaction) (fork_chain : ℕ)
    (diff : StateDiff) (v : Verdict)
    → engine.simulator.chain_id ≡ value fork_chain
    → engine.simulator.simulate tx ≡ value diff
    → evaluate viem engine tx ≡ value v
    → (v.tier ≡ low) ↔ (
        (tx.chain_id ≡ fork_chain)
        × (diff.revert_reason ≡ none)
        × All (IsQuiet engine.policy (context viem engine tx diff)) engine.rules)
evaluate-low_iff viem engine tx fork_chain diff v hc hs hv =
    elim (ℕ_discrete tx.chain_id fork_chain) [
      | yes same ↦
          let e : judge viem engine tx diff ≡ v =
            value_injective (sym (evaluate_own viem engine tx fork_chain diff hc hs same) ∙ hv) in
          let (to, from) = judge-low_iff viem engine tx diff in
          let t : (judge viem engine tx diff).tier ≡ v.tier = ap (λ (w : Verdict). w.tier) e in
          (λ h. (same, (to (t ∙ h)).0, (to (t ∙ h)).1), λ h. sym t ∙ from (h.1, h.2))
      | no other ↦
          let e : refusal engine fork_chain tx ≡ v =
            value_injective (sym (evaluate_foreign viem engine tx fork_chain hc other) ∙ hv) in
          let t : (refusal engine fork_chain tx).tier ≡ v.tier = ap (λ (w : Verdict). w.tier) e in
          (λ h. absurd (refusal-ne-low engine fork_chain tx (t ∙ h)), λ h. absurd (other h.0))
    ]
