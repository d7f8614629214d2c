-- ===== src/Engine/Rules.antt =====
-- What one rule among the engine's rules does to the verdict.
use mathlib.Core.List.{Memᴰ}
use mathlib.Core.Path.{subst}
use presign.Prelude.{
  ℕ, ◌≡◌, refl, sym, ap, ◌∙◌, Bool, true, ◌||◌, List, [], ◌∷◌, ◌++◌, arith, any, ltb, not, is_empty,
  All,
}
use presign.Types.{
  low, high, Settled, rejected, rejected-ne-value, Finding, UnsignedTransaction, StateDiff, Rule,
  RuleContext, Verdict, value, value_injective,
}
use presign.Mappings.{Viem}
use presign.Engine.{
  VerdictEngine, TierPolicy, tier_index, contribution, evaluate, judge, context, outcome_of, ◌>>=◌,
}
use presign.Engine.Tier.{tier_of-high}
use presign.Engine.Evaluate.{
  findings_of, all_findings, judge_accounts, judge_tier, IsQuiet, evaluate-low_iff, evaluate_own,
}

-- A finding that contributes `high`.
abbrev pub is_grave : TierPolicy → Finding → Bool
is_grave policy f = ltb 2 (tier_index (contribution policy f))

pub any-append {ℓ} :
    {A : Type ℓ} (p : A → Bool) (xs ys : List A) → any p (xs ++ ys) ≡ (any p xs || any p ys)
any-append p [] ys = refl
any-append p (x ∷ xs) ys = ground (arith, any-append p xs ys)

any-all_findings :
    (p : Finding → Bool) (ctx : RuleContext) (r : Rule) (rs : List Rule)
    → Memᴰ r rs
    → any p (findings_of (outcome_of (r.evaluate ctx))) ≡ true
    → any p (all_findings ctx rs) ≡ true
any-all_findings p ctx r rs (Memᴰ.head {x} {xs} e) h =
    any-append p (findings_of (outcome_of (x.evaluate ctx))) (all_findings ctx xs)
    ∙ ap (λ b. b || any p (all_findings ctx xs))
        (ap (λ (s : Rule). any p (findings_of (outcome_of (s.evaluate ctx)))) (sym e) ∙ h)
any-all_findings p ctx r rs (Memᴰ.tail {x} {xs} m) h =
    any-append p (findings_of (outcome_of (x.evaluate ctx))) (all_findings ctx xs)
    ∙ ground (arith, any-all_findings p ctx r xs m h)

-- A rule of the engine that finds something grave makes the verdict on a transaction for the fork's
-- chain `high`, whatever the other rules answer.
pub evaluate_grave :
    (viem : Viem) (engine : VerdictEngine) (tx : UnsignedTransaction) (fork_chain : ℕ)
    (diff : StateDiff) (v : Verdict) (r : Rule)
    → engine.simulator.chain_id ≡ value fork_chain
    → engine.simulator.simulate tx ≡ value diff
    → tx.chain_id ≡ fork_chain
    → evaluate viem engine tx ≡ value v
    → Memᴰ r engine.rules
    → any
        (is_grave engine.policy)
        (findings_of (outcome_of (r.evaluate (context viem engine tx diff))))
      ≡ true
    → v.tier ≡ high
evaluate_grave viem engine tx fork_chain diff v r hc hs same hv m h =
    let e : judge viem engine tx diff ≡ v =
      value_injective (sym (evaluate_own viem engine tx fork_chain diff hc hs same) ∙ hv) in
    let found : any (is_grave engine.policy) (judge viem engine tx diff).findings ≡ true =
      ap (any (is_grave engine.policy)) (judge_accounts viem engine tx diff).0
      ∙ any-all_findings (is_grave engine.policy) (context viem engine tx diff) r engine.rules m
          h in
    sym (ap (λ (w : Verdict). w.tier) e)
    ∙ judge_tier viem engine tx diff
    ∙ tier_of-high engine.policy (judge viem engine tx diff).findings
        (not (is_empty (judge viem engine tx diff).provenance.unavailable_rules)) found

All-Memᴰ : (P : Rule → Type 0) (r : Rule) (rs : List Rule) → Memᴰ r rs → All P rs → P r
All-Memᴰ P r rs (Memᴰ.head {x} {xs} e) h = subst P (sym e) h.0
All-Memᴰ P r rs (Memᴰ.tail {x} {xs} m) h = All-Memᴰ P r xs m h.1

-- A verdict is `low` only where each rule of the engine ran and found nothing above `low`.
pub evaluate-IsQuiet :
    (viem : Viem) (engine : VerdictEngine) (tx : UnsignedTransaction) (fork_chain : ℕ)
    (diff : StateDiff) (v : Verdict) (r : Rule)
    → engine.simulator.chain_id ≡ value fork_chain
    → engine.simulator.simulate tx ≡ value diff
    → evaluate viem engine tx ≡ value v
    → Memᴰ r engine.rules
    → v.tier ≡ low
    → IsQuiet engine.policy (context viem engine tx diff) r
evaluate-IsQuiet viem engine tx fork_chain diff v r hc hs hv m h =
    All-Memᴰ (IsQuiet engine.policy (context viem engine tx diff)) r engine.rules m
      ((evaluate-low_iff viem engine tx fork_chain diff v hc hs hv).0 h).2

-- A chain of awaited calls settles where each of them does.
pub bind-value {ℓ κ} :
    {A : Type ℓ} {B : Type κ} (x : Settled A) (f : A → Settled B) (y : B)
    → (x >>= f) ≡ value y
    → (a : A) × (x ≡ value a) × (f a ≡ value y)
bind-value (value a) f y h = (a, refl, h)
bind-value (rejected m) f y h = absurd (rejected-ne-value m y h)
