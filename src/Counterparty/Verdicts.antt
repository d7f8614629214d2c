-- ===== src/Counterparty/Verdicts.antt =====
-- What rule R4 does to a verdict.
use Prim.Native.String
use mathlib.Core.List.{Memᴰ}
use mathlib.Core.Path.{subst}
use text.Mathlib.Text.{starts_with}
use presign.Prelude.{
  ℕ, ◌≤◌, ◌<◌, ◌≡◌, ◌⊎◌, refl, sym, ap, ◌∙◌, String, Bool, true, false, Option, none, some, List,
  [], ◌∷◌, ◌++◌, arith, All, any, leb, ltb, lower, is_empty, string_eq, if◌then◌else◌, inl, inr,
  Bool-cases, Option-cases, All-append_split,
}
use presign.Types.{
  low, high, UnsignedTransaction, StateDiff, RuleContext, RuleOutcome, Verdict, Settled, value,
  Settled-cases, field, Finding, evaluated,
}
use presign.Mappings.{Viem}
use presign.Capability.{DeploymentCandidate}
use presign.Origin.{ContractOrigin, deployed, older_than, indeterminate}
use presign.Engine.{
  VerdictEngine, TierPolicy, tier_index, contribution, capped, context, evaluate, outcome_of, ◌>>=◌,
}
use presign.Engine.Evaluate.{findings_of, unavailable_of}
use presign.Engine.Rules.{is_grave, any-append, evaluate_grave, evaluate-IsQuiet}
use presign.Counterparty
use presign.Counterparty.{
  Options, delegation_prefix, delegate_of, delegation_finding, chain_to_network, selector_of,
  unidentified_finding, describe_age, age_of, judge_indexing, judge_network, judge_code, or_else,
  unidentified_counterparty,
}

-- The address whose code a call to `target` runs, by the code there: none where there is no code or
-- where a delegation is cleared.
abbrev pub acting : String → String → Option String
acting target code =
    if leb (String.count code) 2
    then none
    else if starts_with (lower code) delegation_prefix
    then delegate_of code
    else some target

-- The rule takes a contract of this origin for one that is not fresh.
abbrev is_old : Options → ContractOrigin → Bool
is_old o (deployed block timestamp) = leb o.fresh_deployment_seconds (age_of o.now timestamp)
is_old o (older_than block timestamp) = true
is_old o (indeterminate reason) = false

-- What was established of when the contract was deployed: a block whose age is no less than the window,
-- or only that there was code at a block, whatever the age of that one.
abbrev pub IsDated : Options → ContractOrigin → Type 0
IsDated o origin =
    ((block timestamp : ℕ) × (origin ≡ deployed block timestamp)
      × (o.fresh_deployment_seconds ≤ age_of o.now timestamp))
    ⊎ ((block timestamp : ℕ) × (origin ≡ older_than block timestamp))

is_old-IsDated : (o : Options) (origin : ContractOrigin) → is_old o origin ≡ true → IsDated o origin
is_old-IsDated o (deployed block timestamp) h = inl (block, timestamp, refl, ground arith)
is_old-IsDated o (older_than block timestamp) h = inr (block, timestamp, refl)
is_old-IsDated o (indeterminate reason) h = absurd (cc h)

delegate_of-prefix :
    (code : String) → starts_with (lower code) delegation_prefix ≡ false → delegate_of code ≡ none
unfolding delegate_of
delegate_of-prefix code h = rw h refl

leb→ltb : (a b : ℕ) → leb b a ≡ false → ltb a b ≡ true
leb→ltb a b h = ground arith

module _ (o : Options) (ctx : RuleContext) (target code : String) where
  -- With an acting contract, the registry is asked about it.
  judge_code_acting :
      (subject : String)
      → acting target code ≡ some subject
      → (d : Option String) × (or_else d target ≡ subject)
        × (judge_code o ctx target code
            ≡ judge_network o ctx target d (chain_to_network ctx.transaction.chain_id))
  unfolding judge_code
  judge_code_acting subject h = elim (Bool-cases (leb (String.count code) 2)) [
    | inl small ↦ absurd (cc (rw small at h))
    | inr large ↦ elim (Bool-cases (starts_with (lower code) delegation_prefix)) [
      | inl marked ↦
          let h' : delegate_of code ≡ some subject = rw (large, marked) at h in
          (some subject, refl, rw (large, leb→ltb 2 (String.count code) large, marked, h') refl)
      | inr plain ↦
          let h' : some target ≡ some subject = rw (large, plain) at h in
          (
            none,
            cc h',
            rw (large, leb→ltb 2 (String.count code) large, plain, delegate_of-prefix code plain)
                refl,
          )
    ]
  ]

fresh_finding :
    (o : Options) (policy : TierPolicy) (target subject : String) (selector : Option String)
    (block timestamp : ℕ)
    → field "R4" policy.standing_ceilings ≡ none
    → ltb (age_of o.now timestamp) o.fresh_deployment_seconds ≡ true
    → is_grave policy (unidentified_finding o target subject selector (deployed block timestamp))
      ≡ true
unfolding unidentified_finding describe_age contribution capped
fresh_finding o policy target subject selector block timestamp uncapped fresh =
    rw (fresh, uncapped) refl

unknown_finding :
    (o : Options) (policy : TierPolicy) (target subject : String) (selector : Option String)
    (origin : ContractOrigin)
    → field "R4" policy.standing_ceilings ≡ none
    → is_old o origin ≡ false
    → 2 ≤ tier_index (contribution policy (unidentified_finding o target subject selector origin))
unfolding unidentified_finding describe_age contribution capped
unknown_finding o policy target subject selector (deployed block timestamp) uncapped young =
    rw (uncapped, leb→ltb (age_of o.now timestamp) o.fresh_deployment_seconds young) (omega arith)
unknown_finding o policy target subject selector (older_than block timestamp) uncapped young = cc
unknown_finding o policy target subject selector (indeterminate reason) uncapped young =
    rw uncapped (omega arith)

delegations : String → Option String → List Finding
delegations target d = elim d [ none ↦ [] | some a ↦ delegation_finding target a ∷ [] ]

evaluate_acting :
    (o : Options) (ctx : RuleContext) (to code subject : String)
    → ctx.transaction.to ≡ some to
    → ctx.get_code (lower to) ≡ value code
    → acting (lower to) code ≡ some subject
    → (d : Option String) × (or_else d (lower to) ≡ subject)
      × (Counterparty.evaluate o ctx
          ≡ judge_network o ctx (lower to) d (chain_to_network ctx.transaction.chain_id))
unfolding Counterparty.evaluate judge_code_acting
evaluate_acting o ctx to code subject call read runs =
    let (d, same, e) = judge_code_acting o ctx (lower to) code subject runs in
    let ask : Option String → Settled RuleOutcome = λ t. elim t [
      | none ↦ value (evaluated [] [] [])
      | some a ↦ ctx.get_code (lower a) >>= judge_code o ctx (lower a)
    ] in
    (d, same, ap ask call ∙ ap (λ c. c >>= judge_code o ctx (lower to)) read ∙ e)

-- The findings of an unindexed acting contract whose origin is known.
unindexed_findings :
    (o : Options) (ctx : RuleContext) (target subject network : String) (d : Option String)
    (origin : ContractOrigin)
    → or_else d target ≡ subject
    → o.find_indexing_deployments subject network ≡ value []
    → o.origin_of subject ≡ value origin
    → judge_network o ctx target d (some network)
      ≡ value (
          evaluated
            (delegations target d
              ++ unidentified_finding o target subject (selector_of ctx.transaction.calldata) origin
                ∷ [])
            []
            [])
unfolding judge_network judge_indexing delegations
unindexed_findings o ctx target subject network d origin same none_indexes born =
    rw (same, none_indexes) (rw (same, born) refl)

-- R4 under an engine whose policy caps no standing finding of R4: a call that runs the code of a
-- contract which no deployment indexes, and which was deployed within the window, gets a `high`
-- verdict whatever the other rules answer. A delegated account is judged by the contract it delegates to.
pub fresh_unindexed_high :
    (viem : Viem) (engine : VerdictEngine) (tx : UnsignedTransaction) (fork_chain : ℕ)
    (diff : StateDiff) (v : Verdict) (o : Options) (to code subject network : String)
    (block timestamp : ℕ)
    → engine.simulator.chain_id ≡ value fork_chain
    → engine.simulator.simulate tx ≡ value diff
    → tx.chain_id ≡ fork_chain
    → evaluate viem engine tx ≡ value v
    → Memᴰ (unidentified_counterparty o) engine.rules
    → field "R4" engine.policy.standing_ceilings ≡ none
    → tx.to ≡ some to
    → engine.simulator.get_code (lower to) ≡ value code
    → acting (lower to) code ≡ some subject
    → chain_to_network tx.chain_id ≡ some network
    → o.find_indexing_deployments subject network ≡ value []
    → o.origin_of subject ≡ value (deployed block timestamp)
    → age_of o.now timestamp < o.fresh_deployment_seconds
    → v.tier ≡ high
unfolding context outcome_of
fresh_unindexed_high viem engine tx fork_chain diff v o to code subject network block timestamp hc
      hs same hv m uncapped call read runs known none_indexes born young =
    let ctx = context viem engine tx diff in
    let (d, acts, e) = evaluate_acting o ctx to code subject call read runs in
    let e' =
      e
      ∙ ap (judge_network o ctx (lower to) d) known
      ∙ unindexed_findings o ctx (lower to) subject network d (deployed block timestamp) acts
          none_indexes born in
    evaluate_grave viem engine tx fork_chain diff v (unidentified_counterparty o) hc hs same hv m (
      ap (λ x. any (is_grave engine.policy) (findings_of (outcome_of x))) e'
      ∙ any-append (is_grave engine.policy) (delegations (lower to) d) _
      ∙ ground (
        arith,
        fresh_finding o engine.policy (lower to) subject (selector_of tx.calldata) block timestamp
            uncapped (ground (arith, young)),
      ))

-- The address is known: a deployment of its network indexes it, or its origin is dated.
abbrev pub IsKnown : Options → ℕ → String → Type 0
IsKnown o chain_id subject =
    (network : String) × (found : List DeploymentCandidate) × (chain_to_network chain_id
      ≡ some network)
    × (o.find_indexing_deployments subject network ≡ value found)
    × ((is_empty found ≡ false)
        ⊎ ((origin : ContractOrigin) × (o.origin_of subject ≡ value origin) × IsDated o origin))

judge_network-IsKnown :
    (o : Options) (policy : TierPolicy) (ctx : RuleContext) (target subject : String)
    (d : Option String)
    → field "R4" policy.standing_ceilings ≡ none
    → or_else d target ≡ subject
    → unavailable_of "R4"
        (outcome_of (judge_network o ctx target d (chain_to_network ctx.transaction.chain_id)))
      ≡ []
    → All
        (λ f. tier_index (contribution policy f) ≤ 1)
        (findings_of
          (outcome_of (judge_network o ctx target d (chain_to_network ctx.transaction.chain_id))))
    → IsKnown o ctx.transaction.chain_id subject
unfolding judge_network judge_indexing outcome_of delegations
judge_network-IsKnown o policy ctx target subject d uncapped acts ran quiet =
    elim (Option-cases (chain_to_network ctx.transaction.chain_id)) [
      | inl unknown ↦ absurd (cc (rw unknown at ran))
      | inr (network, known) ↦ elim (Settled-cases (o.find_indexing_deployments subject network)) [
        | inl (e, failed) ↦ absurd (cc (rw (known, acts, failed) at ran))
        | inr (found, answered) ↦ elim (Bool-cases (is_empty found)) [
          | inr some_index ↦ (network, found, known, answered, inl some_index)
          | inl none_index ↦ elim (Settled-cases (o.origin_of subject)) [
            | inl (e, failed) ↦
                absurd (cc (rw (known, acts, answered, none_index, acts, failed) at ran))
            | inr (origin, born) ↦
                let found_all = rw (known, acts, answered, none_index, acts, born) at quiet in
                let small =
                  (All-append_split (λ f. tier_index (contribution policy f) ≤ 1)
                    (delegations target d) _ found_all).1.0 in
                elim (Bool-cases (is_old o origin)) [
                  | inl old ↦ (
                    network,
                    found,
                    known,
                    answered,
                    inr (origin, born, is_old-IsDated o origin old),
                  )
                  | inr young ↦ absurd (
                      omega (
                        arith,
                        small,
                        unknown_finding o policy target subject
                            (selector_of ctx.transaction.calldata) origin uncapped young,
                      ))
                ]
          ]
        ]
      ]
    ]

-- R4 under an engine whose policy caps no standing finding of R4: a `low` verdict on a call that
-- runs the code of a contract means that the contract is known. Its network is configured, the
-- registry answered, and one of three holds. A deployment indexes the contract; or its deployment was
-- dated, at an age no less than the window; or the source of origins gave only a block at which the code was
-- already there, which the rule takes for old without comparing that block's own age with the window.
pub low-IsKnown :
    (viem : Viem) (engine : VerdictEngine) (tx : UnsignedTransaction) (fork_chain : ℕ)
    (diff : StateDiff) (v : Verdict) (o : Options) (to code subject : String)
    → engine.simulator.chain_id ≡ value fork_chain
    → engine.simulator.simulate tx ≡ value diff
    → evaluate viem engine tx ≡ value v
    → Memᴰ (unidentified_counterparty o) engine.rules
    → field "R4" engine.policy.standing_ceilings ≡ none
    → tx.to ≡ some to
    → engine.simulator.get_code (lower to) ≡ value code
    → acting (lower to) code ≡ some subject
    → v.tier ≡ low
    → IsKnown o tx.chain_id subject
unfolding context
low-IsKnown viem engine tx fork_chain diff v o to code subject hc hs hv m uncapped call read runs
      h =
    let ctx = context viem engine tx diff in
    let (ran, quiet) =
      evaluate-IsQuiet viem engine tx fork_chain diff v (unidentified_counterparty o) hc hs hv m
        h in
    let (d, acts, e) = evaluate_acting o ctx to code subject call read runs in
    judge_network-IsKnown o engine.policy ctx (lower to) subject d uncapped acts
      (ap (λ x. unavailable_of "R4" (outcome_of x)) (sym e) ∙ ran)
      (subst
        (λ x. All (λ f. tier_index (contribution engine.policy f) ≤ 1) (findings_of (outcome_of x)))
        e quiet)
