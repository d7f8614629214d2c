-- ===== src/MutableLogic/Exposed.antt =====
-- What a verdict that R2 leaves `low` says of the proxy that is called.
use mathlib.Core.List.{Memᴰ}
use mathlib.Core.Path.{subst}
use presign.Prelude.{
  ℕ, ◌≤◌, ◌≡◌, ◌≢◌, refl, sym, ap, ◌∙◌, String, Bool, true, false, Option, none, some, [], ◌∷◌,
  ◌++◌, map, arith, leb, All, lower, includes, string_eq, if◌then◌else◌, inl, inr, ◌⊎◌, Bool-cases,
  Option-cases, ◌<◌, All-append_split,
}
use presign.Types.{
  low, Severity, critical, warning, info, Finding, UnsignedTransaction, StateDiff, RuleContext,
  RuleOutcome, Verdict, Settled, value, Settled-cases, evaluated, field, medium,
}
use presign.Mappings.{Viem}
use presign.Exposure.{exposure_growth}
use presign.Engine.{
  VerdictEngine, TierPolicy, tier_index, contribution, capped, severity_tier, context, outcome_of,
  evaluate,
}
use presign.Engine.Evaluate.{findings_of, unavailable_of}
use presign.Engine.Rules.{evaluate-IsQuiet}
use presign.MutableLogic.{
  UpgradeHistory, Options, Proxy, Upgrade, upgraded_in_transaction, read_proxy,
}
use presign.MutableLogic.Evaluate.{
  Control, classify_admin, upgrade_findings, hidden_controller, control_finding, history_findings,
  last_upgrade_findings, recent_upgrade, seconds_ago, is_stopped, judge_admin, judge_proxy,
  mutable_logic,
}
use presign.MutableLogic.Delays.{IsDelayed, classify_admin-IsDelayed}
use presign.MutableLogic.Upgrades.{evaluate_proxy, control_part}

capped_above :
    (s : Severity) (standing : Bool)
    → s ≢ info
    → 2 ≤ tier_index (capped (severity_tier s) (if standing then some medium else none))
unfolding capped
capped_above info b h = absurd (h refl)
capped_above warning true h = omega arith
capped_above warning false h = omega arith
capped_above critical true h = omega arith
capped_above critical false h = omega arith

-- Where R2's standing findings are capped at `medium`, a finding above `info` still contributes it.
above_info :
    (policy : TierPolicy) (f : Finding)
    → field "R2" policy.standing_ceilings ≡ some medium
    → f.rule_id ≡ "R2"
    → f.severity ≢ info
    → 2 ≤ tier_index (contribution policy f)
unfolding contribution
above_info policy f medium_cap id severe =
    subst (λ c. 2 ≤ tier_index (capped (severity_tier f.severity) (if f.standing then c else none)))
      (sym (ap (λ i. field i policy.standing_ceilings) id ∙ medium_cap))
      (capped_above f.severity f.standing severe)

Severity-cases : (s : Severity) → (s ≡ info) ⊎ (s ≢ info)
Severity-cases info = inl refl
Severity-cases warning = inr (λ e. cc e)
Severity-cases critical = inr (λ e. cc e)

critical-ne-info : critical ≢ info
critical-ne-info e = cc e

-- No upgrade of the proxy is known to be recent: there is no history, or it has stopped, or it has seen
-- no upgrade of the proxy, or the last one it has seen is older than the window.
abbrev pub IsSettled : Options → String → Type 0
IsSettled o address =
    (o.upgrade_history ≡ none)
    ⊎ ((history : UpgradeHistory) × (o.upgrade_history ≡ some history)
        × ((history.live ≡ some false)
            ⊎ ((history.last_upgrade address ≡ none)
                ⊎ ((last : Upgrade) × (history.last_upgrade address ≡ some last)
                    × (o.recent_upgrade_seconds < seconds_ago o.now last.timestamp)))))

is_stopped_lem : (l : Option Bool) → is_stopped l ≡ true → l ≡ some false
is_stopped_lem none h = absurd (cc h)
is_stopped_lem (some true) h = absurd (cc h)
is_stopped_lem (some false) h = refl

leb_below : (a b : ℕ) → leb a b ≡ false → b < a
leb_below a b h = ground arith

last_old :
    (policy : TierPolicy) (o : Options) (address : String) (last : Upgrade)
    → field "R2" policy.standing_ceilings ≡ some medium
    → All (λ f. tier_index (contribution policy f) ≤ 1) (last_upgrade_findings o address last)
    → o.recent_upgrade_seconds < seconds_ago o.now last.timestamp
unfolding last_upgrade_findings recent_upgrade
last_old policy o address last medium_cap small =
    elim (Bool-cases (leb (seconds_ago o.now last.timestamp) o.recent_upgrade_seconds)) [
      | inr long_ago ↦
          leb_below (seconds_ago o.now last.timestamp) o.recent_upgrade_seconds long_ago
      | inl recent ↦ absurd (
          omega (
            arith,
            (rw recent at small).0,
            above_info policy (recent_upgrade o address last) medium_cap refl critical-ne-info,
          ))
    ]

history-IsSettled :
    (policy : TierPolicy) (o : Options) (address : String)
    → field "R2" policy.standing_ceilings ≡ some medium
    → All (λ f. tier_index (contribution policy f) ≤ 1) (history_findings o address)
    → IsSettled o address
unfolding history_findings
history-IsSettled policy o address medium_cap small = elim (Option-cases o.upgrade_history) [
  | inl nobody ↦ inl nobody
  | inr (history, watching) ↦ elim (Bool-cases (is_stopped history.live)) [
    | inl stopped ↦ inr (history, watching, inl (is_stopped_lem history.live stopped))
    | inr live ↦ elim (Option-cases (history.last_upgrade address)) [
      | inl unseen ↦ inr (history, watching, inr (inl unseen))
      | inr (last, seen) ↦ inr (
        history,
        watching,
        inr (
            inr (
              last,
              seen,
              last_old policy o address last medium_cap (rw (watching, live, seen) at small),
            )),
      )
    ]
  ]
]

no_upgrade :
    (policy : TierPolicy) (ctx : RuleContext) (address : String)
    → All (λ f. tier_index (contribution policy f) ≤ 1) (upgrade_findings ctx address)
    → upgraded_in_transaction ctx.diff address ≡ none
unfolding upgrade_findings contribution capped
no_upgrade policy ctx address small =
    elim (Option-cases (upgraded_in_transaction ctx.diff address)) [
      | inl untouched ↦ untouched
      | inr (upgrade, h) ↦ absurd (omega (arith, (rw (h, upgrade_findings) at small).0))
    ]

unexposed :
    (policy : TierPolicy) (address admin : String) (proxy : Proxy) (control : Control)
    (grows : Bool)
    → field "R2" policy.standing_ceilings ≡ some medium
    → tier_index (contribution policy (control_finding address proxy admin control grows)) ≤ 1
    → (control.severity ≡ info) ⊎ (grows ≡ false)
unfolding control_finding
unexposed policy address admin proxy control false medium_cap small = inr refl
unexposed policy address admin proxy control true medium_cap small =
    elim (Severity-cases control.severity) [
      | inl mild ↦ inl mild
      | inr severe ↦ absurd (
          omega (
            arith,
            small,
            above_info policy (control_finding address proxy admin control true) medium_cap refl
                severe,
          ))
    ]

judge_proxy_admin :
    (viem : Viem) (o : Options) (ctx : RuleContext) (address admin : String) (proxy : Proxy)
    → proxy.admin ≡ some admin
    → judge_proxy viem o ctx address proxy ≡ judge_admin viem o ctx address proxy admin
unfolding judge_proxy
judge_proxy_admin viem o ctx address admin proxy shown =
    let go : Option String → Settled RuleOutcome = λ a. elim a [
      | none ↦ value (
          evaluated
            (upgrade_findings ctx address
              ++ hidden_controller address proxy ∷ history_findings o address)
            [] [])
      | some b ↦ judge_admin viem o ctx address proxy b
    ] in
    ap go shown

stranger_quiet :
    (viem : Viem) (policy : TierPolicy) (o : Options) (ctx : RuleContext) (address admin : String)
    (proxy : Proxy)
    → field "R2" policy.standing_ceilings ≡ some medium
    → includes admin (map lower o.allowlist) ≡ false
    → unavailable_of "R2" (outcome_of (judge_admin viem o ctx address proxy admin)) ≡ []
    → All
        (λ f. tier_index (contribution policy f) ≤ 1)
        (findings_of (outcome_of (judge_admin viem o ctx address proxy admin)))
    → (upgraded_in_transaction ctx.diff address ≡ none)
      × IsSettled o address
      × (IsDelayed o ctx admin
          ⊎ ((exposure_growth viem ctx.transaction ctx.diff address).grows ≡ false))
unfolding judge_admin outcome_of
stranger_quiet viem policy o ctx address admin proxy medium_cap stranger ran quiet =
    elim (Settled-cases (classify_admin o ctx admin)) [
      | inl (why, failed) ↦ absurd (cc (rw (stranger, failed) at ran))
      | inr (control, classified) ↦
          let (first, rest) =
            All-append_split (λ f. tier_index (contribution policy f) ≤ 1)
              (upgrade_findings ctx address) (control_part viem o ctx address proxy admin control)
              (rw (stranger, classified) at quiet) in
          (
            no_upgrade policy ctx address first,
            history-IsSettled policy o address medium_cap rest.1,
            elim (unexposed policy address admin proxy control
                (exposure_growth viem ctx.transaction ctx.diff address).grows medium_cap rest.0) [
                  | inl mild ↦ inl (classify_admin-IsDelayed o ctx admin control classified mild)
                  | inr same ↦ inr same
                ],
          )
    ]

-- R2, where the policy caps its standing findings at `medium`: a `low` verdict on a call of a proxy
-- whose admin is in sight and not on the allowlist means three things. The transaction does not
-- upgrade the proxy. The history of upgrades, where there is one and it has not stopped, holds no
-- upgrade of it within the window. And the admin is a contract that answers a timelock's selector
-- with a delay no less than the meaningful one, or the transaction leaves its sender no more exposed
-- to the proxy.
pub low_unexposed :
    (viem : Viem) (engine : VerdictEngine) (tx : UnsignedTransaction) (fork_chain : ℕ)
    (diff : StateDiff) (v : Verdict) (o : Options) (target admin : String) (proxy : Proxy)
    → engine.simulator.chain_id ≡ value fork_chain
    → engine.simulator.simulate tx ≡ value diff
    → evaluate viem engine tx ≡ value v
    → Memᴰ (mutable_logic viem o) engine.rules
    → field "R2" engine.policy.standing_ceilings ≡ some medium
    → tx.to ≡ some target
    → read_proxy (context viem engine tx diff) (lower target) ≡ value (some proxy)
    → proxy.admin ≡ some admin
    → includes admin (map lower o.allowlist) ≡ false
    → v.tier ≡ low
    → (upgraded_in_transaction diff (lower target) ≡ none)
      × IsSettled o (lower target)
      × (IsDelayed o (context viem engine tx diff) admin
          ⊎ ((exposure_growth viem tx diff (lower target)).grows ≡ false))
unfolding context
low_unexposed viem engine tx fork_chain diff v o target admin proxy hc hs hv m medium_cap call read
      shown stranger h =
    let ctx = context viem engine tx diff in
    let (ran, quiet) =
      evaluate-IsQuiet viem engine tx fork_chain diff v (mutable_logic viem o) hc hs hv m h in
    let e =
      evaluate_proxy viem o ctx target proxy call read
      ∙ judge_proxy_admin viem o ctx (lower target) admin proxy shown in
    stranger_quiet viem engine.policy o ctx (lower target) admin proxy medium_cap stranger
      (ap (λ x. unavailable_of "R2" (outcome_of x)) (sym e) ∙ ran)
      (subst
        (λ x. All (λ f. tier_index (contribution engine.policy f) ≤ 1) (findings_of (outcome_of x)))
        e quiet)
