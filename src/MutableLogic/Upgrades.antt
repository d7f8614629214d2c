-- ===== src/MutableLogic/Upgrades.antt =====
-- What R2 does to a verdict on a call that upgrades a proxy.
use mathlib.Core.List.{Memᴰ, append-nil}
use presign.Prelude.{
  ℕ, ◌≡◌, refl, sym, ap, ◌∙◌, String, true, Option, none, some, List, [], ◌∷◌, ◌++◌, map, arith,
  any, lower, includes, string_eq, inl, inr, ◌⊎◌, Bool-cases, Option-cases,
}
use presign.Types.{
  high, Finding, UnsignedTransaction, StateDiff, RuleContext, RuleOutcome, Verdict, Settled, value,
  evaluated, field,
}
use presign.Mappings.{Viem}
use presign.Exposure.{exposure_growth}
use presign.Engine.{
  VerdictEngine, TierPolicy, contribution, capped, context, outcome_of, evaluate, ◌>>=◌,
}
use presign.Engine.Evaluate.{findings_of}
use presign.Engine.Rules.{is_grave, any-append, evaluate_grave}
use presign.Effects.{storage}
use presign.MutableLogic.{
  Options, Proxy, eip1967_implementation_slot, zeppelinos_implementation_slot, written_slot,
  implementation_slots, upgraded_in_transaction, read_proxy, word_to_address,
}
use presign.MutableLogic.Evaluate.{
  Control, classify_admin, upgrade_findings, hidden_controller, control_finding, history_findings,
  last_upgrade_findings, recent_upgrade, seconds_ago, is_stopped, judge_admin, judge_proxy,
  judge_read, mutable_logic,
}
use presign.MutableLogic.Evaluate as R2

-- `evaluate` on a call of a proxy.
pub evaluate_proxy :
    (viem : Viem) (o : Options) (ctx : RuleContext) (target : String) (proxy : Proxy)
    → ctx.transaction.to ≡ some target
    → read_proxy ctx (lower target) ≡ value (some proxy)
    → R2.evaluate viem o ctx ≡ judge_proxy viem o ctx (lower target) proxy
unfolding R2.evaluate judge_read
evaluate_proxy viem o ctx target proxy call read =
    let ask : Option String → Settled RuleOutcome = λ t. elim t [
      | none ↦ value (evaluated [] [] [])
      | some a ↦ read_proxy ctx (lower a) >>= judge_read viem o ctx (lower a)
    ] in
    ap ask call ∙ ap (λ p. p >>= judge_read viem o ctx (lower target)) read

-- The findings after the first, once the outcome is known.
abbrev pub control_part :
    Viem → Options → RuleContext → String → Proxy → String → Control → List Finding
control_part viem o ctx address proxy admin control =
    control_finding address proxy admin control
      (exposure_growth viem ctx.transaction ctx.diff address).grows
    ∷ history_findings o address

upgrade_grave :
    (policy : TierPolicy) (ctx : RuleContext) (address : String) (upgrade : String × Option String)
    → upgraded_in_transaction ctx.diff address ≡ some upgrade
    → any (is_grave policy) (upgrade_findings ctx address) ≡ true
unfolding upgrade_findings contribution capped
upgrade_grave policy ctx address upgrade h = rw (h, upgrade_findings) refl

-- A proxy that is judged: what it finds is led by the upgrades of the transaction.
judge_proxy_leads :
    (viem : Viem) (o : Options) (ctx : RuleContext) (address : String) (proxy : Proxy)
    → ((admin : String)
        → proxy.admin ≡ some admin
        → (control : Control) × (classify_admin o ctx admin ≡ value control))
    → (more : List Finding) × (findings_of (outcome_of (judge_proxy viem o ctx address proxy))
        ≡ upgrade_findings ctx address ++ more)
unfolding judge_proxy judge_admin outcome_of
judge_proxy_leads viem o ctx address proxy answers = elim (Option-cases proxy.admin) [
  | inl hidden ↦ (hidden_controller address proxy ∷ history_findings o address, rw hidden refl)
  | inr (admin, shown) ↦ elim (Bool-cases (includes admin (map lower o.allowlist))) [
    | inl trusted ↦ ([], rw (shown, trusted) (sym (append-nil (upgrade_findings ctx address))))
    | inr stranger ↦
        let (control, classified) = answers admin shown in
        (control_part viem o ctx address proxy admin control, rw (shown, stranger, classified) refl)
  ]
]

-- The loop over the slots, one round at a time.
written_slot-here :
    (slots : List (String × ℕ)) (slot standard : String) (rest : List (String × String)) (word : ℕ)
    → field slot slots ≡ some word
    → written_slot slots ((slot, standard) ∷ rest) ≡ some (slot, word_to_address (some word))
unfolding written_slot
written_slot-here slots slot standard rest word set =
    let go : Option ℕ → Option (String × Option String) = λ w. elim w [
      | some found ↦ some (slot, word_to_address (some found))
      | none ↦ written_slot slots rest
    ] in
    ap go set

written_slot-there :
    (slots : List (String × ℕ)) (slot standard : String) (rest : List (String × String))
    → field slot slots ≡ none
    → written_slot slots ((slot, standard) ∷ rest) ≡ written_slot slots rest
unfolding written_slot
written_slot-there slots slot standard rest unset =
    let go : Option ℕ → Option (String × Option String) = λ w. elim w [
      | some found ↦ some (slot, word_to_address (some found))
      | none ↦ written_slot slots rest
    ] in
    ap go unset

-- A write of either implementation slot is found.
written_upgrade :
    (diff : StateDiff) (address slot : String) (slots : List (String × ℕ)) (word : ℕ)
    → storage address diff.post ≡ some slots
    → field slot slots ≡ some word
    → (slot ≡ eip1967_implementation_slot) ⊎ (slot ≡ zeppelinos_implementation_slot)
    → (upgrade : String × Option String) × (upgraded_in_transaction diff address ≡ some upgrade)
unfolding upgraded_in_transaction
written_upgrade diff address slot slots word there set which =
    let look : Option (List (String × ℕ)) → Option (String × Option String) =
      λ l. elim l [ none ↦ none | some written ↦ written_slot written implementation_slots ] in
    elim (Option-cases (field eip1967_implementation_slot slots)) [
      | inr (first, at_first) ↦ (
        (eip1967_implementation_slot, word_to_address (some first)),
        ap look there
            ∙ written_slot-here slots eip1967_implementation_slot "EIP-1967"
                ((zeppelinos_implementation_slot, "zeppelinos") ∷ []) first at_first,
      )
      | inl not_first ↦ elim which [
        | inl e ↦ absurd (cc (sym set ∙ ap (λ k. field k slots) e ∙ not_first))
        | inr e ↦ (
          (zeppelinos_implementation_slot, word_to_address (some word)),
          ap look there
              ∙ written_slot-there slots eip1967_implementation_slot "EIP-1967"
                  ((zeppelinos_implementation_slot, "zeppelinos") ∷ []) not_first
              ∙ written_slot-here slots zeppelinos_implementation_slot "zeppelinos" [] word
                  (ap (λ k. field k slots) (sym e) ∙ set),
        )
      ]
    ]

-- R2, under any policy: a transaction that calls a proxy and writes its EIP-1967 or its zeppelinos
-- implementation slot gets a `high` verdict whatever the other rules answer, be the proxy's admin on
-- the allowlist or not. The reads that classify an admin are answered.
pub upgrade_high :
    (viem : Viem) (engine : VerdictEngine) (tx : UnsignedTransaction) (fork_chain : ℕ)
    (diff : StateDiff) (v : Verdict) (o : Options) (target slot : String) (proxy : Proxy)
    (slots : List (String × ℕ)) (word : ℕ)
    → engine.simulator.chain_id ≡ value fork_chain
    → engine.simulator.simulate tx ≡ value diff
    → tx.chain_id ≡ fork_chain
    → evaluate viem engine tx ≡ value v
    → Memᴰ (mutable_logic viem o) engine.rules
    → tx.to ≡ some target
    → read_proxy (context viem engine tx diff) (lower target) ≡ value (some proxy)
    → ((admin : String)
        → proxy.admin ≡ some admin
        → (control : Control) × (classify_admin o (context viem engine tx diff) admin
            ≡ value control))
    → storage (lower target) diff.post ≡ some slots
    → field slot slots ≡ some word
    → (slot ≡ eip1967_implementation_slot) ⊎ (slot ≡ zeppelinos_implementation_slot)
    → v.tier ≡ high
unfolding context
upgrade_high viem engine tx fork_chain diff v o target slot proxy slots word hc hs same hv m call
      read answers there set which =
    let ctx = context viem engine tx diff in
    let (upgrade, written) = written_upgrade diff (lower target) slot slots word there set which in
    let (more, e) = judge_proxy_leads viem o ctx (lower target) proxy answers in
    evaluate_grave viem engine tx fork_chain diff v (mutable_logic viem o) hc hs same hv m (
      ap (λ x. any (is_grave engine.policy) (findings_of (outcome_of x)))
        (evaluate_proxy viem o ctx target proxy call read)
      ∙ ap (any (is_grave engine.policy)) e
      ∙ any-append (is_grave engine.policy) (upgrade_findings ctx (lower target)) more
      ∙ ground (arith, upgrade_grave engine.policy ctx (lower target) upgrade written))
