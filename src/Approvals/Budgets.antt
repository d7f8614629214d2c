-- ===== src/Approvals/Budgets.antt =====
-- What a verdict that R1 leaves `low` says of the allowances that the transaction writes.
use mathlib.Core.List.{Memᴰ}
use mathlib.Core.Path.{subst}
use Prim.Native.String
use presign.Prelude.{
  ℕ, ◌≤◌, ◌<◌, ◌≡◌, ◌≢◌, refl, sym, ap, ◌∙◌, String, Bool, true, false, Option, none, some, List,
  ◌++◌, arith, All, leb, eqb, lower, includes, string_eq, if◌then◌else◌, inl, inr, Bool-cases,
  Option-cases, zero, suc, ◌⊎◌, All-append_split,
}
use presign.Types.{
  low, Finding, UnsignedTransaction, StateDiff, AccountDiff, RuleContext, Verdict, value,
  Settled-cases, value_injective,
}
use presign.JsMap.{get}
use presign.Mappings.{Viem, MappingEntry, transaction_addresses}
use presign.Engine.{
  VerdictEngine, TierPolicy, tier_index, contribution, capped, context, outcome_of, evaluate,
}
use presign.Engine.Evaluate.{IsQuiet, evaluate-low_iff}
use presign.Engine.Rules.{evaluate-IsQuiet, bind-value}
use presign.Approvals.{
  Options, ApprovalRule, new_rule, Basis, Grant, operator, allowance, unlimited_threshold,
  total_supply_selector, balance_of_selector, is_approved_for_all_selector, uint_result, is_word,
  basis_of, is_budget, reaches, approval_finding, reached_listed_addresses,
}
use presign.Approvals.Evaluate

-- Nothing above `low` is contributed.
abbrev pub Small : TierPolicy → List Finding → Type 0
Small policy fs = All (λ f. tier_index (contribution policy f) ≤ 1) fs

approval_finding_large :
    (policy : TierPolicy) (rule : ApprovalRule) (token owner spender : String) (amount : ℕ)
    (grant : Grant) (listed : Bool)
    → 2
      ≤ tier_index
          (contribution policy (approval_finding rule token owner spender amount grant listed))
unfolding contribution capped approval_finding
approval_finding_large policy rule token owner spender amount grant true = omega arith
approval_finding_large policy rule token owner spender amount grant false = omega arith

-- The amount is under the number that an answer holds, where that is one word and not zero.
abbrev pub IsUnder : ℕ → Option String → Type 0
IsUnder amount answer =
    (uint_result answer ≡ none)
    ⊎ ((n : ℕ) × (uint_result answer ≡ some n) × ((n ≡ 0) ⊎ (amount < n)))

below_or_zero : (amount n : ℕ) → reaches amount (some n) ≡ false → (n ≡ 0) ⊎ (amount < n)
below_or_zero amount zero h = inl refl
below_or_zero amount (suc n) h = inr (ground arith)

reaches-IsUnder :
    (amount : ℕ) (answer : Option String)
    → reaches amount (uint_result answer) ≡ false
    → IsUnder amount answer
reaches-IsUnder amount answer h = elim (Option-cases (uint_result answer)) [
  | inl unread ↦ inl unread
  | inr (n, read) ↦ inr (n, read, below_or_zero amount n (ap (reaches amount) (sym read) ∙ h))
]

basis_of-none :
    (amount : ℕ) (supply balance : Option ℕ)
    → basis_of amount supply balance ≡ none
    → (reaches amount supply ≡ false) × (reaches amount balance ≡ false)
unfolding basis_of
basis_of-none amount supply balance h = (ground (arith, h), ground (arith, h))

budget_basis :
    (basis : Option Basis) (supply balance : Option ℕ)
    → is_budget (allowance basis supply balance) ≡ true
    → basis ≡ none
budget_basis none supply balance h = refl
budget_basis (some b) supply balance h = cc

leb-false : (n : ℕ) → leb unlimited_threshold n ≡ false → n < unlimited_threshold
leb-false n h = ground (arith, h)

module _ (viem : Viem) (pad : String → String) (ctx : RuleContext) where
  -- What the token answers about an amount that is a budget: it is under the total supply and under the
  -- owner's balance, as far as the token answered each with one word that is not zero.
  abbrev pub IsBudget : String → String → ℕ → Type 0
  IsBudget token owner amount =
      (amount < unlimited_threshold)
      × ((supply balance : Option String) × (ctx.call token total_supply_selector ≡ value supply)
          × (ctx.call token (String.◌++◌ balance_of_selector (Evaluate.word viem pad owner))
              ≡ value balance)
          × IsUnder amount supply
          × IsUnder amount balance)

  classify_allowance-IsBudget :
      (token owner : String) (amount : ℕ) (grant : Grant)
      → Evaluate.classify_allowance viem pad ctx token owner amount ≡ value grant
      → is_budget grant ≡ true
      → IsBudget token owner amount
  unfolding Evaluate.classify_allowance
  classify_allowance-IsBudget token owner amount grant h within =
      elim (Bool-cases (leb unlimited_threshold amount)) [
        | inl large ↦ let e = value_injective (rw large at h) in absurd (cc (rw (← e) at within))
        | inr small ↦
            let (supply, es, rest) =
              bind-value (ctx.call token total_supply_selector) _ grant (rw small at h) in
            let (balance, eb, last) =
              bind-value
                (ctx.call token (String.◌++◌ balance_of_selector (Evaluate.word viem pad owner))) _
                grant rest in
            let e = value_injective last in
            let unmet =
              basis_of-none amount (uint_result supply) (uint_result balance)
                (budget_basis _ _ _ (ap is_budget e ∙ within)) in
            (
              leb-false amount small,
              (
                supply,
                balance,
                es,
                eb,
                reaches-IsUnder amount supply unmet.0,
                reaches-IsUnder amount balance unmet.1,
              ),
            )
      ]

  classify-IsBudget :
      (token owner spender : String) (amount : ℕ) (grant : Grant)
      → Evaluate.classify viem pad ctx token owner spender amount ≡ value grant
      → is_budget grant ≡ true
      → IsBudget token owner amount
  unfolding Evaluate.classify
  classify-IsBudget token owner spender amount grant h within = elim (Bool-cases (eqb amount 1)) [
    | inr other ↦ classify_allowance-IsBudget token owner amount grant (rw other at h) within
    | inl one ↦
        let (answer, read, rest) =
          bind-value
            (ctx.call token (
              String.◌++◌ is_approved_for_all_selector
                (String.◌++◌ (Evaluate.word viem pad owner) (Evaluate.word viem pad spender))))
            (λ answer.
              if is_word answer
              then value operator
              else Evaluate.classify_allowance viem pad ctx token owner amount)
            grant (rw one at h) in
        elim (Bool-cases (is_word answer)) [
          | inl confirmed ↦ absurd (cc (rw (← value_injective (rw confirmed at rest)) at within))
          | inr unconfirmed ↦
              classify_allowance-IsBudget token owner amount grant (rw unconfirmed at rest) within
        ]
  ]

  -- A spender about whom R1 is quiet: not listed, and within a budget.
  spender_quiet :
      (policy : TierPolicy) (rule : ApprovalRule) (token owner spender : String) (amount : ℕ)
      (fs : List Finding)
      → Evaluate.spender_findings viem pad rule ctx token owner spender amount ≡ value fs
      → Small policy fs
      → (rule.incidents.has spender ≡ false) × IsBudget token owner amount
  unfolding Evaluate.spender_findings
  spender_quiet policy rule token owner spender amount fs h small =
      let (grant, classified, rest) =
        bind-value (Evaluate.classify viem pad ctx token owner spender amount) _ fs h in
      let e = value_injective rest in
      let large = approval_finding_large policy rule token owner spender amount grant in
      let fine = subst (Small policy) (sym e) small in
      elim (Bool-cases (rule.incidents.has spender)) [
        | inl listed ↦ absurd (omega (arith, large true, (rw listed at fine).0))
        | inr unlisted ↦ elim (Bool-cases (is_budget grant)) [
          | inl within ↦
              (unlisted, classify-IsBudget token owner spender amount grant classified within)
          | inr beyond ↦ absurd (omega (arith, large false, (rw (unlisted, beyond) at fine).0))
        ]
      ]

module _ (viem : Viem) (pad : String → String) (policy : TierPolicy) (rule : ApprovalRule)
    (ctx : RuleContext) where
  -- Each write of a slot that R1 is quiet about is one that it is quiet about by itself.
  slots-Small :
      (allowances : List (String × MappingEntry)) (token : String) (w : String × ℕ)
      (ws : List (String × ℕ)) (fs : List Finding)
      → Memᴰ w ws
      → Evaluate.slots_findings viem pad rule ctx allowances token ws ≡ value fs
      → Small policy fs
      → (gs : List Finding) × (Evaluate.write_findings viem pad rule ctx allowances token w
          ≡ value gs)
        × Small policy gs
  unfolding Evaluate.slots_findings
  slots-Small allowances token w ws fs (Memᴰ.head {x} {xs} e) h small =
      let (found, here, rest) =
        bind-value (Evaluate.write_findings viem pad rule ctx allowances token x) _ fs h in
      let (more, later, last) =
        bind-value (Evaluate.slots_findings viem pad rule ctx allowances token xs) _ fs rest in
      (
        found,
        ap (Evaluate.write_findings viem pad rule ctx allowances token) e ∙ here,
        (All-append_split (λ f. tier_index (contribution policy f) ≤ 1) found more
            (subst (Small policy) (sym (value_injective last)) small)).0,
      )
  slots-Small allowances token w ws fs (Memᴰ.tail {x} {xs} m) h small =
      let (found, here, rest) =
        bind-value (Evaluate.write_findings viem pad rule ctx allowances token x) _ fs h in
      let (more, later, last) =
        bind-value (Evaluate.slots_findings viem pad rule ctx allowances token xs) _ fs rest in
      slots-Small allowances token w xs more m later
        (All-append_split (λ f. tier_index (contribution policy f) ≤ 1) found more
          (subst (Small policy) (sym (value_injective last)) small)).1

  accounts-Small :
      (allowances : List (String × MappingEntry)) (a : String × AccountDiff)
      (accounts : List (String × AccountDiff)) (fs : List Finding)
      → Memᴰ a accounts
      → Evaluate.accounts_findings viem pad rule ctx allowances accounts ≡ value fs
      → Small policy fs
      → (gs : List Finding) × (Evaluate.slots_findings viem pad rule ctx allowances
            (lower a.0)
            (Evaluate.written a.1)
          ≡ value gs)
        × Small policy gs
  unfolding Evaluate.accounts_findings
  accounts-Small allowances a accounts fs (Memᴰ.head {x} {xs} e) h small =
      let (found, here, rest) =
        bind-value
          (Evaluate.slots_findings viem pad rule ctx allowances (lower x.0) (Evaluate.written x.1))
          _ fs h in
      let (more, later, last) =
        bind-value (Evaluate.accounts_findings viem pad rule ctx allowances xs) _ fs rest in
      (
        found,
        ap
              (λ (b : String × AccountDiff).
                Evaluate.slots_findings viem pad rule ctx allowances (lower b.0)
                  (Evaluate.written b.1))
              e
            ∙ here,
        (All-append_split (λ f. tier_index (contribution policy f) ≤ 1) found more
            (subst (Small policy) (sym (value_injective last)) small)).0,
      )
  accounts-Small allowances a accounts fs (Memᴰ.tail {x} {xs} m) h small =
      let (found, here, rest) =
        bind-value
          (Evaluate.slots_findings viem pad rule ctx allowances (lower x.0) (Evaluate.written x.1))
          _ fs h in
      let (more, later, last) =
        bind-value (Evaluate.accounts_findings viem pad rule ctx allowances xs) _ fs rest in
      accounts-Small allowances a xs more m later
        (All-append_split (λ f. tier_index (contribution policy f) ≤ 1) found more
          (subst (Small policy) (sym (value_injective last)) small)).1

  -- A write that R1 is quiet about, where it is of an allowance that is not exempt.
  write_quiet :
      (allowances : List (String × MappingEntry)) (token slot : String) (amount : ℕ)
      (entry : MappingEntry) (fs : List Finding)
      → Evaluate.write_findings viem pad rule ctx allowances token (slot, amount) ≡ value fs
      → Small policy fs
      → eqb amount 0 ≡ false
      → get (lower slot) allowances ≡ some entry
      → includes entry.key rule.allowlist ≡ false
      → (rule.incidents.has entry.key ≡ false)
        × IsBudget viem pad ctx token (lower ctx.transaction.from) amount
  unfolding Evaluate.write_findings
  write_quiet allowances token slot amount entry fs h small nonzero proven stranger =
      spender_quiet viem pad ctx policy rule token (lower ctx.transaction.from) entry.key amount fs
        (rw (nonzero, proven, stranger) at h) small

  -- What R1 answers where it is quiet: it ran over every write, and found nothing.
  quiet_settles :
      ctx.diff.revert_reason ≡ none
      → IsQuiet policy ctx (record { id = "R1"; evaluate = Evaluate.evaluate viem pad rule })
      → (fs : List Finding) × ((transaction_addresses ctx.transaction ctx.diff).truncated ≡ false)
        × (Evaluate.accounts_findings viem pad rule ctx
              (Evaluate.sender_allowances viem pad rule ctx)
              ctx.diff.post
            ≡ value fs)
        × Small policy (fs ++ reached_listed_addresses rule ctx)
  unfolding Evaluate.evaluate outcome_of Evaluate.findings_of_writes transaction_addresses
      presign.Mappings.all_addresses
  quiet_settles landed (ran, small) =
      elim (Bool-cases (transaction_addresses ctx.transaction ctx.diff).truncated) [
        | inl many ↦ absurd (cc (rw (landed, many) at ran))
        | inr few ↦
            elim (Settled-cases (
              Evaluate.accounts_findings viem pad rule ctx
                (Evaluate.sender_allowances viem pad rule ctx) ctx.diff.post)) [
                  | inl (m, failed) ↦ absurd (cc (rw (landed, few, failed) at ran))
                  | inr (fs, settled) ↦ (fs, few, settled, rw (landed, few, settled) at small)
                ]
      ]

-- R1: where a verdict is `low`, every allowance of the sender that the transaction writes is revoked,
-- given to a spender on the allowlist, or a budget. A budget is given to a spender that the
-- registry does not list and is under 2^128. It is under the token's total supply where the token
-- answered that with one word that is not zero, and under the sender's balance likewise; an answer of
-- another form, or of zero, bounds nothing. An allowance is a slot that hashes to one for a
-- candidate address at a searched position; the rule left no candidate out.
pub low_budgets :
    (viem : Viem) (pad : String → String) (engine : VerdictEngine) (tx : UnsignedTransaction)
    (fork_chain : ℕ) (diff : StateDiff) (v : Verdict) (o : Options) (raw_token slot : String)
    (account : AccountDiff) (amount : ℕ) (entry : MappingEntry)
    → engine.simulator.chain_id ≡ value fork_chain
    → engine.simulator.simulate tx ≡ value diff
    → evaluate viem engine tx ≡ value v
    → Memᴰ (Evaluate.unlimited_approval viem pad o) engine.rules
    → v.tier ≡ low
    → Memᴰ (raw_token, account) diff.post
    → Memᴰ (slot, amount) (Evaluate.written account)
    → amount ≢ 0
    → get
        (lower slot)
        (Evaluate.sender_allowances viem pad (new_rule o) (context viem engine tx diff))
      ≡ some entry
    → includes entry.key (new_rule o).allowlist ≡ false
    → ((transaction_addresses tx diff).truncated ≡ false)
      × ((new_rule o).incidents.has entry.key ≡ false)
      × IsBudget viem pad (context viem engine tx diff) (lower raw_token) (lower tx.from) amount
unfolding context
low_budgets viem pad engine tx fork_chain diff v o raw_token slot account amount entry hc hs hv m h
      at_token at_slot nonzero proven stranger =
    let ctx = context viem engine tx diff in
    let rule = new_rule o in
    let landed = ((evaluate-low_iff viem engine tx fork_chain diff v hc hs hv).0 h).1 in
    let (fs, few, settled, small) = quiet_settles viem pad engine.policy rule ctx landed (
      evaluate-IsQuiet viem engine tx fork_chain diff v (Evaluate.unlimited_approval viem pad o) hc
        hs hv m h) in
    let (gs, of_token, small_token) =
      accounts-Small viem pad engine.policy rule ctx _ (raw_token, account) diff.post fs at_token
        settled
        (All-append_split (λ f. tier_index (contribution engine.policy f) ≤ 1) fs _ small).0 in
    let (ks, of_slot, small_slot) =
      slots-Small viem pad engine.policy rule ctx _ (lower raw_token) (slot, amount)
        (Evaluate.written account) gs at_slot of_token small_token in
    let (unlisted, within) =
      write_quiet viem pad engine.policy rule ctx _ (lower raw_token) slot amount entry ks of_slot
        small_slot (ground (arith, nonzero)) proven stranger in
    (few, unlisted, within)
