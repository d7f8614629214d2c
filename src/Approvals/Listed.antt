-- ===== src/Approvals/Listed.antt =====
-- What R1 does where the transaction reaches an address that the registry lists.
use mathlib.Core.List.{Memᴰ}
use presign.Prelude.{
  ℕ, ◌≡◌, refl, ap, ◌∙◌, String, Bool, true, false, ◌||◌, Option, none, some, List, [], ◌∷◌, ◌++◌,
  map, arith, any, lower, includes, string_eq, if◌then◌else◌, inl, inr, Bool-cases, Option-cases,
  ◌==◌,
}
use presign.Types.{
  high, Finding, UnsignedTransaction, StateDiff, RuleContext, Verdict, value, TokenOut,
  ValueEffects,
}
use presign.JsMap.{get, has}
use presign.JsMap.Laws.{has-put}
use presign.Mappings.{Viem, transaction_addresses}
use presign.Effects.{value_effects}
use presign.Engine.{VerdictEngine, TierPolicy, contribution, capped, context, outcome_of, evaluate}
use presign.Engine.Evaluate.{findings_of}
use presign.Engine.Rules.{is_grave, any-append, evaluate_grave}
use presign.Approvals.{
  Options, ApprovalRule, new_rule, Reached, reach, reach_all, reach_tokens, reached_addresses,
  reached_finding, listed_findings, reached_listed_addresses,
}
use presign.Approvals.Evaluate

has-reach :
    (change : Reached → Reached) (a j : String) (m : List (String × Reached))
    → has j (reach change a m) ≡ (if lower a == j then true else has j m)
unfolding reach
has-reach change a j m = elim (Option-cases (get (lower a) m)) [
  | inl fresh ↦ rw (fresh, reach) (has-put (lower a) j _ m)
  | inr (how, found) ↦ rw (found, reach) (has-put (lower a) j _ m)
]

has-reach_all :
    (change : Reached → Reached) (l : List String) (j : String) (m : List (String × Reached))
    → has j (reach_all change l m) ≡ (includes j (map lower l) || has j m)
unfolding reach_all
has-reach_all change [] j m = ground arith
has-reach_all change (a ∷ l) j m =
    has-reach_all change l j (reach change a m) ∙ ground (arith, has-reach change a j m)

-- The address is a recipient of a token, in lower case.
abbrev pub receives : String → List TokenOut → Bool
receives j [] = false
receives j (t ∷ ts) = includes j (map lower t.recipients) || receives j ts

has-reach_tokens :
    (ts : List TokenOut) (j : String) (m : List (String × Reached))
    → has j (reach_tokens ts m) ≡ (receives j ts || has j m)
unfolding reach_tokens
has-reach_tokens [] j m = ground arith
has-reach_tokens (t ∷ ts) j m =
    has-reach_tokens ts j _
    ∙ ground (
      arith,
      has-reach_all (λ h. record h { tokens = h.tokens ++ t.token ∷ [] }) t.recipients j m,
    )

abbrev called : String → Option String → Bool
called j none = false
called j (some to) = lower to == j

-- The transaction calls the address, or pays it ETH or a token.
abbrev pub is_reached : UnsignedTransaction → ValueEffects → String → Bool
is_reached tx effects j =
    called j tx.to
    || (includes j (map lower effects.eth_recipients) || receives j effects.tokens_out)

has-called :
    (j : String) (to : Option String)
    → has j (elim to [ none ↦ [] | some a ↦ reach (λ h. record h { called = true }) a [] ])
      ≡ called j to
has-called j none = unfold has in refl
has-called j (some a) =
    has-reach (λ h. record h { called = true }) a j [] ∙ unfold has in ground arith

has-reached_addresses :
    (tx : UnsignedTransaction) (effects : ValueEffects) (j : String)
    → has j (reached_addresses tx effects) ≡ is_reached tx effects j
unfolding reached_addresses
has-reached_addresses tx effects j =
    has-reach_tokens effects.tokens_out j _
    ∙ ap (λ b. receives j effects.tokens_out || b)
        (has-reach_all (λ h. record h { eth = true }) effects.eth_recipients j _
          ∙ ap (λ b. includes j (map lower effects.eth_recipients) || b) (has-called j tx.to))
    ∙ ground arith

-- An address of the map that the registry lists is found, and the finding is critical.
listed_findings_grave :
    (policy : TierPolicy) (rule : ApprovalRule) (j : String) (m : List (String × Reached))
    → has j m ≡ true
    → rule.incidents.has j ≡ true
    → any (is_grave policy) (listed_findings rule m) ≡ true
unfolding listed_findings has reached_finding contribution capped
listed_findings_grave policy rule j [] h listed = h
listed_findings_grave policy rule j ((k, how) ∷ m) h listed = elim (Bool-cases (k == j)) [
  | inl same ↦
      let path : k ≡ j = (string_eq.equals_iff k j).0 same in
      rw (ap rule.incidents.has path ∙ listed) refl
  | inr other ↦
      let more = listed_findings_grave policy rule j m (rw other at h) listed in
      elim (Bool-cases (rule.incidents.has k)) [
        | inl here ↦ rw here refl
        | inr clear ↦ rw clear more
      ]
]

landed_findings :
    (viem : Viem) (pad : String → String) (rule : ApprovalRule) (ctx : RuleContext)
    (fs : List Finding)
    → ctx.diff.revert_reason ≡ none
    → (transaction_addresses ctx.transaction ctx.diff).truncated ≡ false
    → Evaluate.accounts_findings viem pad rule ctx
        (Evaluate.sender_allowances viem pad rule ctx)
        ctx.diff.post
      ≡ value fs
    → findings_of (outcome_of (Evaluate.evaluate viem pad rule ctx))
      ≡ fs ++ reached_listed_addresses rule ctx
unfolding Evaluate.evaluate outcome_of Evaluate.findings_of_writes transaction_addresses
    presign.Mappings.all_addresses
landed_findings viem pad rule ctx fs landed few settled = rw (landed, few, settled) refl

-- R1: a transaction that calls an address which the registry lists, or for which the effects read from
-- its simulation name that address as a recipient of ETH or of a token, gets a `high` verdict whatever
-- the other rules answer. A payment whose recipient the effects do not name, and which the transaction
-- does not call, is not covered. The simulation did not revert, no candidate address was left out, and
-- the token contracts answered about each allowance that the transaction writes.
pub listed_reached_high :
    (viem : Viem) (pad : String → String) (engine : VerdictEngine) (tx : UnsignedTransaction)
    (fork_chain : ℕ) (diff : StateDiff) (v : Verdict) (o : Options) (address : String)
    (fs : List Finding)
    → engine.simulator.chain_id ≡ value fork_chain
    → engine.simulator.simulate tx ≡ value diff
    → tx.chain_id ≡ fork_chain
    → evaluate viem engine tx ≡ value v
    → Memᴰ (Evaluate.unlimited_approval viem pad o) engine.rules
    → diff.revert_reason ≡ none
    → (transaction_addresses tx diff).truncated ≡ false
    → Evaluate.accounts_findings viem pad
        (new_rule o)
        (context viem engine tx diff)
        (Evaluate.sender_allowances viem pad (new_rule o) (context viem engine tx diff))
        diff.post
      ≡ value fs
    → is_reached tx (value_effects viem tx diff) address ≡ true
    → (new_rule o).incidents.has address ≡ true
    → v.tier ≡ high
unfolding context reached_listed_addresses
listed_reached_high viem pad engine tx fork_chain diff v o address fs hc hs same hv m landed few
      settled reached listed =
    let ctx = context viem engine tx diff in
    let rule = new_rule o in
    evaluate_grave viem engine tx fork_chain diff v (Evaluate.unlimited_approval viem pad o) hc hs
      same hv m
      (ap (any (is_grave engine.policy)) (landed_findings viem pad rule ctx fs landed few settled)
        ∙ any-append (is_grave engine.policy) fs _
        ∙ ground (
          arith,
          listed_findings_grave engine.policy rule address (reached_addresses tx ctx.effects)
              (has-reached_addresses tx ctx.effects address ∙ reached) listed,
        ))
