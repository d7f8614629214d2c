-- ===== src/Approvals/Evaluate.antt =====
-- packages/verdict-engine/src/rules/r1-unlimited-approval.ts: `#classify` and `evaluate`, which
-- await the token.
use Prim.Native.String
use presign.Prelude.{
  ℕ, String, false, none, some, List, [], ◌∷◌, ◌++◌, leb, eqb, if◌then◌else◌, string_eq, lower,
  text_drop, includes,
}
use presign.Types.{
  Finding, RuleContext, RuleOutcome, evaluated, not_evaluated, Rule, Settled, value, sentence,
  AccountDiff,
}
use presign.JsMap.{get}
use presign.Mappings.{Viem, MappingEntry, nested_mapping_entries, transaction_addresses}
use presign.Approvals.{
  Options, ApprovalRule, new_rule, Grant, operator, allowance, at_least_2_128, unlimited_threshold,
  total_supply_selector, balance_of_selector, is_approved_for_all_selector, uint_result, is_word,
  basis_of, is_budget, approval_finding, reached_listed_addresses, rule_list,
}
use presign.Engine.{◌>>=◌}

-- `account.storage ?? {}`
abbrev pub written : AccountDiff → List (String × ℕ)
written account = elim account.storage [ none ↦ [] | some slots ↦ slots ]

module _ (viem : Viem) (pad : String → String) where
  -- `pad(address, { size: 32 }).slice(2)`
  unfoldable pub word : String → String
  unfolding text_drop
  word address = text_drop 2 (pad address)

  -- The rest of `#classify`, where the token did not confirm an operator.
  unfoldable pub classify_allowance : RuleContext → String → String → ℕ → Settled Grant
  unfolding word uint_result basis_of
  classify_allowance ctx token owner amount =
      if leb unlimited_threshold amount
      then value (allowance (some at_least_2_128) none none)
      else (ctx.call token total_supply_selector >>= λ supply.
          ctx.call token (String.◌++◌ balance_of_selector (word owner)) >>= λ balance. value (
            allowance (basis_of amount (uint_result supply) (uint_result balance))
              (uint_result supply) (uint_result balance)))

  -- #classify
  unfoldable pub classify : RuleContext → String → String → String → ℕ → Settled Grant
  unfolding classify_allowance word
  classify ctx token owner spender amount =
      if eqb amount 1
      then (ctx.call token
            (String.◌++◌ is_approved_for_all_selector (String.◌++◌ (word owner) (word spender)))
          >>= λ answer.
              if is_word answer then value operator else classify_allowance ctx token owner amount)
      else classify_allowance ctx token owner amount

  -- One round of the inner loop, from the spender on.
  unfoldable pub spender_findings :
      ApprovalRule → RuleContext → String → String → String → ℕ → Settled (List Finding)
  unfolding classify approval_finding
  spender_findings rule ctx token owner spender amount =
      classify ctx token owner spender amount >>= λ grant.
      let listed = rule.incidents.has spender in
      value (
        if (if listed then false else is_budget grant)
        then []
        else approval_finding rule token owner spender amount grant listed ∷ [])

  -- One round of the inner loop: a slot and the number written there.
  unfoldable pub write_findings :
      ApprovalRule
      → RuleContext
      → List (String × MappingEntry)
      → String
      → String × ℕ
      → Settled (List Finding)
  unfolding spender_findings lower
  write_findings rule ctx allowances token (slot, amount) =
      if eqb amount 0 then value [] else elim (get (lower slot) allowances) [
        | none ↦ value []
        | some match_found ↦
            if includes match_found.key rule.allowlist
            then value []
            else spender_findings rule ctx token (lower ctx.transaction.from) match_found.key amount
      ]

  unfoldable pub slots_findings :
      ApprovalRule
      → RuleContext
      → List (String × MappingEntry)
      → String
      → List (String × ℕ)
      → Settled (List Finding)
  unfolding write_findings
  slots_findings rule ctx allowances token [] = value []
  slots_findings rule ctx allowances token (w ∷ ws) =
      write_findings rule ctx allowances token w >>= λ found.
      slots_findings rule ctx allowances token ws >>= λ more. value (found ++ more)

  unfoldable pub accounts_findings :
      ApprovalRule
      → RuleContext
      → List (String × MappingEntry)
      → List (String × AccountDiff)
      → Settled (List Finding)
  unfolding slots_findings lower
  accounts_findings rule ctx allowances [] = value []
  accounts_findings rule ctx allowances ((raw_token, account) ∷ rest) =
      slots_findings rule ctx allowances (lower raw_token) (written account) >>= λ found.
      accounts_findings rule ctx allowances rest >>= λ more. value (found ++ more)

  -- The mapping entries of the allowances that the sender may have given.
  unfoldable pub sender_allowances : ApprovalRule → RuleContext → List (String × MappingEntry)
  unfolding lower
  sender_allowances rule ctx =
      nested_mapping_entries viem (lower ctx.transaction.from)
        (transaction_addresses ctx.transaction ctx.diff).addresses rule.max_slot

  -- The rest of `evaluate`, where the transaction did not revert and no candidate was left out.
  unfoldable pub findings_of_writes : ApprovalRule → RuleContext → Settled RuleOutcome
  unfolding accounts_findings sender_allowances reached_listed_addresses
  findings_of_writes rule ctx =
      accounts_findings rule ctx (sender_allowances rule ctx) ctx.diff.post >>= λ found. value (
        evaluated (found ++ reached_listed_addresses rule ctx) []
          (if rule.has_registry then rule_list rule.incidents.status ∷ [] else []))

  -- evaluate
  unfoldable pub evaluate : ApprovalRule → RuleContext → Settled RuleOutcome
  unfolding findings_of_writes
  evaluate rule ctx = elim ctx.diff.revert_reason [
    | some why ↦ value (evaluated [] [] [])
    | none ↦
        if (transaction_addresses ctx.transaction ctx.diff).truncated
        then value (
            not_evaluated "too_many_candidates" (
              sentence
                "The transaction names more than 512 distinct addresses, so an allowance to one of the rest could not be ruled out."))
        else findings_of_writes rule ctx
  ]

  -- UnlimitedApprovalRule
  abbrev pub unlimited_approval : Options → Rule
  unlimited_approval o = record { id = "R1"; evaluate = evaluate (new_rule o) }
