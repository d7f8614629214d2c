-- ===== src/Effects.antt =====
-- packages/verdict-engine/src/simulation/effects.ts: what a transaction moves out of the sender's
-- wallet, read from the state diff.
pub mod Recipients
mod Tests
use presign.Prelude.{
  ℕ, ◌+◌, ◌-◌, String, Bool, true, false, Option, none, some, List, [], ◌∷◌, ◌++◌, map, ltb, leb,
  not, if◌then◌else◌, ◌==◌, string_eq, lower, filter, any, is_empty, eqb,
}
use presign.Types.{UnsignedTransaction, StateDiff, AccountDiff, TokenOut, ValueEffects, field}
use presign.JsMap.{get, has, unique}
use presign.Mappings.{
  Viem, MappingEntry, mapping_entries, transaction_addresses, accounts, max_mapping_slot,
}

-- NO_EFFECTS
abbrev pub no_effects : ValueEffects
no_effects = record { observed = false; eth_out = 0; eth_recipients = []; tokens_out = [] }

-- `accounts[address]?.balance`
unfoldable pub balance : String → List (String × AccountDiff) → Option ℕ
balance address m = elim (field address m) [ none ↦ none | some a ↦ a.balance ]

unfoldable pub storage : String → List (String × AccountDiff) → Option (List (String × ℕ))
storage address m = elim (field address m) [ none ↦ none | some a ↦ a.storage ]

-- `… ?? 0n`
abbrev pub or_zero : Option ℕ → ℕ
or_zero none = 0
or_zero (some n) = n

-- `storage?.[slot] ?? "0x0"`
unfoldable pub word_at : String → Option (List (String × ℕ)) → ℕ
word_at slot none = 0
word_at slot (some m) = or_zero (field slot m)

-- preEth > postEth ? preEth - postEth : 0n, where both were read
unfoldable pub fallen : Option ℕ → Option ℕ → ℕ
fallen none _ = 0
fallen (some before) none = 0
fallen (some before) (some after) = if ltb after before then before - after else 0

unfoldable pub rises : StateDiff → String → Bool
unfolding balance
rises diff account = elim (balance account diff.post) [
  | none ↦ false
  | some after ↦ ltb (or_zero (balance account diff.pre)) after
]

-- What the loop over a token's slots collects.
pub record Moved : Type 0 where
  pub amount_out : ℕ
  pub increased : List String

unfoldable pub move_slot : (String → Bool) → Option (List (String × ℕ)) → Moved → String × ℕ → Moved
unfolding word_at
move_slot is_sender before m (raw_slot, after) =
    let slot = lower raw_slot in
    let prior = word_at raw_slot before in
    if ltb after prior
    then (if is_sender slot then record m { amount_out = m.amount_out + (prior - after) } else m)
    else if ltb prior after
    then record m { increased = m.increased ++ slot ∷ [] }
    else m

unfoldable pub move_slots :
    (String → Bool) → Option (List (String × ℕ)) → Moved → List (String × ℕ) → Moved
move_slots is_sender before m [] = m
move_slots is_sender before m (w ∷ ws) =
    move_slots is_sender before (move_slot is_sender before m w) ws

-- `holders.get(slot)?.key`
unfoldable pub holder : List (String × MappingEntry) → String → Option String
holder holders slot = elim (get slot holders) [ none ↦ none | some x ↦ some x.key ]

unfoldable pub named : List (Option String) → List String
named [] = []
named (none ∷ os) = named os
named (some a ∷ os) = a ∷ named os

abbrev pub is_none {ℓ} : {A : Type ℓ} → Option A → Bool
is_none none = true
is_none (some a) = false

unfoldable pub token_out : List (String × MappingEntry) → String → Moved → TokenOut
token_out holders token m =
    let names = map (holder holders) m.increased in
    record {
      token = token;
      amount_out = m.amount_out;
      recipients = unique (named names);
      burned = is_empty m.increased;
      unidentified_recipient = any is_none names;
    }

module _ (viem : Viem) where
  -- One round of the loop over the accounts of the diff.
  unfoldable pub token_effect :
      UnsignedTransaction → StateDiff → String × AccountDiff → List TokenOut
  token_effect tx diff (raw_token, account) = elim account.storage [
    | none ↦ []
    | some slots ↦
        let sender = lower tx.from in
        let own = mapping_entries viem (sender ∷ []) max_mapping_slot in
        let m =
          move_slots (λ s. has s own) (storage raw_token diff.pre)
            (record { amount_out = 0; increased = [] }) slots in
        let holders =
          mapping_entries viem
            (filter (λ a. not (a == sender)) (transaction_addresses tx diff).addresses)
            max_mapping_slot in
        if eqb m.amount_out 0 then [] else token_out holders (lower raw_token) m ∷ []
  ]

  unfoldable pub token_effects :
      UnsignedTransaction → StateDiff → List (String × AccountDiff) → List TokenOut
  token_effects tx diff [] = []
  token_effects tx diff (x ∷ xs) = token_effect tx diff x ++ token_effects tx diff xs

  unfoldable pub value_effects : UnsignedTransaction → StateDiff → ValueEffects
  unfolding balance fallen rises
  value_effects tx diff = elim diff.revert_reason [
    | some why ↦ no_effects
    | none ↦
        let sender = lower tx.from in
        record {
          observed = true;
          eth_out = fallen (balance sender diff.pre) (balance sender diff.post);
          eth_recipients =
              filter (λ a. if a == sender then false else rises diff a) (accounts diff.post);
          tokens_out = token_effects tx diff diff.post;
        }
  ]
