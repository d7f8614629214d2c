-- ===== src/Exposure.antt =====
-- packages/verdict-engine/src/rules/exposure.ts: whether a transaction leaves its sender more
-- exposed to a contract than before.
pub mod Growth
mod Tests
use presign.Prelude.{
  ℕ, String, Bool, true, false, ◌&&◌, ◌||◌, Option, none, some, List, [], ◌∷◌, ◌++◌, map, ltb, not,
  if◌then◌else◌, ◌==◌, string_eq, lower, text_of, any, filter, is_empty,
}
use presign.Types.{UnsignedTransaction, StateDiff, AccountDiff}
use presign.JsMap.{has}
use presign.Mappings.{
  Viem, MappingEntry, mapping_entries, nested_mapping_entries, transaction_addresses,
  max_mapping_slot,
}
use presign.Effects.{balance, storage, or_zero, word_at}

-- The slots whose word rose, in lower case: the chain of `filter` and `map`.
unfoldable pub risen : Option (List (String × ℕ)) → List (String × ℕ) → List String
unfolding word_at lower
risen before [] = []
risen before ((slot, after) ∷ ws) =
    if ltb (word_at slot before) after then lower slot ∷ risen before ws else risen before ws

-- increasedSlots
unfoldable pub increased_slots : StateDiff → String → List String
unfolding risen storage
increased_slots diff account = elim (storage account diff.post) [
  | none ↦ []
  | some post ↦ risen (storage account diff.pre) post
]

-- ExposureGrowth
pub record ExposureGrowth : Type 0 where
  pub grows : Bool
  pub reasons : List String

-- Whether a slot among these is an entry of the map.
abbrev pub touches : List (String × MappingEntry) → List String → Bool
touches entries slots = any (λ s. has s entries) slots

abbrev is_text : Option String → String → Bool
is_text none s = false
is_text (some t) s = lower t == s

-- The contract's balance rose, where it is known.
abbrev pub balance_rises : Option ℕ → Option ℕ → Bool
balance_rises before none = false
balance_rises before (some after) = ltb (or_zero before) after

unfoldable pub sends_eth : UnsignedTransaction → StateDiff → String → Bool
unfolding balance
sends_eth tx diff target =
    (is_text tx.to target && ltb 0 tx.value)
    || balance_rises (balance target diff.pre) (balance target diff.post)

-- The loop over `Object.keys(diff.post)`.
unfoldable pub token_reasons :
    List (String × MappingEntry) → StateDiff → String → List (String × AccountDiff) → List String
unfolding increased_slots lower text_of has
token_reasons entries diff target [] = []
token_reasons entries diff target ((account, changes) ∷ rest) =
    if lower account == target
    then token_reasons entries diff target rest
    else if touches entries (increased_slots diff account)
    then text_of ("moves tokens of " ∷ account ∷ " into it" ∷ [])
      ∷ token_reasons entries diff target rest
    else token_reasons entries diff target rest

module _ (viem : Viem) where
  unfoldable pub exposure_reasons : UnsignedTransaction → StateDiff → String → List String
  unfolding sends_eth token_reasons lower increased_slots has
  exposure_reasons tx diff contract =
      let target = lower contract in
      let sender = lower tx.from in
      let own_slots = increased_slots diff target in
      (if sends_eth tx diff target then "sends it ETH" ∷ [] else [])
      ++ (token_reasons (mapping_entries viem (target ∷ []) max_mapping_slot) diff target diff.post
          ++ ((if touches
                  (nested_mapping_entries viem sender (transaction_addresses tx diff).addresses
                    max_mapping_slot)
                  own_slots
                then "grants an allowance on it" ∷ []
                else [])
              ++ (if touches (mapping_entries viem (sender ∷ []) max_mapping_slot) own_slots
                  then "increases a balance it records for the sender" ∷ []
                  else [])))

  -- exposureGrowth
  unfoldable pub exposure_growth : UnsignedTransaction → StateDiff → String → ExposureGrowth
  unfolding exposure_reasons
  exposure_growth tx diff contract = elim diff.revert_reason [
    | some why ↦ record { grows = false; reasons = [] }
    | none ↦
        let reasons = exposure_reasons tx diff contract in
        record { grows = not (is_empty reasons); reasons = reasons }
  ]
