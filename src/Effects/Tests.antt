-- ===== src/Effects/Tests.antt =====
-- A transfer of four tokens from 0xaa to 0xbb, and a burn of three.
use mathlib.Core.List.{Memᴰ}
use presign.Prelude.{
  ℕ, ◌≤◌, ◌≡◌, refl, String, true, false, none, some, [], ◌∷◌, arith, includes, string_eq, lower,
}
use presign.Types.{UnsignedTransaction, StateDiff, AccountDiff, TokenOut, field}
use presign.JsMap.{has, get, unique}
use presign.Mappings.{
  entry_slot, max_mapping_slot, mapping_entries, transaction_addresses, all_addresses,
  calldata_addresses,
}
use presign.Mappings.Tests.{plain_viem, digits}
use presign.Effects.{
  token_effect, storage, word_at, move_slots, move_slot, token_out, holder, named,
}
use presign.Effects.Recipients.{token_effect_explains}

abbrev moving_tx : UnsignedTransaction
moving_tx = record { from = "0xaa"; to = some "0xcc"; value = 0; calldata = "0x"; chain_id = 1 }

-- The slots of the two balances, at position 2.
abbrev own_slot : String
own_slot = entry_slot plain_viem "0xaa" 2

abbrev their_slot : String
their_slot = entry_slot plain_viem "0xbb" 2

abbrev untouched : AccountDiff
untouched = record { balance = none; nonce = none; code = none; storage = none }

abbrev token : AccountDiff
token = record untouched { storage = some ((own_slot, 5) ∷ (their_slot, 7) ∷ []) }

abbrev diff : StateDiff
diff = record {
  pre =
      ("0xbb", untouched)
      ∷ ("0xCC", record untouched { storage = some ((own_slot, 9) ∷ (their_slot, 3) ∷ []) })
      ∷ [];
  post = ("0xCC", token) ∷ [];
  block_number = 9;
  block_timestamp = none;
  revert_reason = none;
}

abbrev transfer : TokenOut
transfer = record {
  token = "0xcc";
  amount_out = 4;
  recipients = "0xbb" ∷ [];
  burned = false;
  unidentified_recipient = false;
}

transfer_effect : token_effect plain_viem moving_tx diff ("0xCC", token) ≡ transfer ∷ []
unfolding token_effect entry_slot digits move_slots move_slot storage field has mapping_entries
    lower token_out unique holder named get transaction_addresses all_addresses calldata_addresses
transfer_effect = refl

token_effect_explains_example :
    (r : String) × (p : ℕ) × (includes r transfer.recipients ≡ true)
    × (p ≤ max_mapping_slot)
    × (entry_slot plain_viem r p ≡ lower their_slot)
unfolding storage word_at entry_slot digits field
token_effect_explains_example =
    token_effect_explains plain_viem moving_tx diff "0xCC" token
      ((own_slot, 5) ∷ (their_slot, 7) ∷ []) transfer (their_slot, 7) refl transfer_effect refl
      (Memᴰ.tail (Memᴰ.head refl)) (omega arith)

abbrev burning : StateDiff
burning = record diff {
  post = ("0xCC", record untouched { storage = some ((own_slot, 6) ∷ []) }) ∷ [];
}

abbrev burn : TokenOut
burn = record transfer { amount_out = 3; recipients = []; burned = true }

burn_effect :
    token_effect plain_viem moving_tx burning
      ("0xCC", record untouched { storage = some ((own_slot, 6) ∷ []) })
    ≡ burn ∷ []
unfolding token_effect entry_slot digits move_slots move_slot storage field has mapping_entries
    lower token_out unique named
burn_effect = refl
