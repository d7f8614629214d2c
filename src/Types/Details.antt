-- ===== src/Types/Details.antt =====
-- The sentences that the engine writes, by the values that they are built from.
use presign.Prelude.{ℕ, String}

pub data Detail : Type 0 where
  -- "this instance simulates chain …; the transaction is for chain …, so it was not executed …"
  foreign_chain : ℕ → ℕ → Detail
  -- "The transaction fails when executed against current state, … harmless. …"
  reverts : String → Detail
  -- a sentence that a rule or a thrown error supplies
  sentence : String → Detail
