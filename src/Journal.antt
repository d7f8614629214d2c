-- ===== src/Journal.antt =====
-- packages/hedera/src/journal.ts: what is published about a verdict, and the journal in memory. SHA-256
-- and the source of salts are parameters; a salt given by the caller is `some`.
pub mod Publishes
mod Tests
use presign.Prelude.{
  ℕ, ◌+◌, String, Bool, Option, none, some, List, [], ◌∷◌, ◌++◌, lower, decimal, filter, not,
  string_eq,
}
use presign.Types.{
  UnsignedTransaction, RiskTier, Severity, Finding, VerdictSource, UnavailableRule, Verdict, info,
}
use presign.JsMap.{unique}
use presign.Escalation.{is_info}
use mathlib.Core.List.{map}
use Prim.Native.String

infixr 60 ◌⧺◌
abbrev ◌⧺◌ : String → String → String
s ⧺ t = String.◌++◌ s t

-- parts.join(separator)
unfoldable pub join : String → List String → String
join separator [] = ""
join separator (part ∷ []) = part
join separator (part ∷ next ∷ parts) = part ⧺ separator ⧺ join separator (next ∷ parts)

-- `transaction.to ?? ""`
abbrev pub to_text : Option String → String
to_text none = ""
to_text (some address) = address

unfoldable pub hash_transaction : (String → String) → UnsignedTransaction → String
unfolding join lower decimal
hash_transaction sha256 tx = sha256 (
    join "|" (
      lower tx.from
      ∷ lower (to_text tx.to)
      ∷ decimal tx.value
      ∷ lower tx.calldata
      ∷ decimal tx.chain_id
      ∷ []))

unfoldable pub commit_transaction : (String → String) → UnsignedTransaction → String → String
unfolding hash_transaction
commit_transaction sha256 tx salt = sha256 (salt ⧺ "|" ⧺ hash_transaction sha256 tx)

pub record EntrySource : Type 0 where
  pub id : String
  -- in milliseconds
  pub lag : ℕ

pub record EntryGap : Type 0 where
  pub rule : String
  pub why : String

pub record JournalEntry : Type 0 where
  pub tx_commitment : String
  pub chain_id : ℕ
  pub tier : RiskTier
  pub rules : List String
  pub sources : List EntrySource
  pub gaps : List EntryGap
  pub block : Option ℕ
  pub at : ℕ

-- A finding that the entry names a rule for.
abbrev pub is_published : Finding → Bool
is_published f = not (is_info f.severity)

unfoldable pub to_entry : (String → String) → UnsignedTransaction → Verdict → String → JournalEntry
unfolding commit_transaction unique
to_entry sha256 tx v salt = record {
  tx_commitment = commit_transaction sha256 tx salt;
  chain_id = tx.chain_id;
  tier = v.tier;
  rules = unique (map (λ (f : Finding). f.rule_id) (filter is_published v.findings));
  sources =
      map (λ (s : VerdictSource). record { id = s.deployment_id; lag = s.effective_lag })
        v.provenance.sources;
  gaps =
      map (λ (r : UnavailableRule). record { rule = r.rule_id; why = r.reason })
        v.provenance.unavailable_rules;
  block = v.provenance.simulated_at_block;
  at = v.evaluated_at;
}

pub record JournalReceipt : Type 0 where
  pub topic_id : String
  pub sequence_number : ℕ
  pub entry : JournalEntry
  pub salt : String

-- InMemoryVerdictJournal
pub record InMemoryVerdictJournal : Type 0 where
  pub entries : List JournalEntry
  pub sequence : ℕ

abbrev pub new_journal : InMemoryVerdictJournal
new_journal = record { entries = []; sequence = 0 }

-- The salt that is used: the caller's, or a fresh one.
abbrev pub salt_or : String → Option String → String
salt_or fresh none = fresh
salt_or fresh (some salt) = salt

-- `record`, with the salt that `newSalt` would draw.
unfoldable pub record_verdict :
    (String → String)
    → String
    → UnsignedTransaction
    → Verdict
    → Option String
    → InMemoryVerdictJournal
    → JournalReceipt × InMemoryVerdictJournal
unfolding to_entry
record_verdict sha256 fresh tx v given j =
    let salt = salt_or fresh given in
    let entry = to_entry sha256 tx v salt in
    (
      record { topic_id = "local"; sequence_number = j.sequence + 1; entry = entry; salt = salt },
      record { entries = j.entries ++ entry ∷ []; sequence = j.sequence + 1 },
    )
