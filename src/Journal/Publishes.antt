-- ===== src/Journal/Publishes.antt =====
-- What an entry of the journal says, and how the broker reads it.
use presign.Prelude.{
  ℕ, ◌+◌, String, ◌≡◌, refl, sym, ap, ◌∙◌, ◌&&◌, ◌||◌, Option, none, some, List, [], ◌∷◌, ◌++◌,
  filter, any, includes, string_eq, ◌==◌, Bool-cases, inl, inr,
}
use mathlib.Core.List.{map, append_assoc, append-nil}
use presign.Types.{UnsignedTransaction, Verdict, Finding}
use presign.JsMap.Laws.{includes-unique_iff}
use presign.Journal.{
  join, hash_transaction, commit_transaction, to_entry, record_verdict, JournalReceipt,
  InMemoryVerdictJournal, is_published, new_journal, to_text,
}
use presign.Broker.{commitment_of, canonical, or_empty}

named_rules :
    (r : String) (fs : List Finding)
    → includes r (map (λ (f : Finding). f.rule_id) (filter is_published fs))
      ≡ any (λ f. is_published f && (f.rule_id == r)) fs
named_rules r [] = refl
named_rules r (f ∷ fs) = elim (Bool-cases (is_published f)) [
  | inl published ↦ rw published (ap (◌||◌ (f.rule_id == r)) (named_rules r fs))
  | inr kept ↦ rw kept (named_rules r fs)
]

-- An entry names a rule exactly when the verdict has a finding of it that is more than information,
-- whatever the order of the findings.
pub to_entry-rules :
    (sha256 : String → String) (tx : UnsignedTransaction) (v : Verdict) (salt r : String)
    → includes r (to_entry sha256 tx v salt).rules
      ≡ any (λ f. is_published f && (f.rule_id == r)) v.findings
unfolding to_entry
to_entry-rules sha256 tx v salt r =
    includes-unique_iff r (map (λ (f : Finding). f.rule_id) (filter is_published v.findings))
    ∙ named_rules r v.findings

to_text-or_empty : (o : Option String) → to_text o ≡ or_empty o
to_text-or_empty none = refl
to_text-or_empty (some address) = refl

-- The commitment of a journal entry is the one that the broker recomputes from the salt to bind a
-- verdict to its transaction: the two packages write the same canonical text.
pub to_entry-commitment :
    (sha256 : String → String) (tx : UnsignedTransaction) (v : Verdict) (salt : String)
    → (to_entry sha256 tx v salt).tx_commitment ≡ commitment_of sha256 tx salt
unfolding to_entry commit_transaction hash_transaction join commitment_of canonical
to_entry-commitment sha256 tx v salt =
    rw (to_entry, commit_transaction, hash_transaction, join, to_text-or_empty tx.to) refl

-- One call of `record`.
pub record Recording : Type 0 where
  pub fresh : String
  pub transaction : UnsignedTransaction
  pub verdict : Verdict
  pub given : Option String

-- Calls of `record`, one after another: the receipts, and the journal at the end.
unfoldable pub record_all :
    (String → String)
    → List Recording
    → InMemoryVerdictJournal
    → List JournalReceipt × InMemoryVerdictJournal
record_all sha256 [] j = ([], j)
record_all sha256 (c ∷ cs) j =
    let first = record_verdict sha256 c.fresh c.transaction c.verdict c.given j in
    let rest = record_all sha256 cs first.1 in (first.0 ∷ rest.0, rest.1)

-- Receipts that are numbered from a number on.
abbrev pub IsNumbered : ℕ → List JournalReceipt → Type 0
IsNumbered n [] = Unit
IsNumbered n (r ∷ rs) = (r.sequence_number ≡ n) × IsNumbered (n + 1) rs

record_all_from :
    (sha256 : String → String) (cs : List Recording) (j : InMemoryVerdictJournal)
    → ((record_all sha256 cs j).1.entries
        ≡ j.entries ++ map (λ (r : JournalReceipt). r.entry) (record_all sha256 cs j).0)
      × IsNumbered (j.sequence + 1) (record_all sha256 cs j).0
unfolding record_all record_verdict
record_all_from sha256 [] j = (sym (append-nil j.entries), tt)
record_all_from sha256 (c ∷ cs) j =
    let rest =
      record_all_from sha256 cs
        (record_verdict sha256 c.fresh c.transaction c.verdict c.given j).1 in
    (rest.0 ∙ append_assoc j.entries _ _, (refl, rest.1))

-- The journal in memory drops nothing: after any calls of `record` on a new one it holds exactly the
-- entries of the receipts, in the order of the calls, and the receipts are numbered from one on.
pub record_all_kept :
    (sha256 : String → String) (cs : List Recording)
    → ((record_all sha256 cs new_journal).1.entries
        ≡ map (λ (r : JournalReceipt). r.entry) (record_all sha256 cs new_journal).0)
      × IsNumbered 1 (record_all sha256 cs new_journal).0
record_all_kept sha256 cs = record_all_from sha256 cs new_journal
