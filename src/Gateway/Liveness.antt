-- ===== src/Gateway/Liveness.antt =====
-- packages/operational-layer/src/probes/liveness.ts: how far a deployment is behind. A number of
-- `_meta` that is not one is absent, and `hasIndexingErrors` is absent where it is not a Boolean.
use presign.Prelude.{
  ℕ, ◌+◌, ◌-◌, ◌*◌, ◌/◌, ◌≤◌, ◌≡◌, refl, ap, ◌∙◌, String, Bool, true, false, Option, none, some,
  text_of, [], ◌∷◌, arith, ◌↔◌,
}
use mathlib.Core.Path.{subst}
use presign.Types.{Settled, value, rejected, value_injective, rejected-ne-value}
use presign.Capability.{LivenessReport}
use presign.Engine.{◌>>=◌}
use presign.Engine.Rules.{bind-value}

-- `_meta.block`, and `_meta` itself
pub record MetaBlock : Type 0 where
  pub number : Option ℕ
  pub timestamp : Option ℕ

pub record Meta : Type 0 where
  pub block : Option MetaBlock
  pub has_indexing_errors : Option Bool

-- `flag !== false`
abbrev pub is_not_false : Option Bool → Bool
is_not_false (some false) = false
is_not_false _ = true

-- `meta._meta?.block?.number` and `timestamp`, and `meta._meta?.hasIndexingErrors`
abbrev pub block_of : Option Meta → Option MetaBlock
block_of none = none
block_of (some m) = m.block

abbrev pub errors_of : Option Meta → Option Bool
errors_of none = none
errors_of (some m) = m.has_indexing_errors

abbrev number_of : Option MetaBlock → Option ℕ
number_of none = none
number_of (some b) = b.number

abbrev timestamp_of : Option MetaBlock → Option ℕ
timestamp_of none = none
timestamp_of (some b) = b.timestamp

-- The report of a block that is there.
unfoldable pub report_of : String → Option Bool → ℕ → ℕ → ℕ → ℕ → LivenessReport
report_of deployment errors head number timestamp now = record {
  deployment_id = deployment;
  indexed_block = number;
  indexed_block_timestamp = timestamp;
  head_block = head;
  blocks_behind = head - number;
  lag_seconds = (now + 500) / 1000 - timestamp;
  has_indexing_errors = is_not_false errors;
  checked_at = now;
}

unfoldable pub read_block :
    String → Option Bool → ℕ → ℕ → Option ℕ → Option ℕ → Settled LivenessReport
unfolding report_of text_of
read_block deployment errors head now (some number) (some timestamp) =
    value (report_of deployment errors head number timestamp now)
read_block deployment errors head now _ _ =
    rejected (text_of ("deployment " ∷ deployment ∷ " returned no usable _meta block" ∷ []))

-- check, on the answers of the gateway and the chain head and at a moment in milliseconds
unfoldable pub check : String → Settled (Option Meta) → Settled ℕ → ℕ → Settled LivenessReport
unfolding read_block
check deployment meta head now = meta >>= λ m. head >>= λ h.
    read_block deployment (errors_of m) h now (number_of (block_of m)) (timestamp_of (block_of m))

read_block_report :
    (deployment : String) (errors : Option Bool) (head now : ℕ) (n t : Option ℕ)
    (r : LivenessReport)
    → read_block deployment errors head now n t ≡ value r
    → (number timestamp : ℕ) × (n ≡ some number)
      × (t ≡ some timestamp)
      × (report_of deployment errors head number timestamp now ≡ r)
unfolding read_block
read_block_report deployment errors head now none t r h = absurd (rejected-ne-value _ r h)
read_block_report deployment errors head now (some number) none r h =
    absurd (rejected-ne-value _ r h)
read_block_report deployment errors head now (some number) (some timestamp) r h =
    (number, timestamp, refl, refl, value_injective h)

is_not_false_iff : (flag : Option Bool) → (is_not_false flag ≡ false) ↔ (flag ≡ some false)
is_not_false_iff none = (λ h. cc h, λ h. cc h)
is_not_false_iff (some true) = (λ h. cc h, λ h. cc h)
is_not_false_iff (some false) = (λ h. refl, λ h. refl)

-- A report states what the deployment said of its block.
abbrev pub IsOf : Option Meta → ℕ → LivenessReport → Type 0
IsOf m now r =
    (number_of (block_of m) ≡ some r.indexed_block)
    × (timestamp_of (block_of m) ≡ some r.indexed_block_timestamp)
    × ((r.has_indexing_errors ≡ false) ↔ (errors_of m ≡ some false))
    × (r.lag_seconds * 1000 ≤ (now + 500) - r.indexed_block_timestamp * 1000)
    × (now ≤ (r.indexed_block_timestamp + r.lag_seconds) * 1000 + 499)

report_of-IsOf :
    (deployment : String) (m : Option Meta) (head now number timestamp : ℕ)
    → number_of (block_of m) ≡ some number
    → timestamp_of (block_of m) ≡ some timestamp
    → IsOf m now (report_of deployment (errors_of m) head number timestamp now)
unfolding report_of
report_of-IsOf deployment m head now number timestamp n t =
    (n, t, is_not_false_iff (errors_of m), omega arith, omega arith)

-- A report is made only of a block with a number and a timestamp that the deployment gave, with the
-- chain's head. A deployment counts as without errors only where it says so. The lag is within half a
-- second of the age of the indexed block, and nothing where that block is ahead of the clock.
pub check_report :
    (deployment : String) (meta : Settled (Option Meta)) (head : Settled ℕ) (now : ℕ)
    (r : LivenessReport)
    → check deployment meta head now ≡ value r
    → (m : Option Meta) × (meta ≡ value m) × (head ≡ value r.head_block) × IsOf m now r
unfolding check report_of
check_report deployment meta head now r h =
    let (m, em, rest) = bind-value meta _ r h in
    let (top, eh, last) = bind-value head _ r rest in
    let (number, timestamp, n, t, e) =
      read_block_report deployment (errors_of m) top now (number_of (block_of m))
        (timestamp_of (block_of m)) r last in
    (
      m,
      em,
      eh ∙ ap (λ (x : LivenessReport). value x.head_block) e,
      subst (IsOf m now) e (report_of-IsOf deployment m top now number timestamp n t),
    )
