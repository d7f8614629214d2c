-- ===== src/Origin.antt =====
-- packages/verdict-engine/src/chain/contract-origin.ts: when code first appeared at an address. The
-- archive node is a parameter; a read of it settles or rejects.
pub mod Bisect
pub mod Search
pub mod Memo
mod Tests
use mathlib.Core.Logic.{dite}
use mathlib.Core.WellFounded.{Acc, WellFounded}
use native.Mathlib.Decide.{dec_lt}
use presign.Prelude.{
  ℕ, zero, suc, ◌+◌, ◌-◌, ◌*◌, ◌/◌, ◌≤◌, ◌<◌, String, Bool, true, false, Option, none, some, arith,
  ltb, leb, eqb, if◌then◌else◌, lower, string_eq, ◌||◌,
}
use presign.Types.{Settled, value, rejected}
use presign.LruMap.{LruMap, lru_get, lru_set}

pub data ContractOrigin : Type 0 where
  -- the block and its timestamp
  deployed : ℕ → ℕ → ContractOrigin
  older_than : ℕ → ℕ → ContractOrigin
  indeterminate : String → ContractOrigin

pub record Block : Type 0 where
  pub number : ℕ
  pub timestamp : ℕ

-- `#block("latest")`, `#block` of a number, and `#hasCode`.
pub record Archive : Type 0 where
  pub latest : Settled Block
  pub block_at : ℕ → Settled Block
  pub has_code : String → ℕ → Settled Bool

abbrev pub default_horizon_seconds : ℕ
default_horizon_seconds = 604800

abbrev pub seconds_per_block : ℕ
seconds_per_block = 12

abbrev pub max_horizon_doublings : ℕ
max_horizon_doublings = 3

-- The rounds of the loop of `#horizon` that are left. `Math.max(0, head - span)` is the difference.
unfoldable pub horizon_from : Archive → ℕ → Block → ℕ → ℕ → Settled Block
horizon_from archive seconds head span zero =
    rejected "could not reach a block older than the horizon"
horizon_from archive seconds head span (suc rounds) =
    let further = horizon_from archive seconds head (span * 2) rounds in
    elim (archive.block_at (head.number - span)) [
      | rejected e ↦ rejected e
      | value block ↦
          if eqb (head.number - span) 0 || leb (block.timestamp + seconds) head.timestamp
          then value block
          else further
    ]

-- #horizon
unfoldable pub horizon : Archive → ℕ → Block → Settled Block
unfolding horizon_from
horizon archive seconds head =
    horizon_from archive seconds head ((seconds + (seconds_per_block - 1)) / seconds_per_block)
      (suc max_horizon_doublings)

-- The middle of the bounds, `Math.floor((low + high) / 2)`.
abbrev pub middle : ℕ → ℕ → ℕ
middle low high = (low + high) / 2

Acc-below : (k n : ℕ) → n < k → Acc ◌<◌ n
Acc-below zero n h = elim h [ ]
Acc-below (suc k) n h = Acc.intro n (λ m hm. Acc-below k m (omega arith))

-- Every number is reached from below.
unfoldable pub below_wf : WellFounded ◌<◌
unfolding Acc-below
below_wf = record { apply = λ n. Acc-below (suc n) n (omega arith) }

-- The loop of `#search` over (low, high], on a bound of its width: the block that `high` ends at.
unfoldable pub bisect :
    (ℕ → Settled Bool) → (low high width : ℕ) → high - low ≤ width → Acc ◌<◌ width → Settled ℕ
bisect code low high width fits (Acc.intro _ smaller) =
    dite (dec_lt (low + 1) high)
      (λ h. elim (code (middle low high)) [
        | rejected e ↦ rejected e
        | value true ↦
            bisect code low (middle low high) (middle low high - low) (omega arith)
              (smaller _ (omega arith))
        | value false ↦
            bisect code (middle low high) high (high - middle low high) (omega arith)
              (smaller _ (omega arith))
      ])
      (λ _. value high)

-- `#search` from the horizon on, past the answer that the horizon lacks code.
unfoldable pub narrow : Archive → String → ℕ → ℕ → ContractOrigin
unfolding bisect below_wf
narrow archive address low high =
    elim (bisect (archive.has_code address) low high (high - low) (omega arith)
      (below_wf.apply (high - low))) [
        | rejected e ↦ indeterminate e
        | value first ↦ elim (archive.block_at first) [
          | rejected e ↦ indeterminate e
          | value block ↦ deployed first block.timestamp
        ]
      ]

unfoldable pub from_horizon : Archive → String → Block → Settled Block → ContractOrigin
unfolding narrow
from_horizon archive address head (rejected e) = indeterminate e
from_horizon archive address head (value start) = elim (archive.has_code address start.number) [
  | rejected e ↦ indeterminate e
  | value true ↦ older_than start.number start.timestamp
  | value false ↦ narrow archive address start.number head.number
]

-- #search
unfoldable pub search : Archive → ℕ → String → ContractOrigin
unfolding from_horizon horizon
search archive seconds address = elim archive.latest [
  | rejected e ↦ indeterminate e
  | value head ↦ elim (archive.has_code address head.number) [
    | rejected e ↦ indeterminate e
    | value false ↦ indeterminate "no code at chain head"
    | value true ↦ from_horizon archive address head (horizon archive seconds head)
  ]
]

abbrev pub is_indeterminate : ContractOrigin → Bool
is_indeterminate (indeterminate reason) = true
is_indeterminate _ = false

abbrev pub Cache : Type 0
Cache = LruMap String ContractOrigin

-- originOf
unfoldable pub origin_of : Archive → ℕ → String → Cache → ContractOrigin × Cache
unfolding search lru_get lru_set lower
origin_of archive seconds address cache =
    let (cached, cache') = lru_get (lower address) cache in
    elim cached [
      | some origin ↦ (origin, cache')
      | none ↦
          let origin = search archive seconds address in
          (
            origin,
            if is_indeterminate origin then cache' else lru_set (lower address) origin cache',
          )
    ]
