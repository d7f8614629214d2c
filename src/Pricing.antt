-- ===== src/Pricing.antt =====
-- packages/service/src/pricing.ts: what a verdict costs. Amounts are tinybars. The count of
-- deployments, which the service makes over the network, is a value or a failure that comes later.
pub mod Totals
mod Tests
pub mod Memo
use presign.Prelude.{
  ℕ, ◌+◌, ◌-◌, ◌*◌, ◌/◌, ◌%◌, min, String, Bool, true, false, Option, none, some, List, [], ◌∷◌,
  ◌++◌, map, ltb, if◌then◌else◌, ◌==◌, string_eq, includes, filter, not, is_empty, decimal,
  zeros_before, strip_zeros, eqb, lower,
}
use presign.Types.{UnsignedTransaction, Settled, value, rejected}
use presign.LruMap.{LruMap, lru_get, lru_set}
use Prim.Native.String

abbrev pub rule_ids : List String
rule_ids = "R1" ∷ "R2" ∷ "R3" ∷ "R4" ∷ []

abbrev pub tinybars_per_hbar : ℕ
tinybars_per_hbar = 100000000

abbrev pub base_tinybars : ℕ
base_tinybars = 100000

abbrev pub indexed_data_tinybars : ℕ
indexed_data_tinybars = 400000

abbrev pub per_deployment_tinybars : ℕ
per_deployment_tinybars = 100000

-- MAX_INVARIANT_CANDIDATES of verdict-engine's rules/r3-invariant-breach.ts
abbrev pub max_priced_deployments : ℕ
max_priced_deployments = 8

pub record Item : Type 0 where
  pub item : String
  pub tinybars : ℕ

pub record Quote : Type 0 where
  pub rules : List String
  pub tinybars : ℕ
  pub hbar : String
  pub breakdown : List Item
  -- of a metered quote; none where the deployments could not be counted
  pub deployments : Option ℕ

infixr 60 ◌⧺◌
abbrev ◌⧺◌ : String → String → String
s ⧺ t = String.◌++◌ s t

-- formatHbar
unfoldable pub format_hbar : ℕ → String
unfolding decimal zeros_before strip_zeros
format_hbar tinybars =
    let digits = decimal (tinybars % tinybars_per_hbar) in
    let fraction = strip_zeros (zeros_before (8 - String.count digits) digits) in
    if fraction == ""
    then decimal (tinybars / tinybars_per_hbar)
    else decimal (tinybars / tinybars_per_hbar) ⧺ "." ⧺ fraction

-- `parseRules`, from the requested names on: split at commas, trimmed, in capitals and not empty.
-- The error names the unknown rules.
unfoldable pub select_rules : List String → Settled (List String)
select_rules requested =
    let unknown = filter (λ r. not (includes r rule_ids)) requested in
    if is_empty unknown
    then value (filter (λ r. includes r requested) rule_ids)
    else rejected "unknown rule(s)"

unfoldable pub quote : List String → Quote
unfolding format_hbar
quote rules =
    let base : Item = record { item = "simulation and local rules"; tinybars = base_tinybars } in
    let indexed : Item = record {
      item = "indexed protocol data (R3)";
      tinybars = indexed_data_tinybars;
    } in
    if includes "R3" rules
    then record {
      rules = rules;
      tinybars = base_tinybars + indexed_data_tinybars;
      hbar = format_hbar (base_tinybars + indexed_data_tinybars);
      breakdown = base ∷ indexed ∷ [];
      deployments = none;
    }
    else record {
      rules = rules;
      tinybars = base_tinybars;
      hbar = format_hbar base_tinybars;
      breakdown = base ∷ [];
      deployments = none;
    }

unfoldable pub priced : Option ℕ → ℕ
priced none = max_priced_deployments
priced (some n) = min n max_priced_deployments

unfoldable pub indexed_item : Option ℕ → String
unfolding decimal format_hbar priced
indexed_item none =
    "indexed data (R3): deployments could not be counted, priced at the "
    ⧺ decimal max_priced_deployments
    ⧺ "-deployment ceiling"
indexed_item (some n) =
    "indexed data (R3): "
    ⧺ decimal (priced (some n))
    ⧺ " deployment"
    ⧺ (if eqb (priced (some n)) 1 then "" else "s")
    ⧺ (if ltb max_priced_deployments n then " of " ⧺ decimal n ⧺ ", capped" else "")
    ⧺ " at "
    ⧺ format_hbar per_deployment_tinybars
    ⧺ " HBAR each"

-- meteredQuote
unfoldable pub metered_quote : Option ℕ → Quote
unfolding priced indexed_item format_hbar
metered_quote deployments =
    let indexed = per_deployment_tinybars * priced deployments in
    record {
      rules = rule_ids;
      tinybars = base_tinybars + indexed;
      hbar = format_hbar (base_tinybars + indexed);
      breakdown =
          record { item = "simulation, R1, R2 and R4"; tinybars = base_tinybars }
          ∷ record { item = indexed_item deployments; tinybars = indexed }
          ∷ [];
      deployments = deployments;
    }

pub record Held : Type 0 where
  pub quote : Quote
  pub expires : ℕ

-- The closure of `createMeter`. Times are in milliseconds.
pub record Meter : Type 0 where
  pub ttl : ℕ
  pub failure_ttl : ℕ
  pub cache : LruMap String Held
  -- the keys whose count is on its way
  pub inflight : List String

unfoldable pub key_of : UnsignedTransaction → String
unfolding lower decimal
key_of tx = decimal tx.chain_id ⧺ ":" ⧺ lower (elim tx.to [ none ↦ "create" | some a ↦ a ])

unfoldable pub fresh : ℕ → Option Held → Option Quote
fresh now none = none
fresh now (some hit) = if ltb now hit.expires then some hit.quote else none

-- `held`, which also marks the entry as used
unfoldable pub held : String → ℕ → Meter → Option Quote × Meter
unfolding fresh lru_get
held key now m =
    let (hit, cache) = lru_get key m.cache in (fresh now hit, record m { cache = cache })

-- What a call of `quote` does at once.
pub data Ask : Type 0 where
  answer : Quote → Ask
  -- a count was on its way already
  join : Ask
  start_count : Ask

-- `quote`
unfoldable pub ask : String → ℕ → Meter → Ask × Meter
unfolding held
ask key now m =
    let (hit, m') = held key now m in
    elim hit [
      | some q ↦ (answer q, m')
      | none ↦
          if includes key m'.inflight
          then (join, m')
          else (start_count, record m' { inflight = key ∷ m'.inflight })
    ]

-- What the two continuations of `count` make of its end: a failed count is priced at the ceiling,
-- and its price is held a shorter time.
abbrev pub price_of : Settled ℕ → Quote
price_of (value n) = metered_quote (some n)
price_of (rejected e) = metered_quote none

abbrev pub hold_of : Meter → Settled ℕ → ℕ
hold_of m (value n) = m.ttl
hold_of m (rejected e) = m.failure_ttl

-- The continuation that follows both: the price is remembered, and the count is no longer on its way.
unfoldable pub counted : String → Settled ℕ → ℕ → Meter → Quote × Meter
unfolding lru_set
counted key count now m = (
  price_of count,
  record m {
    cache =
        lru_set key (record { quote = price_of count; expires = now + hold_of m count }) m.cache;
    inflight = filter (λ k. not (k == key)) m.inflight;
  },
)
