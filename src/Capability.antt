-- ===== src/Capability.antt =====
-- packages/operational-layer/src/types.ts and src/capability/index.ts: which deployments can serve a
-- rule now. Discovery and the two probes are the fields of `World`; lags are in milliseconds.
pub mod Resolve
mod Tests
pub mod Sorted
use presign.Prelude.{
  ℕ, ◌+◌, ◌-◌, ◌*◌, String, Bool, true, false, ◌&&◌, Option, none, some, List, [], ◌∷◌, ltb, leb,
  if◌then◌else◌, ◌==◌, string_eq, filter, take, length, is_empty, not, eqb,
}
use presign.Types.{Settled, value, rejected}
use presign.JsMap.{get, put}
use Prim.Native.String

pub data SchemaFamily : Type 0 where
  lending_cdp dex_amm yield_vault staking perpetuals : SchemaFamily

abbrev pub family_text : SchemaFamily → String
family_text lending_cdp = "lending-cdp"
family_text dex_amm = "dex-amm"
family_text yield_vault = "yield-vault"
family_text staking = "staking"
family_text perpetuals = "perpetuals"

-- The reliability score is informational; it is kept as the text of the number.
pub record DeploymentCandidate : Type 0 where
  pub deployment_id : String
  pub subgraph_id : String
  pub display_name : String
  pub network : String
  pub schema_family : Option SchemaFamily
  pub protocol : Option String
  pub contract_addresses : List String
  pub reliability : String
  pub query_url : String
  pub query_url_x402 : Option String

pub record ConformanceReport : Type 0 where
  pub deployment_id : String
  pub answers_fields : List String
  pub missing_fields : List String
  pub checked_at : ℕ

pub record LivenessReport : Type 0 where
  pub deployment_id : String
  pub indexed_block : ℕ
  pub indexed_block_timestamp : ℕ
  pub head_block : ℕ
  pub blocks_behind : ℕ
  -- in seconds, as measured
  pub lag_seconds : ℕ
  pub has_indexing_errors : Bool
  -- in milliseconds
  pub checked_at : ℕ

pub record DeploymentRecord : Type 0 where
  pub candidate : DeploymentCandidate
  pub conformance : ConformanceReport
  pub liveness : LivenessReport

pub record RuleRequirement : Type 0 where
  pub rule_id : String
  pub schema_family : SchemaFamily
  pub root_field : String
  pub required_fields : List String
  pub max_lag_seconds : ℕ

pub data UnavailabilityReason : Type 0 where
  not_warmed no_candidates no_conforming_deployment all_candidates_stale all_candidates_erroring :
      UnavailabilityReason

pub data CapabilityResolution : Type 0 where
  satisfied : List DeploymentRecord → CapabilityResolution
  unsatisfied : UnavailabilityReason → List DeploymentRecord → CapabilityResolution

pub record CacheEntry : Type 0 where
  pub records : List DeploymentRecord
  pub candidate_count : ℕ
  pub warmed_at : ℕ

-- The class `CapabilityIndex`, less what it calls.
pub record CapabilityIndex : Type 0 where
  pub max_candidates : ℕ
  pub cache : List (String × CacheEntry)

-- What the index calls. `Promise.all` over the workers keeps the order of the candidates.
pub record World : Type 0 where
  pub find_candidates : SchemaFamily → String → ℕ → Settled (List DeploymentCandidate)
  pub check_conformance : String → String → List String → Settled ConformanceReport
  pub check_liveness : String → String → Settled LivenessReport

-- effectiveLagSeconds, in milliseconds: the measured lag and the age of the measurement.
unfoldable pub effective_lag : DeploymentRecord → ℕ → ℕ
effective_lag r now = r.liveness.lag_seconds * 1000 + (now - r.liveness.checked_at)

infixr 60 ◌⧺◌
abbrev ◌⧺◌ : String → String → String
s ⧺ t = String.◌++◌ s t

unfoldable pub cache_key : String → SchemaFamily → String → String
cache_key rule_id family network = rule_id ⧺ ":" ⧺ family_text family ⧺ ":" ⧺ network

abbrev pub conforms : DeploymentRecord → Bool
conforms r = is_empty r.conformance.missing_fields

abbrev pub is_healthy : DeploymentRecord → Bool
is_healthy r = not r.liveness.has_indexing_errors

abbrev pub is_fresh : RuleRequirement → ℕ → DeploymentRecord → Bool
is_fresh q now r = leb (effective_lag r now) (q.max_lag_seconds * 1000)

-- The comparison that `sort` is given: whether `a` may stand before `b`.
unfoldable pub before : ℕ → DeploymentRecord → DeploymentRecord → Bool
unfolding effective_lag
before now a b =
    if eqb (effective_lag a now) (effective_lag b now)
    then leb (length b.conformance.answers_fields) (length a.conformance.answers_fields)
    else ltb (effective_lag a now) (effective_lag b now)

-- `Array.prototype.sort` is stable: each record goes before those that it may precede.
unfoldable pub insert : ℕ → DeploymentRecord → List DeploymentRecord → List DeploymentRecord
unfolding before
insert now r [] = r ∷ []
insert now r (x ∷ xs) = if before now r x then r ∷ x ∷ xs else x ∷ insert now r xs

unfoldable pub sort : ℕ → List DeploymentRecord → List DeploymentRecord
unfolding insert
sort now [] = []
sort now (r ∷ rs) = insert now r (sort now rs)

-- `resolve` past the look in the cache.
unfoldable pub resolve_entry : RuleRequirement → ℕ → CacheEntry → CapabilityResolution
unfolding effective_lag sort
resolve_entry q now entry =
    let conforming = filter conforms entry.records in
    let healthy = filter is_healthy conforming in
    let fresh = filter (is_fresh q now) healthy in
    if eqb entry.candidate_count 0
    then unsatisfied no_candidates []
    else if is_empty conforming
    then unsatisfied no_conforming_deployment entry.records
    else if is_empty healthy
    then unsatisfied all_candidates_erroring conforming
    else if is_empty fresh
    then unsatisfied all_candidates_stale healthy
    else satisfied (sort now fresh)

unfoldable pub resolve : RuleRequirement → String → ℕ → CapabilityIndex → CapabilityResolution
unfolding get cache_key resolve_entry
resolve q network now index = elim (get (cache_key q.rule_id q.schema_family network) index.cache) [
  | none ↦ unsatisfied not_warmed []
  | some entry ↦ resolve_entry q now entry
]

unfoldable pub warmed_at : String → SchemaFamily → String → CapabilityIndex → Option ℕ
unfolding get cache_key
warmed_at rule_id family network index = elim (get (cache_key rule_id family network) index.cache) [
  | none ↦ none
  | some entry ↦ some entry.warmed_at
]

-- #probe: a candidate that cannot be probed gives no record.
unfoldable pub probe :
    World → RuleRequirement → String → DeploymentCandidate → Option DeploymentRecord
probe w q network c = elim (w.check_conformance c.deployment_id q.root_field q.required_fields) [
  | rejected e ↦ none
  | value conformance ↦ elim (w.check_liveness c.deployment_id network) [
    | rejected e ↦ none
    | value liveness ↦
        some (record { candidate = c; conformance = conformance; liveness = liveness })
  ]
]

unfoldable pub probe_all :
    World → RuleRequirement → String → List DeploymentCandidate → List DeploymentRecord
unfolding probe
probe_all w q network [] = []
probe_all w q network (c ∷ cs) = elim (probe w q network c) [
  | none ↦ probe_all w q network cs
  | some r ↦ r ∷ probe_all w q network cs
]

unfoldable pub warm :
    World
    → RuleRequirement
    → String
    → ℕ
    → CapabilityIndex
    → Settled (CapabilityResolution × CapabilityIndex)
unfolding probe_all resolve put
warm w q network now index = elim (w.find_candidates q.schema_family network index.max_candidates) [
  | rejected e ↦ rejected e
  | value discovered ↦
      let candidates = take index.max_candidates (filter (λ c. c.network == network) discovered) in
      let index' : CapabilityIndex = record index {
        cache =
            put (cache_key q.rule_id q.schema_family network)
              (record {
                records = probe_all w q network candidates;
                candidate_count = length candidates;
                warmed_at = now;
              })
              index.cache;
      } in
      value (resolve q network now index', index')
]
