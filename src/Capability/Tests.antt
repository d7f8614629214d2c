-- ===== src/Capability/Tests.antt =====
-- A cache with two measurements of the same requirement, ten seconds of lag accepted.
use presign.Prelude.{
  ℕ, ◌≡◌, refl, String, false, ◌&&◌, none, some, [], ◌∷◌, any, not, eqb, string_eq,
}
use presign.JsMap.{get}
use presign.Capability.{
  lending_cdp, DeploymentRecord, RuleRequirement, CacheEntry, CapabilityIndex, satisfied, resolve,
  cache_key,
}
use presign.Capability.Resolve.{can_serve, is_satisfied, resolve_satisfied}

abbrev requirement : RuleRequirement
requirement = record {
  rule_id = "R3";
  schema_family = lending_cdp;
  root_field = "markets";
  required_fields = "id" ∷ [];
  max_lag_seconds = 10;
}

-- A deployment measured at second one, with a lag.
abbrev measured : String → ℕ → DeploymentRecord
measured id lag = record {
  candidate = record {
    deployment_id = id;
    subgraph_id = id;
    display_name = id;
    network = "mainnet";
    schema_family = some lending_cdp;
    protocol = none;
    contract_addresses = [];
    reliability = "1";
    query_url = "";
    query_url_x402 = none;
  };
  conformance = record {
    deployment_id = id;
    answers_fields = "id" ∷ [];
    missing_fields = [];
    checked_at = 1000;
  };
  liveness = record {
    deployment_id = id;
    indexed_block = 90;
    indexed_block_timestamp = 1;
    head_block = 91;
    blocks_behind = 1;
    lag_seconds = lag;
    has_indexing_errors = false;
    checked_at = 1000;
  };
}

abbrev cached : CacheEntry
cached = record {
  records = measured "slow" 4 ∷ measured "quick" 2 ∷ measured "late" 20 ∷ [];
  candidate_count = 3;
  warmed_at = 1000;
}

abbrev index : CapabilityIndex
index = record { max_candidates = 8; cache = ("R3:lending-cdp:mainnet", cached) ∷ [] }

cached_there : get (cache_key "R3" lending_cdp "mainnet") index.cache ≡ some cached
unfolding get cache_key
cached_there = refl

ranked :
    resolve requirement "mainnet" 3000 index
    ≡ satisfied (measured "quick" 2 ∷ measured "slow" 4 ∷ [])
unfolding resolve
ranked = refl

resolve_satisfied_example :
    is_satisfied (resolve requirement "mainnet" 3000 index)
    ≡ (not (eqb cached.candidate_count 0) && any (can_serve requirement 3000) cached.records)
resolve_satisfied_example = resolve_satisfied requirement "mainnet" 3000 index cached cached_there
