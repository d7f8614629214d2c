-- ===== src/Context/Tests.antt =====
-- A probe whose liveness check fails, on an empty memo.
use presign.Prelude.{◌≡◌, refl, [], none, arith}
use presign.Types.{value, rejected}
use presign.LruMap.{lru_get}
use presign.JsMap.{get}
use presign.Capability.{ConformanceReport, RuleRequirement, lending_cdp}
use presign.Context.{ProtocolContext, failed, probe_deployment, current_probe, outcome_of}
use presign.Context.Memos.{IsRemembered, probe_deployment-IsRemembered}
use presign.Capability.{DeploymentCandidate}

abbrev candidate : DeploymentCandidate
candidate = record {
  deployment_id = "Qm1";
  subgraph_id = "s";
  display_name = "n";
  network = "mainnet";
  schema_family = none;
  protocol = none;
  contract_addresses = [];
  reliability = "1";
  query_url = "u";
  query_url_x402 = none;
}

abbrev requirement : RuleRequirement
requirement = record {
  rule_id = "R3";
  schema_family = lending_cdp;
  root_field = "markets";
  required_fields = [];
  max_lag_seconds = 60;
}

abbrev conforming : ConformanceReport
conforming = record {
  deployment_id = "Qm1";
  answers_fields = [];
  missing_fields = [];
  checked_at = 0;
}

abbrev empty : ProtocolContext
empty = record {
  probe_ttl_seconds = 10;
  probes = record { entries = []; max_entries = 2048 };
  indexing = record { entries = []; max_entries = 2048 };
}

nothing-IsRemembered : IsRemembered empty.probes
unfolding get
nothing-IsRemembered =
    (record { room = omega arith; within = omega arith; distinct = tt }, λ k v h. absurd (cc h))

probe_deployment-IsRemembered_example :
    IsRemembered
      (probe_deployment candidate requirement "mainnet" 5 6
        (value conforming)
        (rejected "timeout")
        empty).1.probes
probe_deployment-IsRemembered_example =
    probe_deployment-IsRemembered candidate requirement "mainnet" 5 6 (value conforming)
      (rejected "timeout") empty nothing-IsRemembered

failed_probe :
    (probe_deployment candidate requirement "mainnet" 5 6
      (value conforming)
      (rejected "timeout")
      empty).0
    ≡ failed "timeout"
unfolding probe_deployment lru_get get current_probe outcome_of
failed_probe = refl
