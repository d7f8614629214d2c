-- ===== src/Context.antt =====
-- packages/verdict-engine/src/protocol/operational-context.ts: the two memos that the rules share.
-- What `discovery`, `conformance` and `liveness` answer are parameters, with the moments before and
-- after the answer in milliseconds. A call runs with no other between its read and its write.
pub mod Memos
mod Tests
use Prim.Native.String
use presign.Prelude.{
  ℕ, ◌+◌, ◌-◌, ◌*◌, String, Bool, true, false, Option, none, some, List, [], ◌∷◌, leb,
  if◌then◌else◌, string_eq, lower, text_of,
}
use presign.Types.{Settled, value, rejected}
use presign.LruMap.{LruMap, lru_get, lru_set}
use presign.Capability.{
  DeploymentCandidate, DeploymentRecord, ConformanceReport, LivenessReport, RuleRequirement,
  family_text,
}

-- ProbeOutcome
pub data ProbeOutcome : Type 0 where
  probed : DeploymentRecord → ProbeOutcome
  failed : String → ProbeOutcome

pub record CachedProbe : Type 0 where
  pub outcome : ProbeOutcome
  pub probed_at : ℕ

pub record CachedIndexing : Type 0 where
  pub candidates : List DeploymentCandidate
  pub found_at : ℕ

-- The state of an OperationalProtocolContext.
pub record ProtocolContext : Type 0 where
  pub probe_ttl_seconds : ℕ
  pub probes : LruMap String CachedProbe
  pub indexing : LruMap String CachedIndexing

-- `(now - moment) / 1000 <= ttl`
abbrev pub is_current : ℕ → ℕ → ℕ → Bool
is_current ttl now moment = leb (now - moment) (ttl * 1000)

unfoldable pub indexing_key : String → String → String
unfolding lower text_of
indexing_key address network = text_of (lower address ∷ ":" ∷ network ∷ [])

-- A remembered answer that is still current.
unfoldable pub current_indexing : ℕ → ℕ → Option CachedIndexing → Option (List DeploymentCandidate)
current_indexing ttl now none = none
current_indexing ttl now (some c) =
    if is_current ttl now c.found_at then some c.candidates else none

unfoldable pub current_probe : ℕ → ℕ → Option CachedProbe → Option ProbeOutcome
current_probe ttl now none = none
current_probe ttl now (some c) = if is_current ttl now c.probed_at then some c.outcome else none

-- findIndexingDeployments, on what `findByContract` answers
unfoldable pub find_indexing_deployments :
    String
    → String
    → ℕ
    → ℕ
    → Settled (List DeploymentCandidate)
    → ProtocolContext
    → Settled (List DeploymentCandidate) × ProtocolContext
unfolding lru_get lru_set indexing_key current_indexing
find_indexing_deployments address network now after answer c =
    let (cached, indexing) = lru_get (indexing_key address network) c.indexing in
    elim (current_indexing c.probe_ttl_seconds now cached) [
      | some candidates ↦ (value candidates, record c { indexing = indexing })
      | none ↦ elim answer [
        | rejected e ↦ (rejected e, record c { indexing = indexing })
        | value candidates ↦ (
          value candidates,
          record c {
            indexing =
                lru_set (indexing_key address network)
                  (record { candidates = candidates; found_at = after }) indexing;
          },
        )
      ]
    ]

unfoldable pub probe_key : DeploymentCandidate → RuleRequirement → String → String
unfolding text_of
probe_key candidate requirement network = text_of (
    candidate.deployment_id
    ∷ ":"
    ∷ requirement.rule_id
    ∷ ":"
    ∷ family_text requirement.schema_family
    ∷ ":"
    ∷ network
    ∷ [])

-- The `try` of probeDeployment; the error is that of the check which fails first here.
unfoldable pub outcome_of :
    DeploymentCandidate → Settled ConformanceReport → Settled LivenessReport → ProbeOutcome
outcome_of candidate (rejected e) liveness = failed e
outcome_of candidate (value conformance) (rejected e) = failed e
outcome_of candidate (value conformance) (value liveness) =
    probed (record { candidate = candidate; conformance = conformance; liveness = liveness })

-- Only a completed probe is remembered.
unfoldable pub remember :
    String → ProbeOutcome → ℕ → LruMap String CachedProbe → LruMap String CachedProbe
unfolding lru_set
remember key (failed reason) at probes = probes
remember key (probed r) at probes =
    lru_set key (record { outcome = probed r; probed_at = at }) probes

-- probeDeployment, on what the two checks answer
unfoldable pub probe_deployment :
    DeploymentCandidate
    → RuleRequirement
    → String
    → ℕ
    → ℕ
    → Settled ConformanceReport
    → Settled LivenessReport
    → ProtocolContext
    → ProbeOutcome × ProtocolContext
unfolding lru_get remember outcome_of probe_key current_probe
probe_deployment candidate requirement network now after conformance liveness c =
    let key = probe_key candidate requirement network in
    let (cached, probes) = lru_get key c.probes in
    elim (current_probe c.probe_ttl_seconds now cached) [
      | some outcome ↦ (outcome, record c { probes = probes })
      | none ↦
          let outcome = outcome_of candidate conformance liveness in
          (outcome, record c { probes = remember key outcome after probes })
    ]
