-- ===== src/Context/Memos.antt =====
-- What the memo of probes remembers, and when a probe is reported as failed.
use presign.Prelude.{
  ℕ, String, ◌≡◌, ◌⊎◌, refl, sym, ◌∙◌, Bool, true, false, Option, none, some, Bool-cases,
  Option-cases, inl, inr, string_eq,
}
use presign.Types.{Settled, value, rejected}
use presign.JsMap.{get}
use presign.LruMap.{LruMap, lru_get}
use presign.LruMap.Laws.{IsBounded, lru_get-IsBounded, lru_set-IsBounded}
use presign.LruMap.Reads.{AllValues, lru_get-AllValues, lru_set-AllValues}
use presign.Capability.{DeploymentCandidate, ConformanceReport, LivenessReport, RuleRequirement}
use presign.Context.{
  ProbeOutcome, probed, failed, CachedProbe, ProtocolContext, is_current, probe_key, current_probe,
  outcome_of, remember, probe_deployment,
}

abbrev pub is_probed : ProbeOutcome → Bool
is_probed (probed r) = true
is_probed (failed reason) = false

-- The memo is a bounded map, and every probe in it was completed.
abbrev pub IsRemembered : LruMap String CachedProbe → Type 0
IsRemembered probes =
    IsBounded probes × AllValues (λ (p : CachedProbe). is_probed p.outcome ≡ true) probes

lru_get_value : (k : String) (m : LruMap String CachedProbe) → (lru_get k m).0 ≡ get k m.entries
unfolding lru_get
lru_get_value k m = elim (Option-cases (get k m.entries)) [
  | inl missing ↦ rw (missing, lru_get) refl
  | inr (v, found) ↦ rw (found, lru_get) refl
]

remember-IsRemembered :
    (key : String) (outcome : ProbeOutcome) (at : ℕ) (probes : LruMap String CachedProbe)
    → IsRemembered probes
    → IsRemembered (remember key outcome at probes)
unfolding remember
remember-IsRemembered key (failed reason) at probes h = h
remember-IsRemembered key (probed r) at probes h = (
  lru_set-IsBounded key (record { outcome = probed r; probed_at = at }) probes h.0,
  lru_set-AllValues (λ (p : CachedProbe). is_probed p.outcome ≡ true) key
      (record { outcome = probed r; probed_at = at }) probes h.0 refl h.1,
)

-- The two checks of a probe failed, with this reason.
abbrev pub HasFailed : Settled ConformanceReport → Settled LivenessReport → String → Type 0
HasFailed conformance liveness reason =
    (conformance ≡ rejected reason) ⊎ (liveness ≡ rejected reason)

outcome_of_failed :
    (candidate : DeploymentCandidate) (conformance : Settled ConformanceReport)
    (liveness : Settled LivenessReport) (reason : String)
    → outcome_of candidate conformance liveness ≡ failed reason
    → HasFailed conformance liveness reason
unfolding outcome_of
outcome_of_failed candidate (rejected e) liveness reason h = inl (cc h)
outcome_of_failed candidate (value c) (rejected e) reason h = inr (cc h)
outcome_of_failed candidate (value c) (value l) reason h = absurd (cc h)

current_probe-probed :
    (ttl now : ℕ) (cached : Option CachedProbe) (outcome : ProbeOutcome)
    → current_probe ttl now cached ≡ some outcome
    → (p : CachedProbe) × (cached ≡ some p) × (p.outcome ≡ outcome)
unfolding current_probe
current_probe-probed ttl now none outcome h = absurd (cc h)
current_probe-probed ttl now (some p) outcome h =
    elim (Bool-cases (is_current ttl now p.probed_at)) [
      | inl young ↦ (p, refl, cc (rw young at h))
      | inr old ↦ absurd (cc (rw old at h))
    ]

completed :
    {reason : String} (p : CachedProbe) → p.outcome ≡ failed reason → is_probed p.outcome ≡ true → ⊥
completed p e done = cc (rw e at done)

module _ (candidate : DeploymentCandidate) (requirement : RuleRequirement) (network : String)
    (now after : ℕ) (conformance : Settled ConformanceReport) (liveness : Settled LivenessReport)
    (c : ProtocolContext) (h : IsRemembered c.probes) where
  -- Whatever the checks answer, the memo stays within its bound and holds completed probes alone.
  pub probe_deployment-IsRemembered :
      IsRemembered
        (probe_deployment candidate requirement network now after conformance liveness c).1.probes
  unfolding probe_deployment
  probe_deployment-IsRemembered =
      let key = probe_key candidate requirement network in
      let read : IsRemembered (lru_get key c.probes).1 = (
        lru_get-IsBounded key c.probes h.0,
        lru_get-AllValues (λ (p : CachedProbe). is_probed p.outcome ≡ true) key c.probes h.1,
      ) in
      elim (Option-cases (current_probe c.probe_ttl_seconds now (lru_get key c.probes).0)) [
        | inl missing ↦
            rw (missing, probe_deployment)
              (remember-IsRemembered key (outcome_of candidate conformance liveness) after _ read)
        | inr (outcome, found) ↦ rw (found, probe_deployment) read
      ]

  -- On a memo that holds completed probes alone, a probe that is reported as failed is one whose checks
  -- failed at this call, with their reason: a failure is never answered from the memo.
  pub probe_deployment_failed :
      (reason : String)
      → (probe_deployment candidate requirement network now after conformance liveness c).0
        ≡ failed reason
      → HasFailed conformance liveness reason
  unfolding probe_deployment
  probe_deployment_failed reason e =
      let key = probe_key candidate requirement network in
      elim (Option-cases (current_probe c.probe_ttl_seconds now (lru_get key c.probes).0)) [
        | inl missing ↦
            outcome_of_failed candidate conformance liveness reason
              (rw (missing, probe_deployment) at e)
        | inr (outcome, found) ↦
            let (p, there, same) = current_probe-probed c.probe_ttl_seconds now _ outcome found in
            let done = h.1 key p (sym (lru_get_value key c.probes) ∙ there) in
            absurd (completed p (same ∙ (rw (found, probe_deployment) at e)) done)
      ]
