-- ===== src/Capability/Resolve.antt =====
-- When a rule can be served, by which records, and for how long.
use mathlib.Core.List.{Perm}
use presign.Prelude.{
  ℕ, ◌+◌, ◌-◌, ◌*◌, leb, ◌≤◌, String, ◌≡◌, refl, sym, ap, ◌∙◌, Bool, true, false, ◌&&◌, some, List,
  [], ◌∷◌, arith, filter, any, is_empty, not, eqb, string_eq, Bool-cases, Option-cases, inl, inr,
}
use presign.JsMap.{get}
use presign.Capability.{
  DeploymentRecord, RuleRequirement, CapabilityResolution, CapabilityIndex, CacheEntry, satisfied,
  unsatisfied, conforms, is_healthy, is_fresh, effective_lag, sort, resolve_entry, resolve,
  cache_key,
}
use presign.Capability.Sorted.{IsSorted, sort-IsSorted, sort-perm}

-- A record that can serve the rule now: it answers every field, has no indexing errors, and its lag,
-- with the age of the measurement, is accepted.
abbrev pub can_serve : RuleRequirement → ℕ → DeploymentRecord → Bool
can_serve q now r =
    is_empty r.conformance.missing_fields
    && (not r.liveness.has_indexing_errors
        && leb (r.liveness.lag_seconds * 1000 + (now - r.liveness.checked_at))
            (q.max_lag_seconds * 1000))

abbrev pub is_satisfied : CapabilityResolution → Bool
is_satisfied (satisfied rs) = true
is_satisfied (unsatisfied reason rs) = false

-- The three filters, one after another, keep what passes the three tests.
filters :
    (q : RuleRequirement) (now : ℕ) (rs : List DeploymentRecord)
    → filter (is_fresh q now) (filter is_healthy (filter conforms rs)) ≡ filter (can_serve q now) rs
unfolding effective_lag
filters q now [] = refl
filters q now (r ∷ rs) = elim (Bool-cases (conforms r)) [
  | inl c ↦ elim (Bool-cases (is_healthy r)) [
    | inl h ↦ elim (Bool-cases (is_fresh q now r)) [
      | inl f ↦ rw (c, h, f) (ap (◌∷◌ r) (filters q now rs))
      | inr f ↦ rw (c, h, f) (filters q now rs)
    ]
    | inr h ↦ rw (c, h) (filters q now rs)
  ]
  | inr c ↦ rw c (filters q now rs)
]

any-filter :
    (p : DeploymentRecord → Bool) (rs : List DeploymentRecord)
    → not (is_empty (filter p rs)) ≡ any p rs
any-filter p [] = refl
any-filter p (r ∷ rs) = ground (arith, any-filter p rs)

empty_filter :
    (p : DeploymentRecord → Bool) (rs : List DeploymentRecord)
    → is_empty rs ≡ true
    → is_empty (filter p rs) ≡ true
empty_filter p [] h = refl
empty_filter p (r ∷ rs) h = absurd (cc h)

resolve_entry-satisfied :
    (q : RuleRequirement) (now : ℕ) (entry : CacheEntry)
    → is_satisfied (resolve_entry q now entry)
      ≡ (not (eqb entry.candidate_count 0) && any (can_serve q now) entry.records)
unfolding resolve_entry
resolve_entry-satisfied q now entry = ground (
  arith,
  any-filter (can_serve q now) entry.records,
  filters q now entry.records,
  empty_filter is_healthy (filter conforms entry.records),
  empty_filter (is_fresh q now) (filter is_healthy (filter conforms entry.records)),
)

abbrev satisfied_records : CapabilityResolution → List DeploymentRecord
satisfied_records (satisfied rs) = rs
satisfied_records (unsatisfied reason rs) = []

resolve_entry-records :
    (q : RuleRequirement) (now : ℕ) (entry : CacheEntry)
    → is_satisfied (resolve_entry q now entry) ≡ true
    → satisfied_records (resolve_entry q now entry)
      ≡ sort now (filter (can_serve q now) entry.records)
unfolding resolve_entry
resolve_entry-records q now entry h = elim (Bool-cases (eqb entry.candidate_count 0)) [
  | inl none_found ↦ absurd (cc (none_found, h))
  | inr some_found ↦ elim (Bool-cases (is_empty (filter conforms entry.records))) [
    | inl c ↦ absurd (cc (some_found, c, h))
    | inr c ↦ elim (Bool-cases (is_empty (filter is_healthy (filter conforms entry.records)))) [
      | inl l ↦ absurd (cc (some_found, c, l, h))
      | inr l ↦
          elim (Bool-cases (
            is_empty
              (filter (is_fresh q now) (filter is_healthy (filter conforms entry.records))))) [
                | inl f ↦ absurd (cc (some_found, c, l, f, h))
                | inr f ↦ rw (some_found, c, l, f) (ap (sort now) (filters q now entry.records))
              ]
    ]
  ]
]

-- A rule whose requirement is in the cache is satisfied exactly when the warm-up found a candidate and
-- some probed record conforms, is healthy and is within the lag that the rule accepts, the age of the
-- measurement included.
pub resolve_satisfied :
    (q : RuleRequirement) (network : String) (now : ℕ) (index : CapabilityIndex)
    (entry : CacheEntry)
    → get (cache_key q.rule_id q.schema_family network) index.cache ≡ some entry
    → is_satisfied (resolve q network now index)
      ≡ (not (eqb entry.candidate_count 0) && any (can_serve q now) entry.records)
unfolding resolve
resolve_satisfied q network now index entry h =
    rw (resolve, h) (resolve_entry-satisfied q now entry)

-- The records of a satisfied resolution are the records of the cache that conform, are healthy and are
-- within the accepted lag, each as often as the cache holds it, in the order that `resolve` promises:
-- freshest first and, among equals, the widest coverage first.
pub resolve_ranked :
    (q : RuleRequirement) (network : String) (now : ℕ) (index : CapabilityIndex)
    (entry : CacheEntry)
    → get (cache_key q.rule_id q.schema_family network) index.cache ≡ some entry
    → (rs : List DeploymentRecord) → resolve q network now index ≡ satisfied rs
    → Perm rs (filter (can_serve q now) entry.records) × IsSorted now rs
unfolding resolve
resolve_ranked q network now index entry h rs s =
    let at_entry : resolve_entry q now entry ≡ satisfied rs = sym (rw (resolve, h) refl) ∙ s in
    let sorted : rs ≡ sort now (filter (can_serve q now) entry.records) =
      ap satisfied_records (sym at_entry)
      ∙ resolve_entry-records q now entry (ap is_satisfied at_entry) in
    rw sorted (
      sort-perm now (filter (can_serve q now) entry.records),
      sort-IsSorted now (filter (can_serve q now) entry.records),
    )

can_serve_earlier :
    (q : RuleRequirement) (t u : ℕ) (r : DeploymentRecord)
    → t ≤ u
    → can_serve q u r ≡ true
    → can_serve q t r ≡ true
unfolding effective_lag
can_serve_earlier q t u r le h = ground arith

any_earlier :
    (q : RuleRequirement) (t u : ℕ) (rs : List DeploymentRecord)
    → t ≤ u
    → any (can_serve q u) rs ≡ true
    → any (can_serve q t) rs ≡ true
any_earlier q t u [] le h = h
any_earlier q t u (r ∷ rs) le h =
    ground (arith, can_serve_earlier q t u r le, any_earlier q t u rs le)

-- A cache never gets fresher by waiting: a rule that can be served from it at a time could be served
-- from it at every earlier time.
pub resolve_only_ages :
    (q : RuleRequirement) (network : String) (index : CapabilityIndex) (t u : ℕ)
    → t ≤ u
    → is_satisfied (resolve q network u index) ≡ true
    → is_satisfied (resolve q network t index) ≡ true
unfolding resolve
resolve_only_ages q network index t u le h =
    elim (Option-cases (get (cache_key q.rule_id q.schema_family network) index.cache)) [
      | inl missing ↦ absurd (cc (missing, h))
      | inr (entry, found) ↦
          let served = sym (resolve_satisfied q network u index entry found) ∙ h in
          resolve_satisfied q network t index entry found
          ∙ ground (arith, served, any_earlier q t u entry.records le)
    ]
