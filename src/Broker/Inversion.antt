-- ===== src/Broker/Inversion.antt =====
-- What the last stages of the broker did where a signature came out of them.
use presign.Prelude.{
  ℕ, ◌+◌, String, ◌≡◌, refl, sym, ap, ◌∙◌, ◌≢◌, true, false, some, List, [], ◌∷◌, arith, ◌==◌,
  string_eq, Bool-cases, inl, inr, Option-cases, lower,
}
use presign.Types.{Settled, value, rejected, Settled-cases}
use presign.Broker.{
  Broker, Signable, Signature, Approver, Answer, approved, not_approved, Decision, Outcome, Run,
  asked_device, Reason, signed, signed_after_human_approval, record_call, sign_with_key,
  check_approval, read_answer, escalate, by_tier, effective_tier, approval_of,
}

module _ (b : Broker) where
  sign_with_key-inv :
      (u : Signable) (e : ℕ) (d : String → Decision) (x : Decision) (s s' : Run)
      → sign_with_key b u e d s ≡ (value x, s')
      → (raw : String) × (b.sign_transaction u ≡ value raw) × (d raw ≡ x) × (s'.spent ≡ s.spent + e)
  unfolding sign_with_key
  sign_with_key-inv u e d x s s' h = elim (Settled-cases (b.sign_transaction u)) [
    | inl (m, no') ↦ absurd (cc (rw (no', sign_with_key) at h))
    | inr (raw, yes') ↦
        let k = rw (yes', sign_with_key) at h in
        (raw, yes', cc k, sym (ap (λ (o : Outcome). o.1.spent) k))
  ]

  -- `escalate` never answers with an automatic signature.
  check_approval-ne-signed :
      (a : Approver) (u v : Signable) (g : Signature) (e : ℕ) (s s' : Run) (raw : String)
      → check_approval b a u v g e s ≢ (value (signed raw), s')
  unfolding check_approval sign_with_key
  check_approval-ne-signed a u v g e s s' raw h = ground arith

  read_answer-ne-signed :
      (a : Approver) (u : Signable) (e : ℕ) (s : Run) (x : Settled Answer) (s' : Run) (raw : String)
      → read_answer b a u e s x ≢ (value (signed raw), s')
  unfolding read_answer
  read_answer-ne-signed a u e s (rejected m) s' raw h = cc
  read_answer-ne-signed a u e s (value (not_approved r d)) s' raw h = ground arith
  read_answer-ne-signed a u e s (value (approved g true)) s' raw h =
      check_approval-ne-signed a u (approval_of u) g e s s' raw h
  read_answer-ne-signed a u e s (value (approved g false)) s' raw h = cc

  escalate-ne-signed :
      (u : Signable) (rs : List Reason) (e : ℕ) (s s' : Run) (raw : String)
      → escalate b u rs e s ≢ (value (signed raw), s')
  unfolding escalate
  escalate-ne-signed u rs e s s' raw h = elim (Option-cases b.approver) [
    | inl missing ↦ cc (rw (missing, escalate) at h)
    | inr (a, there) ↦
        read_answer-ne-signed a u e (record_call asked_device s) (a.request (approval_of u)) s' raw
          (rw (there, escalate) at h)
  ]

  pub by_tier-signed :
      (u : Signable) (tier : String) (rs : List Reason) (e : ℕ) (s s' : Run) (raw : String)
      → by_tier b u tier rs e s ≡ (value (signed raw), s')
      → (tier ≡ "low") × (b.sign_transaction u ≡ value raw) × (s'.spent ≡ s.spent + e)
  unfolding by_tier
  by_tier-signed u tier rs e s s' raw h = elim (Bool-cases (tier == "low")) [
    | inl is_low ↦
        let (r, key, same, charged) =
          sign_with_key-inv u e signed (signed raw) s s' (rw (is_low, by_tier) at h) in
        let same' : r ≡ raw = cc in
        ((string_eq.equals_iff tier "low").0 is_low, key ∙ ap value same', charged)
    | inr other ↦ elim (Bool-cases (tier == "medium")) [
      | inl is_medium ↦
          absurd (escalate-ne-signed u rs e s s' raw (rw (other, is_medium, by_tier) at h))
      | inr none_of_them ↦ absurd (ground arith)
    ]
  ]

  pub effective_low :
      (tier : String) (rs : List Reason)
      → effective_tier tier rs ≡ "low"
      → (tier ≡ "low") × (rs ≡ [])
  unfolding effective_tier
  effective_low tier [] h = ground (arith)
  effective_low tier (r ∷ rs) h =
      absurd (ground (arith, string_eq.equals_iff tier "low", string_eq.equals_iff "medium" "low"))

  check_approval-inv :
      (a : Approver) (u v : Signable) (g : Signature) (e : ℕ) (s s' : Run) (raw : String)
      → check_approval b a u v g e s ≡ (value (signed_after_human_approval raw), s')
      → (from : String) × (b.recover v g ≡ value from)
        × (lower from ≡ lower a.address)
        × (b.sign_transaction u ≡ value raw)
        × (s'.spent ≡ s.spent + e)
  unfolding check_approval
  check_approval-inv a u v g e s s' raw h = elim (Settled-cases (b.recover v g)) [
    | inl (m, failed) ↦ cc (rw (failed, check_approval) at h)
    | inr (from, there) ↦ elim (Bool-cases (lower from == lower a.address)) [
      | inl same ↦
          let (r, key, e', charged) =
            sign_with_key-inv u e signed_after_human_approval (signed_after_human_approval raw) s s'
              (rw (there, same, check_approval) at h) in
          let same' : r ≡ raw = cc in
          (from, there, (string_eq.equals_iff _ _).0 same, key ∙ ap value same', charged)
      | inr differs ↦ cc (rw (there, differs, check_approval) at h)
    ]
  ]

  -- The device's part of an approved signature.
  abbrev pub Approval : Signable → ℕ → Run → Run → String → Type 0
  Approval u e s s' raw =
      (a : Approver) × (g : Signature) × (from : String) × (b.approver ≡ some a)
      × (a.request (approval_of u) ≡ value (approved g true))
      × (b.recover (approval_of u) g ≡ value from)
      × (lower from ≡ lower a.address)
      × (b.sign_transaction u ≡ value raw)
      × (s'.spent ≡ s.spent + e)

  read_answer-inv :
      (a : Approver) (u : Signable) (e : ℕ) (s : Run) (x : Settled Answer) (s' : Run) (raw : String)
      → b.approver ≡ some a
      → a.request (approval_of u) ≡ x
      → read_answer b a u e s x ≡ (value (signed_after_human_approval raw), s')
      → Approval u e s s' raw
  unfolding read_answer
  read_answer-inv a u e s (rejected m) s' raw there asked k = absurd (cc k)
  read_answer-inv a u e s (value (not_approved r d)) s' raw there asked k = absurd (ground arith)
  read_answer-inv a u e s (value (approved g false)) s' raw there asked k = absurd (cc k)
  read_answer-inv a u e s (value (approved g true)) s' raw there asked k =
      let (from, recovered, same, key, charged) =
        check_approval-inv a u (approval_of u) g e s s' raw k in
      (a, g, from, there, asked, recovered, same, key, charged)

  pub escalate-inv :
      (u : Signable) (rs : List Reason) (e : ℕ) (s s' : Run) (raw : String)
      → escalate b u rs e s ≡ (value (signed_after_human_approval raw), s')
      → Approval u e s s' raw
  unfolding escalate
  escalate-inv u rs e s s' raw h = elim (Option-cases b.approver) [
    | inl missing ↦ absurd (cc (rw (missing, escalate) at h))
    | inr (a, there) ↦
        read_answer-inv a u e (record_call asked_device s) (a.request (approval_of u)) s' raw there
          refl (rw (there, escalate) at h)
  ]

  pub by_tier-approved :
      (u : Signable) (tier : String) (rs : List Reason) (e : ℕ) (s s' : Run) (raw : String)
      → by_tier b u tier rs e s ≡ (value (signed_after_human_approval raw), s')
      → (tier ≡ "medium") × (escalate b u rs e s ≡ (value (signed_after_human_approval raw), s'))
  unfolding by_tier
  by_tier-approved u tier rs e s s' raw h = elim (Bool-cases (tier == "low")) [
    | inl is_low ↦
        let (r, key, same, charged) =
          sign_with_key-inv u e signed (signed_after_human_approval raw) s s'
            (rw (is_low, by_tier) at h) in
        absurd (cc same)
    | inr other ↦ elim (Bool-cases (tier == "medium")) [
      | inl is_medium ↦
          ((string_eq.equals_iff tier "medium").0 is_medium, rw (other, is_medium, by_tier) at h)
      | inr none_of_them ↦ absurd (ground arith)
    ]
  ]
