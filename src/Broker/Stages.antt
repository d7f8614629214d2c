-- ===== src/Broker/Stages.antt =====
-- Each stage of `signThroughVerdict`: what it charges to the session and which calls it makes.
use presign.Prelude.{
  ℕ, ◌+◌, ◌≤◌, String, ◌≡◌, refl, ◌⊎◌, Bool, true, false, List, arith, string_eq, Bool-cases, inl,
  inr, Option-cases,
}
use presign.Types.{Settled, value, rejected}
use presign.Broker.{
  Broker, Signable, Signature, Approver, Answer, approved, not_approved, Decision, Run, Call,
  filled, bought_verdict, asked_device, agent_signed, Reason, signed, signed_after_human_approval,
  record_call, sign_with_key, check_approval, read_answer, escalate, by_tier, effective_tier,
  within_session, read_purchase, read_fields, approval_of, AssessedTransaction, SignatureFields,
  Purchased, VerdictPurchase, bought, not_bought, is_bound, apply_policy, verdict_effects,
  fee_too_high,
}

-- A call that reaches the key or the device.
abbrev pub is_sensitive : Call → Bool
is_sensitive filled = false
is_sensitive bought_verdict = false
is_sensitive asked_device = true
is_sensitive agent_signed = true

-- A stage charges the session nothing, or exactly what the transaction sends.
abbrev pub Charges : ℕ → Run → Run → Type 0
Charges eth_out s s' = (s'.spent ≡ s.spent) ⊎ (s'.spent ≡ s.spent + eth_out)

module _ (b : Broker) where
  sign_with_key-Charges :
      (u : Signable) (e : ℕ) (d : String → Decision) (s : Run)
      → Charges e s (sign_with_key b u e d s).1
  unfolding sign_with_key
  sign_with_key-Charges u e d s = ground arith

  check_approval-Charges :
      (a : Approver) (u v : Signable) (g : Signature) (e : ℕ) (s : Run)
      → Charges e s (check_approval b a u v g e s).1
  unfolding check_approval
  check_approval-Charges a u v g e s =
      ground (arith, sign_with_key-Charges u e signed_after_human_approval s)

  read_answer-Charges :
      (a : Approver) (u : Signable) (e : ℕ) (s : Run) (x : Settled Answer)
      → Charges e s (read_answer b a u e s x).1
  unfolding read_answer
  read_answer-Charges a u e s (rejected m) = inl refl
  read_answer-Charges a u e s (value (not_approved r d)) = inl refl
  read_answer-Charges a u e s (value (approved g true)) =
      check_approval-Charges a u (approval_of u) g e s
  read_answer-Charges a u e s (value (approved g false)) = inl refl

  escalate-Charges :
      (u : Signable) (rs : List Reason) (e : ℕ) (s : Run) → Charges e s (escalate b u rs e s).1
  unfolding escalate
  escalate-Charges u rs e s = elim (Option-cases b.approver) [
    | inl missing ↦ rw (missing, escalate) (inl refl)
    | inr (a, there) ↦
        rw (there, escalate)
          (read_answer-Charges a u e (record_call asked_device s) (a.request (approval_of u)))
  ]

  by_tier-Charges :
      (u : Signable) (tier : String) (rs : List Reason) (e : ℕ) (s : Run)
      → Charges e s (by_tier b u tier rs e s).1
  unfolding by_tier
  by_tier-Charges u tier rs e s =
      ground (arith, sign_with_key-Charges u e signed s, escalate-Charges u rs e s)

  -- Whatever the later stages do, a session within its ceiling stays within it.
  within_session-spent :
      (tx : AssessedTransaction) (f : SignatureFields) (p : Purchased) (rs : List Reason) (e : ℕ)
      (s : Run)
      → s.spent ≤ b.policy.max_eth_per_session
      → (within_session b tx f p rs e s).1.spent ≤ b.policy.max_eth_per_session
  unfolding within_session
  within_session-spent tx f p rs e s h = ground (
    arith,
    by_tier-Charges (record { transaction = tx; fields = f }) (effective_tier p.tier rs) rs e s,
  )

  read_purchase-spent :
      (tx : AssessedTransaction) (f : SignatureFields) (s : Run) (x : Settled VerdictPurchase)
      → s.spent ≤ b.policy.max_eth_per_session
      → (read_purchase b tx f s x).1.spent ≤ b.policy.max_eth_per_session
  unfolding read_purchase
  read_purchase-spent tx f s (rejected m) h = h
  read_purchase-spent tx f s (value not_bought) h = h
  read_purchase-spent tx f s (value (bought p)) h = elim (Bool-cases (is_bound b tx p)) [
    | inl yes' ↦
        rw (yes', read_purchase)
          (within_session-spent tx f p (apply_policy (verdict_effects p.verdict) b.policy).0
            (apply_policy (verdict_effects p.verdict) b.policy).1 s h)
    | inr no' ↦ rw (no', read_purchase) h
  ]

  pub read_fields-spent :
      (tx : AssessedTransaction) (s : Run) (x : Settled SignatureFields)
      → s.spent ≤ b.policy.max_eth_per_session
      → (read_fields b tx s x).1.spent ≤ b.policy.max_eth_per_session
  unfolding read_fields
  read_fields-spent tx s (rejected m) h = h
  read_fields-spent tx s (value f) h = elim (Bool-cases (fee_too_high b.policy f)) [
    | inl high' ↦ rw (high', read_fields) h
    | inr fine ↦
        rw (fine, read_fields)
          (read_purchase-spent tx f (record_call bought_verdict s) (b.buy_verdict tx) h)
  ]
