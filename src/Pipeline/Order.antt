-- ===== src/Pipeline/Order.antt =====
-- The pipeline consults its parts in the right order, and agrees with the device's own policy.
use presign.Prelude.{
  String, ◌≡◌, refl, sym, ap, ◌∙◌, Bool, true, false, ◌&&◌, Option, none, some, List, arith, ◌==◌,
  string_eq, Bool-cases, inl, inr,
}
use presign.Types.{
  UnsignedTransaction, Verdict, RiskTier, low, medium, high, unavailable, Settled, value, rejected,
}
use presign.Escalation.{
  EscalationDecision, sign_directly, confirm_on_device, refuse, decide_escalation, decide_tier,
  summary,
}
use presign.Pipeline.{
  ConfirmationAnswer, approved, not_approved, PipelineDecision, may_sign, signed_after_confirmation,
  refused, PresignPipeline, read_confirmation, conclude, run,
}

abbrev pub asks : EscalationDecision → Bool
asks (confirm_on_device r lines) = true
asks _ = false

abbrev pub refuses : EscalationDecision → Bool
refuses (refuse r) = true
refuses _ = false

abbrev pub allows : EscalationDecision → Bool
allows (sign_directly r) = true
allows _ = false

abbrev pub is_configured {ℓ} : {A : Type ℓ} → Option A → Bool
is_configured none = false
is_configured (some a) = true

module _ {Sig : Type 0} where
  abbrev pub is_refused : Settled (PipelineDecision Sig) → Bool
  is_refused (value (refused v r)) = true
  is_refused _ = false

  abbrev pub is_may_sign : Settled (PipelineDecision Sig) → Bool
  is_may_sign (value (may_sign v)) = true
  is_may_sign _ = false

  read_confirmation_kind :
      (v : Verdict) (x : Settled (ConfirmationAnswer Sig))
      → (is_refused (read_confirmation v x) ≡ false) × (is_may_sign (read_confirmation v x) ≡ false)
  unfolding read_confirmation
  read_confirmation_kind v (rejected e) = (refl, refl)
  read_confirmation_kind v (value (approved g true)) = (refl, refl)
  read_confirmation_kind v (value (approved g false)) = (refl, refl)
  read_confirmation_kind v (value (not_approved r d)) =
      elim (Bool-cases (r == "rejected_on_device")) [
        | inl e ↦ rw e (refl, refl)
        | inr e ↦ rw e (refl, refl)
      ]

  read_confirmation_signed :
      (v w : Verdict) (g : Sig) (x : Settled (ConfirmationAnswer Sig))
      → read_confirmation v x ≡ value (signed_after_confirmation w g)
      → (x ≡ value (approved g true)) × (v ≡ w)
  unfolding read_confirmation
  read_confirmation_signed v w g (rejected e) h = absurd (cc h)
  read_confirmation_signed v w g (value (approved g' true)) h = (cc, cc)
  read_confirmation_signed v w g (value (approved g' false)) h = absurd (ground arith)
  read_confirmation_signed v w g (value (not_approved r d)) h = absurd (ground arith)

module _ {S Sig : Type 0} where
  conclude_agrees :
      (c : Option (S → Verdict → Settled (ConfirmationAnswer Sig))) (signable : S) (v : Verdict)
      (tier : RiskTier) (lines : List String)
      → ((conclude c signable v tier).1 ≡ (asks (decide_tier tier lines) && is_configured c))
        × (is_refused (conclude c signable v tier).0 ≡ refuses (decide_tier tier lines))
        × (is_may_sign (conclude c signable v tier).0 ≡ allows (decide_tier tier lines))
  unfolding conclude decide_tier
  conclude_agrees c signable v low lines = (refl, refl, refl)
  conclude_agrees c signable v high lines = (refl, refl, refl)
  conclude_agrees c signable v unavailable lines = (refl, refl, refl)
  conclude_agrees none signable v medium lines = (refl, refl, refl)
  conclude_agrees (some request) signable v medium lines =
      let (a, b) = read_confirmation_kind v (request signable v) in (refl, a, b)

  run_lem :
      (p : PresignPipeline S Sig) (tx : UnsignedTransaction) (signable : S) (v : Verdict)
      → p.evaluate tx ≡ value v
      → run p tx signable ≡ conclude p.confirmation signable v v.tier
  unfolding run
  run_lem p tx signable v h = rw (h, run)

  -- The pipeline and `decideEscalation` agree on every verdict: the requester is called exactly when
  -- the device's policy says to confirm and a requester is configured, the transaction is refused
  -- exactly when that policy refuses, and the agent may sign exactly when it says to sign directly.
  pub run-decide_escalation :
      (p : PresignPipeline S Sig) (tx : UnsignedTransaction) (signable : S) (v : Verdict)
      → p.evaluate tx ≡ value v
      → ((run p tx signable).1 ≡ (asks (decide_escalation v) && is_configured p.confirmation))
        × (is_refused (run p tx signable).0 ≡ refuses (decide_escalation v))
        × (is_may_sign (run p tx signable).0 ≡ allows (decide_escalation v))
  unfolding decide_escalation
  run-decide_escalation p tx signable v h =
      rw (run_lem p tx signable v h) (conclude_agrees p.confirmation signable v v.tier (summary v))

  conclude_signed :
      (c : Option (S → Verdict → Settled (ConfirmationAnswer Sig))) (signable : S) (v w : Verdict)
      (tier : RiskTier) (g : Sig)
      → (conclude c signable v tier).0 ≡ value (signed_after_confirmation w g)
      → (tier ≡ medium)
        × ((request : S → Verdict → Settled (ConfirmationAnswer Sig)) × (c ≡ some request)
            × (request signable v ≡ value (approved g true)))
  unfolding conclude
  conclude_signed c signable v w low g h = absurd (ground arith)
  conclude_signed c signable v w high g h = absurd (ground arith)
  conclude_signed c signable v w unavailable g h = absurd (ground arith)
  conclude_signed none signable v w medium g h = absurd (ground arith)
  conclude_signed (some request) signable v w medium g h =
      (refl, (request, refl, (read_confirmation_signed v w g (request signable v) h).0))

  -- A signature comes back only for a `medium` verdict of the engine, and only where the configured
  -- requester approved it with a clear signature over what was to be signed.
  pub run-signed :
      (p : PresignPipeline S Sig) (tx : UnsignedTransaction) (signable : S) (v w : Verdict)
      (g : Sig)
      → p.evaluate tx ≡ value v
      → (run p tx signable).0 ≡ value (signed_after_confirmation w g)
      → (v.tier ≡ medium)
        × ((request : S → Verdict → Settled (ConfirmationAnswer Sig)) × (p.confirmation
              ≡ some request)
            × (request signable v ≡ value (approved g true)))
  run-signed p tx signable v w g h e = conclude_signed p.confirmation signable v w v.tier g (
      ap (λ (x : Settled (PipelineDecision Sig) × Bool). x.0) (sym (run_lem p tx signable v h)) ∙ e)
