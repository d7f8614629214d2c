-- ===== src/Pipeline.antt =====
-- packages/gateway/src/pipeline.ts: one decision about one unsigned transaction. The engine and the
-- confirmation requester are the fields of `PresignPipeline`; a run also says whether the requester
-- was called.
pub mod Order
mod Tests
use presign.Prelude.{String, Bool, true, false, Option, none, some, if◌then◌else◌, ◌==◌, string_eq}
use presign.Types.{
  UnsignedTransaction, Verdict, RiskTier, low, medium, high, unavailable, Settled, value, rejected,
}
use presign.Engine.{tier_action}
use Prim.Native.String

pub data ConfirmationAnswer (Sig : Type 0) : Type 0 where
  approved : Sig → Bool → ConfirmationAnswer Sig
  not_approved : String → String → ConfirmationAnswer Sig

pub data PipelineDecision (Sig : Type 0) : Type 0 where
  may_sign : Verdict → PipelineDecision Sig
  signed_after_confirmation : Verdict → Sig → PipelineDecision Sig
  escalation_required : Verdict → PipelineDecision Sig
  declined_by_human : Verdict → String → PipelineDecision Sig
  escalation_failed : Verdict → String → String → PipelineDecision Sig
  refused : Verdict → String → PipelineDecision Sig

-- `S` is the shape that is passed to the requester untouched.
pub record PresignPipeline (S Sig : Type 0) : Type 0 where
  pub evaluate : UnsignedTransaction → Settled Verdict
  pub confirmation : Option (S → Verdict → Settled (ConfirmationAnswer Sig))

abbrev upper_tier : RiskTier → String
upper_tier low = "LOW"
upper_tier medium = "MEDIUM"
upper_tier high = "HIGH"
upper_tier unavailable = "UNAVAILABLE"

infixr 60 ◌⧺◌
abbrev ◌⧺◌ : String → String → String
s ⧺ t = String.◌++◌ s t

unfoldable pub describe : {Sig : Type 0} → PipelineDecision Sig → String
describe (may_sign v) = upper_tier v.tier ⧺ " — agent may sign"
describe (signed_after_confirmation v g) = upper_tier v.tier ⧺ " — confirmed on device"
describe (escalation_required v) =
    upper_tier v.tier ⧺ " — human confirmation required, no device configured"
describe (declined_by_human v d) = upper_tier v.tier ⧺ " — declined by human"
describe (escalation_failed v reason d) =
    if reason == "blind_signed"
    then upper_tier v.tier ⧺ " — BLIND SIGNED on device, signature discarded"
    else upper_tier v.tier ⧺ " — could not reach the device: " ⧺ reason
describe (refused v r) = upper_tier v.tier ⧺ " — refused"

module _ {Sig : Type 0} where
  unfoldable pub read_confirmation :
      Verdict → Settled (ConfirmationAnswer Sig) → Settled (PipelineDecision Sig)
  read_confirmation v (rejected e) = rejected e
  read_confirmation v (value (approved g true)) = value (signed_after_confirmation v g)
  read_confirmation v (value (approved g false)) = value (
      escalation_failed v "blind_signed"
        "The device fell back to blind signing, so the human approved a hash rather than the decoded transaction. The signature was discarded.")
  read_confirmation v (value (not_approved reason detail)) = value (
      if reason == "rejected_on_device"
      then declined_by_human v detail
      else escalation_failed v reason detail)

module _ {S Sig : Type 0} where
  -- `run` from the verdict on, with whether the requester was called.
  unfoldable pub conclude :
      Option (S → Verdict → Settled (ConfirmationAnswer Sig))
      → S
      → Verdict
      → RiskTier
      → Settled (PipelineDecision Sig) × Bool
  unfolding tier_action read_confirmation
  conclude confirmation signable v high = (value (refused v (tier_action high)), false)
  conclude confirmation signable v unavailable =
      (value (refused v (tier_action unavailable)), false)
  conclude confirmation signable v low = (value (may_sign v), false)
  conclude none signable v medium = (value (escalation_required v), false)
  conclude (some request) signable v medium = (read_confirmation v (request signable v), true)

  unfoldable pub run :
      PresignPipeline S Sig → UnsignedTransaction → S → Settled (PipelineDecision Sig) × Bool
  unfolding conclude
  run p tx signable = elim (p.evaluate tx) [
    | rejected e ↦ (rejected e, false)
    | value v ↦ conclude p.confirmation signable v v.tier
  ]
