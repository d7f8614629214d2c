-- ===== src/Escalation.antt =====
-- packages/ledger/src/escalation.ts: which verdicts reach the device.
use presign.Prelude.{String, Bool, true, false, List, map, filter, not}
use presign.Types.{Verdict, Finding, RiskTier, low, medium, high, unavailable, Severity, info}
use Prim.Native.String

pub data EscalationDecision : Type 0 where
  sign_directly : String → EscalationDecision
  confirm_on_device : String → List String → EscalationDecision
  refuse : String → EscalationDecision

abbrev pub is_info : Severity → Bool
is_info info = true
is_info _ = false

unfoldable pub summary : Verdict → List String
summary v =
    map (λ (f : Finding). String.◌++◌ f.rule_id (String.◌++◌ ": " f.title))
      (filter (λ (f : Finding). not (is_info f.severity)) v.findings)

-- The switch of `decideEscalation`.
unfoldable pub decide_tier : RiskTier → List String → EscalationDecision
decide_tier low lines = sign_directly "No rule raised a concern and every rule was able to run."
decide_tier medium lines =
    confirm_on_device
      "A concern was raised that a human should weigh, but nothing was proved dangerous. The device shows what is being signed so the decision is informed rather than delegated."
      lines
decide_tier high lines =
    refuse
      "A rule proved this transaction dangerous. Presenting it for confirmation would invite approval of something already known to be wrong."
decide_tier unavailable lines =
    refuse
      "Fresh context could not be obtained, so no verdict was reached. A human asked to confirm would have less information than the service that could not decide."

unfoldable pub decide_escalation : Verdict → EscalationDecision
unfolding decide_tier summary
decide_escalation v = decide_tier v.tier (summary v)
