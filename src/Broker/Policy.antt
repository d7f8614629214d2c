-- ===== src/Broker/Policy.antt =====
-- When the broker's policy asks for no human.
use mathlib.Core.List.{append-eq-nil_iff}
use presign.Prelude.{
  ℕ, String, ◌≡◌, refl, ◌↔◌, Bool, true, ◌&&◌, ◌||◌, some, List, [], ◌∷◌, arith, every, is_empty,
  not, leb, eqb, Bool-cases, inl, inr, if◌then◌else◌,
}
use presign.Types.{TokenOut}
use presign.Broker.{
  BrokerPolicy, Effects, allowed, apply_policy, eth_reasons, token_reasons, is_true, or_zero,
  or_nil, token_outside,
}

-- The ETH goes to named recipients on the allowlist only, and stays within the ceiling.
abbrev pub eth_is_fine : BrokerPolicy → ℕ → List String → Bool
eth_is_fine policy eth_out recipients =
    eqb eth_out 0
    || (not (is_empty recipients)
        && (every (allowed policy) recipients && leb eth_out policy.max_eth_per_transaction))

-- The token was burned, or went to named recipients on the allowlist only.
abbrev pub token_is_fine : BrokerPolicy → TokenOut → Bool
token_is_fine policy t =
    t.burned || (not t.unidentified_recipient && every (allowed policy) t.recipients)

eth_reasons-nil_iff :
    (policy : BrokerPolicy) (eth_out : ℕ) (recipients : List String)
    → (eth_reasons policy eth_out recipients ≡ []) ↔ (eth_is_fine policy eth_out recipients ≡ true)
unfolding eth_reasons
eth_reasons-nil_iff policy eth_out recipients = (λ h. ground arith, λ h. ground arith)

token_reason-nil_iff :
    (policy : BrokerPolicy) (t : TokenOut)
    → ((if t.burned
          then []
          else if t.unidentified_recipient || not (every (allowed policy) t.recipients)
          then token_outside t ∷ []
          else [])
        ≡ [])
      ↔ (token_is_fine policy t ≡ true)
token_reason-nil_iff policy t = (λ h. ground arith, λ h. ground arith)

token_reasons-nil_iff :
    (policy : BrokerPolicy) (ts : List TokenOut)
    → (token_reasons policy ts ≡ []) ↔ (every (token_is_fine policy) ts ≡ true)
unfolding token_reasons
token_reasons-nil_iff policy [] = (λ h. refl, λ h. refl)
token_reasons-nil_iff policy (t ∷ ts) =
    let (to, from) = token_reasons-nil_iff policy ts in
    let (down, up) = token_reason-nil_iff policy t in
    (
      λ h. let (here, later) = append-eq-nil_iff.0 h in rw (down here, to later),
      λ h. append-eq-nil_iff.1 (up (ground arith), from (ground arith)),
    )

-- Where the verdict has effects, the policy asks for no human exactly when the simulation read the effects, the ETH sent is within
-- the ceiling and goes to named, allowlisted recipients (or there is none), and every token sent was
-- burned or goes to identified, allowlisted recipients.
pub apply_policy-nil_iff :
    (effects : Effects) (policy : BrokerPolicy)
    → ((apply_policy (some effects) policy).0 ≡ []) ↔ (
        (is_true effects.observed ≡ true)
        × (eth_is_fine policy (or_zero effects.eth_out) (or_nil effects.eth_recipients) ≡ true)
        × (every (token_is_fine policy) (or_nil effects.tokens_out) ≡ true))
unfolding apply_policy
apply_policy-nil_iff effects policy =
    let (eth_to, eth_from) =
      eth_reasons-nil_iff policy (or_zero effects.eth_out) (or_nil effects.eth_recipients) in
    let (token_to, token_from) = token_reasons-nil_iff policy (or_nil effects.tokens_out) in
    elim (Bool-cases (is_true effects.observed)) [
      | inl seen ↦ rw seen (
        λ h. let (here, later) = append-eq-nil_iff.0 h in (refl, eth_to here, token_to later),
        λ h. append-eq-nil_iff.1 (eth_from h.1, token_from h.2),
      )
      | inr unseen ↦ rw unseen (λ h. cc, λ h. cc)
    ]
