-- ===== src/Broker/Refusals.antt =====
-- A verdict that refuses: neither the device nor the key is asked.
use presign.Prelude.{
  ℕ, ◌≡◌, refl, ◌∙◌, ◌≢◌, false, List, [], ◌∷◌, ◌++◌, arith, any, Bool-cases, inl, inr, string_eq,
}
use presign.Types.{Settled, value, rejected}
use presign.Broker.{
  Broker, SignRequest, Run, Call, filled, bought_verdict, Reason, record_call, by_tier,
  effective_tier, within_session, read_purchase, read_fields, AssessedTransaction, SignatureFields,
  Purchased, bought, is_bound, apply_policy, verdict_effects, fee_too_high, sign_through_verdict,
  assessed,
}
use presign.Broker.Stages.{is_sensitive}

-- No call of the key or the device is added, and nothing is charged.
abbrev pub Untouched : Run → Run → Type 0
Untouched s s' = (any is_sensitive s'.calls ≡ any is_sensitive s.calls) × (s'.spent ≡ s.spent)

any-snoc :
    (c : Call) (cs : List Call)
    → is_sensitive c ≡ false
    → any is_sensitive (cs ++ c ∷ []) ≡ any is_sensitive cs
any-snoc c [] h = rw h
any-snoc c (x ∷ cs) h = ground (arith, any-snoc c cs h)

record_call-Untouched :
    (c : Call) (s : Run) → is_sensitive c ≡ false → Untouched s (record_call c s)
record_call-Untouched c s h = (any-snoc c s.calls h, refl)

module _ (b : Broker) (p : Purchased) (not_low : p.tier ≢ "low")
    (not_medium : p.tier ≢ "medium") where
  effective_same : (rs : List Reason) → effective_tier p.tier rs ≡ p.tier
  unfolding effective_tier
  effective_same rs = ground (arith, string_eq.equals_iff p.tier "low")

  within_session-Untouched :
      (tx : AssessedTransaction) (f : SignatureFields) (rs : List Reason) (e : ℕ) (s : Run)
      → Untouched s (within_session b tx f p rs e s).1
  unfolding within_session by_tier
  within_session-Untouched tx f rs e s = ground (
    arith,
    effective_same rs,
    string_eq.equals_iff p.tier "low",
    string_eq.equals_iff p.tier "medium",
  )

  read_purchase-Untouched :
      (tx : AssessedTransaction) (f : SignatureFields) (s : Run)
      → Untouched s (read_purchase b tx f s (value (bought p))).1
  unfolding read_purchase
  read_purchase-Untouched tx f s = elim (Bool-cases (is_bound b tx p)) [
    | inl bound ↦
        rw (bound, read_purchase)
          (within_session-Untouched tx f (apply_policy (verdict_effects p.verdict) b.policy).0
            (apply_policy (verdict_effects p.verdict) b.policy).1 s)
    | inr loose ↦ rw (loose, read_purchase) (refl, refl)
  ]

  read_fields-Untouched :
      (tx : AssessedTransaction) (s : Run) (x : Settled SignatureFields)
      → b.buy_verdict tx ≡ value (bought p)
      → Untouched s (read_fields b tx s x).1
  unfolding read_fields
  read_fields-Untouched tx s (rejected m) paid = (refl, refl)
  read_fields-Untouched tx s (value f) paid = elim (Bool-cases (fee_too_high b.policy f)) [
    | inl dear ↦ rw (dear, read_fields) (refl, refl)
    | inr cheap ↦
        rw (cheap, read_fields, paid)
          (let first = record_call-Untouched bought_verdict s refl in
            let then' = read_purchase-Untouched tx f (record_call bought_verdict s) in
            (then'.0 ∙ first.0, then'.1))
  ]

-- With a verdict whose tier is neither `low` nor `medium` (`high`, `unavailable`, or a tier that is
-- not known), a request asks neither the device nor the key, and charges the session nothing.
pub sign_through_verdict-Untouched :
    (b : Broker) (req : SignRequest) (s : Run) (p : Purchased)
    → b.buy_verdict (assessed b req) ≡ value (bought p)
    → p.tier ≢ "low"
    → p.tier ≢ "medium"
    → Untouched s (sign_through_verdict b req s).1
unfolding sign_through_verdict
sign_through_verdict-Untouched b req s p paid not_low not_medium =
    let first = record_call-Untouched filled s refl in
    let then' =
      read_fields-Untouched b p not_low not_medium (assessed b req) (record_call filled s)
        (b.fill (assessed b req)) paid in
    (then'.0 ∙ first.0, then'.1)
