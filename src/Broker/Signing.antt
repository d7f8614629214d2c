-- ===== src/Broker/Signing.antt =====
-- What stands behind every signature that the broker gives.
use presign.Prelude.{
  ℕ, ◌+◌, ◌≤◌, String, ◌≡◌, refl, Bool, true, false, some, List, [], arith, ltb, string_eq,
  Bool-cases, inl, inr, lower,
}
use presign.Types.{Settled, value, rejected}
use presign.Broker.{
  Broker, SignRequest, Signable, Signature, Approver, approved, Decision, Outcome, Run, filled,
  bought_verdict, Reason, signed, signed_after_human_approval, record_call, by_tier, effective_tier,
  within_session, read_purchase, read_fields, approval_of, AssessedTransaction, SignatureFields,
  Purchased, VerdictPurchase, bought, not_bought, is_bound, apply_policy, verdict_effects,
  fee_too_high, sign_through_verdict, assessed,
}
use presign.Broker.Inversion.{by_tier-signed, effective_low, escalate-inv, by_tier-approved}

-- The transaction that a request asks to sign, with its fields.
abbrev pub unsigned : Broker → SignRequest → SignatureFields → Signable
unsigned b req fields = record { transaction = assessed b req; fields = fields }

abbrev pub reasons_for : Broker → Purchased → List Reason
reasons_for b p = (apply_policy (verdict_effects p.verdict) b.policy).0

abbrev pub eth_out_of : Broker → Purchased → ℕ
eth_out_of b p = (apply_policy (verdict_effects p.verdict) b.policy).1

-- What every signature has behind it: fees within their ceilings, a verdict that is bound to this
-- very transaction, room in the session, and the key's own answer.
pub record IsVouched (b : Broker) (req : SignRequest) (s s' : Run) (raw : String)
    (fields : SignatureFields) (p : Purchased) : Type 0 where
  pub filled_in : b.fill (assessed b req) ≡ value fields
  pub cheap : fee_too_high b.policy fields ≡ false
  pub paid : b.buy_verdict (assessed b req) ≡ value (bought p)
  pub bound : is_bound b (assessed b req) p ≡ true
  pub within : s.spent + eth_out_of b p ≤ b.policy.max_eth_per_session
  pub by_key : b.sign_transaction (unsigned b req fields) ≡ value raw
  pub charged : s'.spent ≡ s.spent + eth_out_of b p

-- What the device adds: a clear signature over the same transaction at the nonce that no account
-- reaches, made by the key of the approver's address.
pub record IsApproved (b : Broker) (req : SignRequest) (fields : SignatureFields) (a : Approver)
    (g : Signature) (from : String) : Type 0 where
  pub attached : b.approver ≡ some a
  pub answered : a.request (approval_of (unsigned b req fields)) ≡ value (approved g true)
  pub recovered : b.recover (approval_of (unsigned b req fields)) g ≡ value from
  pub same_key : lower from ≡ lower a.address

-- A request reached the tiers with these fields and this verdict.
record Reached (b : Broker) (req : SignRequest) (s : Run) (o : Outcome) : Type 0 where
  fields : SignatureFields
  p : Purchased
  before : Run
  filled_in : b.fill (assessed b req) ≡ value fields
  cheap : fee_too_high b.policy fields ≡ false
  paid : b.buy_verdict (assessed b req) ≡ value (bought p)
  bound : is_bound b (assessed b req) p ≡ true
  unspent : before.spent ≡ s.spent
  within : s.spent + eth_out_of b p ≤ b.policy.max_eth_per_session
  arrives :
      by_tier b
        (unsigned b req fields)
        (effective_tier p.tier (reasons_for b p))
        (reasons_for b p)
        (eth_out_of b p)
        before
      ≡ o

-- The decisions that only `by_tier` gives.
abbrev is_signature : Decision → Bool
is_signature (signed raw) = true
is_signature (signed_after_human_approval raw) = true
is_signature _ = false

within_session-reached :
    (b : Broker) (tx : AssessedTransaction) (f : SignatureFields) (p : Purchased) (rs : List Reason)
    (e : ℕ) (s s' : Run) (d : Decision)
    → is_signature d ≡ true
    → within_session b tx f p rs e s ≡ (value d, s')
    → (s.spent + e ≤ b.policy.max_eth_per_session)
      × (by_tier b (record { transaction = tx; fields = f }) (effective_tier p.tier rs) rs e s
          ≡ (value d, s'))
unfolding within_session
within_session-reached b tx f p rs e s s' d sig h =
    elim (Bool-cases (ltb b.policy.max_eth_per_session (s.spent + e))) [
      | inl over ↦ absurd (ground (arith, rw (over, within_session) at h))
      | inr fits ↦ (ground arith, rw (fits, within_session) at h)
    ]

module _ (b : Broker) (req : SignRequest) (s s' : Run) (d : Decision)
    (sig : is_signature d ≡ true) where
  purchase-Reached :
      (f : SignatureFields) (x : Settled VerdictPurchase)
      → b.fill (assessed b req) ≡ value f
      → fee_too_high b.policy f ≡ false
      → b.buy_verdict (assessed b req) ≡ x
      → read_purchase b (assessed b req) f (record_call bought_verdict (record_call filled s)) x
        ≡ (value d, s')
      → Reached b req s (value d, s')
  unfolding read_purchase
  purchase-Reached f (rejected m) ef fee ex k = absurd (cc k)
  purchase-Reached f (value not_bought) ef fee ex k = absurd (ground arith)
  purchase-Reached f (value (bought p)) ef fee ex k =
      elim (Bool-cases (is_bound b (assessed b req) p)) [
        | inl bound ↦
            let (within, arrives) =
              within_session-reached b (assessed b req) f p (reasons_for b p) (eth_out_of b p)
                (record_call bought_verdict (record_call filled s)) s' d sig
                (rw (bound, read_purchase) at k) in
            record {
              fields = f;
              p = p;
              before = record_call bought_verdict (record_call filled s);
              filled_in = ef;
              cheap = fee;
              paid = ex;
              bound = bound;
              unspent = refl;
              within = within;
              arrives = arrives;
            }
        | inr loose ↦ absurd (ground (arith, rw (loose, read_purchase) at k))
      ]

  fields-Reached :
      (x : Settled SignatureFields)
      → b.fill (assessed b req) ≡ x
      → read_fields b (assessed b req) (record_call filled s) x ≡ (value d, s')
      → Reached b req s (value d, s')
  unfolding read_fields
  fields-Reached (rejected m) ex k = absurd (ground arith)
  fields-Reached (value f) ex k = elim (Bool-cases (fee_too_high b.policy f)) [
    | inl high' ↦ absurd (ground (arith, rw (high', read_fields) at k))
    | inr cheap ↦
        purchase-Reached f (b.buy_verdict (assessed b req)) ex cheap refl
          (rw (cheap, read_fields) at k)
  ]

  reached : sign_through_verdict b req s ≡ (value d, s') → Reached b req s (value d, s')
  unfolding sign_through_verdict
  reached h = fields-Reached (b.fill (assessed b req)) refl h

-- A transaction signed without a human had fees within their ceilings, a verdict bound to it, tier
-- `low`, no reason from the policy and room in the session, and the session is charged what it sends.
pub sign_through_verdict-signed :
    (b : Broker) (req : SignRequest) (s s' : Run) (raw : String)
    → sign_through_verdict b req s ≡ (value (signed raw), s')
    → (fields : SignatureFields) × (p : Purchased) × IsVouched b req s s' raw fields p
      × (p.tier ≡ "low")
      × (reasons_for b p ≡ [])
sign_through_verdict-signed b req s s' raw h =
    let x = reached b req s s' (signed raw) refl h in
    let (eff, key, charged) =
      by_tier-signed b (unsigned b req x.fields) (effective_tier x.p.tier (reasons_for b x.p))
        (reasons_for b x.p) (eth_out_of b x.p) x.before s' raw x.arrives in
    let (low_tier, clean) = effective_low b x.p.tier (reasons_for b x.p) eff in
    (
      x.fields,
      x.p,
      record {
        filled_in = x.filled_in;
        cheap = x.cheap;
        paid = x.paid;
        bound = x.bound;
        within = x.within;
        by_key = key;
        charged = omega (arith, charged, x.unspent);
      },
      low_tier,
      clean,
    )

-- A transaction signed after a human's approval had the same behind it, and the attached device gave
-- a clear signature over that transaction, at the nonce that no account reaches, with the key of
-- its own address; its tier was `medium`, or `low` with a reason from the policy.
pub sign_through_verdict-IsApproved :
    (b : Broker) (req : SignRequest) (s s' : Run) (raw : String)
    → sign_through_verdict b req s ≡ (value (signed_after_human_approval raw), s')
    → (fields : SignatureFields) × (p : Purchased) × (a : Approver) × (g : Signature)
      × (from : String) × IsVouched b req s s' raw fields p
      × IsApproved b req fields a g from
      × (effective_tier p.tier (reasons_for b p) ≡ "medium")
sign_through_verdict-IsApproved b req s s' raw h =
    let x = reached b req s s' (signed_after_human_approval raw) refl h in
    let u = unsigned b req x.fields in
    let (eff, k) =
      by_tier-approved b u (effective_tier x.p.tier (reasons_for b x.p)) (reasons_for b x.p)
        (eth_out_of b x.p) x.before s' raw x.arrives in
    let (a, g, from, there, asked, recovered, same, key, charged) =
      escalate-inv b u (reasons_for b x.p) (eth_out_of b x.p) x.before s' raw k in
    (
      x.fields,
      x.p,
      a,
      g,
      from,
      record {
        filled_in = x.filled_in;
        cheap = x.cheap;
        paid = x.paid;
        bound = x.bound;
        within = x.within;
        by_key = key;
        charged = omega (arith, charged, x.unspent);
      },
      record { attached = there; answered = asked; recovered = recovered; same_key = same },
      eff,
    )
