-- ===== src/Engine/Tier.antt =====
-- How findings fold into a tier (`#tier` of engine.ts).
use mathlib.Core.List.{Perm, Permᴰ}
use mathlib.Core.Logic.{∥∥₁_elim}
use presign.Prelude.{
  any, ltb, ℕ, ◌≤◌, String, ◌≡◌, refl, sym, ap, ◌∙◌, ◌≢◌, ◌↔◌, Bool, true, false, List, [], ◌∷◌,
  arith, max, All, leb, Bool-cases, inl, inr, string_eq, eq_refl,
}
use presign.Types.{RiskTier, low, high, Finding, field}
use presign.Engine.{
  TierPolicy, default_tier_policy, tier_index, higher, capped, contribution, fold_tier, tier_of,
}

RiskTier-set : IsSet RiskTier
RiskTier-set = hlevel

higher_index : (a b : RiskTier) → tier_index (higher a b) ≡ max (tier_index a) (tier_index b)
unfolding higher
higher_index a b = ground arith

tier_of_index : (a b : RiskTier) → tier_index a ≡ tier_index b → a ≡ b
tier_of_index a b h = ground arith

-- The largest contribution, as an index, from `n` on.
highest : TierPolicy → ℕ → List Finding → ℕ
highest policy n [] = n
highest policy n (f ∷ fs) = highest policy (max n (tier_index (contribution policy f))) fs

fold_tier_index :
    (policy : TierPolicy) (tier : RiskTier) (fs : List Finding)
    → tier_index (fold_tier policy tier fs) ≡ highest policy (tier_index tier) fs
unfolding fold_tier highest
fold_tier_index policy tier [] = refl
fold_tier_index policy tier (f ∷ fs) =
    rw (← higher_index tier (contribution policy f))
      (fold_tier_index policy (higher tier (contribution policy f)) fs)

highest-le_iff :
    (policy : TierPolicy) (n k : ℕ) (fs : List Finding)
    → (highest policy n fs ≤ k) ↔ ((n ≤ k) × All (λ f. tier_index (contribution policy f) ≤ k) fs)
unfolding highest
highest-le_iff policy n k [] = (λ h. (h, tt), λ h. h.0)
highest-le_iff policy n k (f ∷ fs) =
    let (to, from) = highest-le_iff policy (max n (tier_index (contribution policy f))) k fs in
    (
      λ h. (omega (arith, (to h).0), (omega (arith, (to h).0), (to h).1)),
      λ h. from (omega (arith, h.0, h.1.0), h.1.1),
    )

le-highest : (policy : TierPolicy) (n : ℕ) (fs : List Finding) → n ≤ highest policy n fs
unfolding highest
le-highest policy n [] = omega arith
le-highest policy n (f ∷ fs) =
    omega (arith, le-highest policy (max n (tier_index (contribution policy f))) fs)

one-le-fold : (policy : TierPolicy) (fs : List Finding) → 1 ≤ tier_index (fold_tier policy low fs)
one-le-fold policy fs = omega (arith, fold_tier_index policy low fs, le-highest policy 1 fs)

tier_of_fold :
    (policy : TierPolicy) (fs : List Finding) (b : Bool)
    → (tier_of policy fs b ≡ low) ↔ ((b ≡ false) × (tier_index (fold_tier policy low fs) ≤ 1))
unfolding tier_of
tier_of_fold policy fs b =
    (λ h. ground (arith, one-le-fold policy fs), λ h. ground (arith, one-le-fold policy fs))

-- A verdict's tier is `low` exactly when no rule was unavailable and no finding contributes more
-- than `low`.
pub tier_of-eq-low_iff :
    (policy : TierPolicy) (fs : List Finding) (any_unavailable : Bool)
    → (tier_of policy fs any_unavailable ≡ low)
      ↔ ((any_unavailable ≡ false) × All (λ f. tier_index (contribution policy f) ≤ 1) fs)
tier_of-eq-low_iff policy fs b =
    let (to, from) = tier_of_fold policy fs b in
    let (down, up) = highest-le_iff policy 1 1 fs in
    let e = fold_tier_index policy low fs in
    (
      λ h. ((to h).0, (down (omega (arith, (to h).1, e))).1),
      λ h. from (h.0, omega (arith, up (omega arith, h.1), e)),
    )

tier_of_high :
    (policy : TierPolicy) (fs : List Finding) (b : Bool)
    → (tier_of policy fs b ≡ high) ↔ (¬ (tier_index (fold_tier policy low fs) ≤ 2))
unfolding tier_of
tier_of_high policy fs b = (λ h. ground (arith), λ h. ground (arith, h))

-- A verdict's tier is not `high` exactly when every finding contributes less than `high`: whether
-- rules were unavailable has no part in it, so a definite finding outranks uncertainty.
pub tier_of-ne-high_iff :
    (policy : TierPolicy) (fs : List Finding) (any_unavailable : Bool)
    → (tier_of policy fs any_unavailable ≢ high)
      ↔ All (λ f. tier_index (contribution policy f) ≤ 2) fs
tier_of-ne-high_iff policy fs b =
    let (to, from) = tier_of_high policy fs b in
    let (down, up) = highest-le_iff policy 1 2 fs in
    let e = fold_tier_index policy low fs in
    (
      λ h.
          (down (elim (Bool-cases (leb (tier_index (fold_tier policy low fs)) 2)) [
            | inl small ↦ ground (arith, e)
            | inr large ↦ absurd (h (from (λ k. ground arith)))
          ])).1,
      λ h k. to k (omega (arith, up (omega arith, h), e)),
    )

highest_swap :
    (policy : TierPolicy) (n : ℕ) {fs gs : List Finding}
    → Permᴰ fs gs
    → highest policy n fs ≡ highest policy n gs
unfolding highest
highest_swap policy n Permᴰ.nil = refl
highest_swap policy n (Permᴰ.cons {a = x} {l₁ = l} e p) =
    ap (λ y. highest policy (max n (tier_index (contribution policy y))) l) e
    ∙ highest_swap policy (max n (tier_index (contribution policy _))) p
highest_swap policy n (Permᴰ.swap {a = a} {b = b} {l = l} p q) =
    rw (← p, ← q) (ap (λ k. highest policy k l) (omega arith))
highest_swap policy n (Permᴰ.trans p q) = highest_swap policy n p ∙ highest_swap policy n q

-- The order in which the rules report their findings does not change the tier.
pub tier_of-perm :
    (policy : TierPolicy) (any_unavailable : Bool) (fs gs : List Finding)
    → Perm fs gs
    → tier_of policy fs any_unavailable ≡ tier_of policy gs any_unavailable
unfolding tier_of
tier_of-perm policy b fs gs p =
    let e : fold_tier policy low fs ≡ fold_tier policy low gs = ∥∥₁_elim p (RiskTier-set _ _) (λ q.
      tier_of_index _ _ (
        fold_tier_index policy low fs
        ∙ highest_swap policy 1 q
        ∙ sym (fold_tier_index policy low gs))) in
    rw e

r2_contribution :
    (f : Finding)
    → f.rule_id ≡ "R2"
    → f.standing ≡ true
    → tier_index (contribution default_tier_policy f) ≤ 2
unfolding contribution capped field
r2_contribution f r2 standing = rw (r2, standing) (ground (arith, eq_refl {A = String} "R2"))

r2_contributions :
    (fs : List Finding)
    → All (λ f. (f.rule_id ≡ "R2") × (f.standing ≡ true)) fs
    → All (λ f. tier_index (contribution default_tier_policy f) ≤ 2) fs
r2_contributions [] k = tt
r2_contributions (g ∷ gs) k = (r2_contribution g k.0.0 k.0.1, r2_contributions gs k.1)

-- Under the default policy, standing findings of R2 alone never reach `high`, whatever their
-- severity and whatever was unavailable.
pub default_policy_r2 :
    (fs : List Finding) (any_unavailable : Bool)
    → All (λ f. (f.rule_id ≡ "R2") × (f.standing ≡ true)) fs
    → tier_of default_tier_policy fs any_unavailable ≢ high
default_policy_r2 fs b h = (tier_of-ne-high_iff default_tier_policy fs b).1 (r2_contributions fs h)

any_above :
    (policy : TierPolicy) (fs : List Finding)
    → All (λ f. tier_index (contribution policy f) ≤ 2) fs
    → any (λ f. ltb 2 (tier_index (contribution policy f))) fs ≡ false
any_above policy [] h = refl
any_above policy (f ∷ fs) h = ground (arith, h, any_above policy fs h.1)

-- One finding that contributes `high` makes the tier `high`, whatever the others are and whether or
-- not rules were unavailable.
pub tier_of-high :
    (policy : TierPolicy) (fs : List Finding) (b : Bool)
    → any (λ f. ltb 2 (tier_index (contribution policy f))) fs ≡ true
    → tier_of policy fs b ≡ high
tier_of-high policy fs b h =
    let (down, up) = highest-le_iff policy 1 2 fs in
    let e = fold_tier_index policy low fs in
    (tier_of_high policy fs b).1
      (λ small. cc (any_above policy fs (down (omega (arith, small, e))).1, h))
