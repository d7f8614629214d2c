-- ===== src/Pricing/Totals.antt =====
-- What is asked for is what the breakdown shows, for the rules requested.
use presign.Prelude.{
  ℕ, ◌+◌, String, ◌≡◌, refl, sym, ap, ◌∙◌, ◌&&◌, Bool, true, false, Option, List, [], ◌∷◌, arith,
  includes, Bool-cases, inl, inr, string_eq, filter, not, is_empty, ◌==◌,
}
use mathlib.Core.Path.{subst}
use presign.Types.{value}
use presign.Pricing.{Item, quote, metered_quote, rule_ids, select_rules}

abbrev pub sum_items : List Item → ℕ
sum_items [] = 0
sum_items (i ∷ is) = i.tinybars + sum_items is

quote_sum : (rules : List String) → (quote rules).tinybars ≡ sum_items (quote rules).breakdown
unfolding quote
quote_sum rules = elim (Bool-cases (includes "R3" rules)) [
  | inl r3 ↦ rw (r3, quote) refl
  | inr other ↦ rw (other, quote) refl
]

-- The price is the sum of the items shown, for a flat quote of any rules and for a metered quote of
-- any count.
pub breakdown_sums :
    (rules : List String) (deployments : Option ℕ)
    → ((quote rules).tinybars ≡ sum_items (quote rules).breakdown)
      × ((metered_quote deployments).tinybars ≡ sum_items (metered_quote deployments).breakdown)
unfolding metered_quote
breakdown_sums rules deployments = (quote_sum rules, omega arith)

keeps_exactly :
    (p : String → Bool) (xs : List String) (r : String)
    → includes r (filter p xs) ≡ (includes r xs && p r)
keeps_exactly p [] r = refl
keeps_exactly p (x ∷ xs) r = ground (arith, keeps_exactly p xs r, string_eq.equals_iff x r)

unknown_none :
    (xs : List String) (r : String)
    → is_empty (filter (λ s. not (includes s rule_ids)) xs) ≡ true
    → includes r xs ≡ true
    → includes r rule_ids ≡ true
unknown_none [] r e i = absurd (cc i)
unknown_none (x ∷ xs) r e i = elim (Bool-cases (includes x rule_ids)) [
  | inl known ↦ elim (Bool-cases (x == r)) [
    | inl same ↦ subst (λ s. includes s rule_ids ≡ true) ((string_eq.equals_iff x r).0 same) known
    | inr other ↦ unknown_none xs r (rw known at e) (rw other at i)
  ]
  | inr unknown ↦ absurd (cc (rw unknown at e))
]

-- Rules are never silently dropped or added: where a request is accepted, the rules quoted are
-- those requested.
pub select_rules_exact :
    (requested rules : List String) (r : String)
    → select_rules requested ≡ value rules
    → includes r rules ≡ includes r requested
unfolding select_rules
select_rules_exact requested rules r e =
    elim (Bool-cases (is_empty (filter (λ s. not (includes s rule_ids)) requested))) [
      | inl known ↦
          let k : filter (λ s. includes s requested) rule_ids ≡ rules =
            cc (rw (known, select_rules) at e) in
          ap (includes r) (sym k)
          ∙ keeps_exactly (λ s. includes s requested) rule_ids r
          ∙ both (includes r rule_ids) (includes r requested) (unknown_none requested r known)
      | inr unknown ↦ absurd (cc (rw (unknown, select_rules) at e))
    ]
  where
    both : (a b : Bool) → (b ≡ true → a ≡ true) → (a && b) ≡ b
    both true b h = refl
    both false true h = h refl
    both false false h = refl
