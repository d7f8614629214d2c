-- ===== src/Pricing/Tests.antt =====
-- Concrete quotes, and one count.
use presign.Prelude.{String, includes, ◌∷◌, ◌+◌, ◌*◌, ◌≡◌, refl, some, [], arith, string_eq}
use presign.Types.{rejected, value}
use presign.LruMap.{create}
use presign.LruMap.Laws.{create-IsBounded}
use presign.Pricing.{
  select_rules, metered_quote, base_tinybars, per_deployment_tinybars, priced, Meter, ask, answer,
  counted, price_of,
}
use presign.Pricing.Totals.{select_rules_exact}
use presign.Pricing.Memo.{ask-counted}

three_deployments : (metered_quote (some 3)).tinybars ≡ base_tinybars + per_deployment_tinybars * 3
unfolding metered_quote priced
three_deployments = refl

two_rules : select_rules ("R4" ∷ "R1" ∷ []) ≡ value ("R1" ∷ "R4" ∷ [])
unfolding select_rules
two_rules = refl

select_rules_exact_example :
    includes {A = String} "R4" ("R1" ∷ "R4" ∷ []) ≡ includes {A = String} "R4" ("R4" ∷ "R1" ∷ [])
select_rules_exact_example = select_rules_exact ("R4" ∷ "R1" ∷ []) ("R1" ∷ "R4" ∷ []) "R4" two_rules

abbrev meter : Meter
meter = record {
  ttl = 60000;
  failure_ttl = 5000;
  cache = record { entries = []; max_entries = 100 };
  inflight = [];
}

ask-counted_example :
    (ask "1:0xbb" 3000 (counted "1:0xbb" (rejected "timeout") 1000 meter).1).0
    ≡ answer (price_of (rejected "timeout"))
unfolding create
ask-counted_example =
    ask-counted "1:0xbb" (rejected "timeout") 1000 3000 meter
      (create-IsBounded 100 meter.cache refl) (omega arith)
