-- ===== src/Conformance/Tests.antt =====
-- A gateway that declares three fields and answers two of them.
use presign.Prelude.{
  ◌≡◌, refl, String, true, none, some, List, [], ◌∷◌, includes, string_eq, if◌then◌else◌,
}
use presign.Types.{value}
use presign.Capability.{ConformanceReport}
use presign.Conformance.{Gateway, answer, query_error, innermost, wrapper, check}
use presign.Conformance.Answers.{IsAnswered, check-answers}

abbrev gateway : Gateway
gateway = record {
  query_type = λ d. answer (("markets", some (wrapper none (innermost (some "Market")))) ∷ []);
  entity_fields = λ d e. answer ("id" ∷ "price" ∷ "owner" ∷ []);
  ask = λ d root fields. if includes "owner" fields then query_error "no owner" else answer tt;
}

abbrev fields : List String
fields = "id" ∷ "owner" ∷ "price" ∷ "tvl" ∷ []

abbrev report : ConformanceReport
report = record {
  deployment_id = "Qm";
  answers_fields = "id" ∷ "price" ∷ [];
  missing_fields = "owner" ∷ "tvl" ∷ [];
  checked_at = 3;
}

check_run : check gateway 3 "Qm" "markets" fields ≡ value report
unfolding check
check_run = refl

check-answers_example : (includes "price" fields ≡ true) × IsAnswered gateway "Qm" "markets" "price"
check-answers_example = check-answers gateway 3 "Qm" "markets" fields report check_run "price" refl
