-- ===== src/Conformance/Answers.antt =====
-- What a conformance report rests on.
use presign.Prelude.{
  ℕ, String, ◌≡◌, refl, sym, ap, ◌∙◌, Bool, true, ◌&&◌, List, [], ◌∷◌, arith, filter, includes,
  is_empty, not, every, eqb, length, string_eq, ◌==◌, Bool-cases, inl, inr, if◌then◌else◌,
}
use presign.Types.{Settled, value, rejected, Settled-cases}
use presign.JsMap.{unique}
use presign.JsMap.Laws.{includes-unique_iff}
use presign.Capability.{ConformanceReport}
use presign.Conformance.{
  Gateway, Reply, answer, query_error, other_error, is_answer, declared_fields, ask_each,
  answered_fields, check, is_graphql_name,
}

includes-filter :
    (p : String → Bool) (f : String) (xs : List String)
    → includes f (filter p xs) ≡ (includes f xs && p f)
includes-filter p f [] = refl
includes-filter p f (x ∷ xs) = elim (Bool-cases (x == f)) [
  | inl same ↦
      let path = (string_eq.equals_iff x f).0 same in
      rw path (ground (arith, includes-filter p f xs, (string_eq.equals_iff f f).1 refl))
  | inr other ↦ ground (arith, other, includes-filter p f xs)
]

-- A document that asked for the field, perhaps among others, and that the deployment answered.
abbrev pub IsAnswered : Gateway → String → String → String → Type 0
IsAnswered g deployment root f =
    (fields : List String) × (includes f fields ≡ true)
    × (is_answer (g.ask deployment root fields) ≡ true)

abbrev settled_or {ℓ} : {A : Type ℓ} → A → Settled A → A
settled_or a (value b) = b
settled_or a (rejected e) = a

module _ (g : Gateway) (deployment root f : String) where
  each_IsAnswered :
      (fields : List String)
      → includes f (ask_each g deployment root fields) ≡ true
      → IsAnswered g deployment root f
  unfolding ask_each
  each_IsAnswered fields h =
      let alone = λ (field : String). is_answer (g.ask deployment root (field ∷ [])) in
      let kept : includes f (filter alone fields) ≡ true =
        sym (includes-unique_iff f (filter alone fields)) ∙ h in
      let both = sym (includes-filter alone f fields) ∙ kept in
      (f ∷ [], ground (arith, (string_eq.equals_iff f f).1 refl), ground (arith, both))

  batch_IsAnswered :
      (fields : List String) (reply : Reply {0} Unit)
      → g.ask deployment root fields ≡ reply
      → includes f (
          settled_or [] (elim reply [
            | answer done ↦ value (unique fields)
            | query_error m ↦
                if eqb (length fields) 1
                then value []
                else value (ask_each g deployment root fields)
            | other_error m ↦ value []
          ]))
        ≡ true
      → IsAnswered g deployment root f
  batch_IsAnswered fields (answer done) asked h =
      (fields, sym (includes-unique_iff f fields) ∙ h, ap is_answer asked)
  batch_IsAnswered fields (query_error m) asked h = elim (Bool-cases (eqb (length fields) 1)) [
    | inl single ↦ absurd (cc (single, h))
    | inr several ↦ each_IsAnswered fields (ground (arith, several, h))
  ]
  batch_IsAnswered fields (other_error m) asked h = absurd (cc h)

  answered_fields-IsAnswered :
      (fields answered : List String)
      → answered_fields g deployment root fields ≡ value answered
      → includes f answered ≡ true
      → IsAnswered g deployment root f
  unfolding answered_fields
  answered_fields-IsAnswered fields answered h k =
      let there : includes f (settled_or [] (answered_fields g deployment root fields)) ≡ true =
        ap (λ s. includes f (settled_or [] s)) h ∙ k in
      elim (Bool-cases (is_empty fields)) [
        | inl empty ↦ absurd (cc (empty, there))
        | inr some_field ↦ elim (Bool-cases (every is_graphql_name (root ∷ fields))) [
          | inr bad ↦ absurd (cc (some_field, bad, h))
          | inl names ↦
              batch_IsAnswered fields (g.ask deployment root fields) refl
                (sym (rw (answered_fields, some_field, names) refl) ∙ there)
        ]
      ]

abbrev answers_of : Settled ConformanceReport → List String
answers_of (value report) = report.answers_fields
answers_of (rejected e) = []

-- The report that `check` makes of the answered fields.
abbrev report_of : Gateway → ℕ → String → List String → List String → ConformanceReport
report_of g now deployment fields answered = record {
  deployment_id = deployment;
  answers_fields = filter (λ f. includes f answered) fields;
  missing_fields = filter (λ f. not (includes f answered)) fields;
  checked_at = now;
}

-- A field that a conformance report lists as answered is one of the requirement, and the deployment
-- answered a document that asked for it: declaration in the schema alone is never the evidence.
pub check-answers :
    (g : Gateway) (now : ℕ) (deployment root : String) (fields : List String)
    (report : ConformanceReport)
    → check g now deployment root fields ≡ value report
    → (f : String) → includes f report.answers_fields ≡ true
    → (includes f fields ≡ true) × IsAnswered g deployment root f
unfolding check
check-answers g now deployment root fields report h f k =
    elim (Settled-cases (declared_fields g deployment root)) [
      | inl (e, failed) ↦ absurd (cc (failed, h))
      | inr (declared, found) ↦
          elim (Settled-cases
            (answered_fields g deployment root (filter (λ x. includes x declared) fields))) [
              | inl (e, failed) ↦ absurd (cc (found, failed, h))
              | inr (answered, asked) ↦
                  let done : check g now deployment root fields
                      ≡ value (report_of g now deployment fields answered) =
                    rw (check, found, asked) refl in
                  let same : report.answers_fields ≡ filter (λ x. includes x answered) fields =
                    ap answers_of (sym h ∙ done) in
                  let listed : includes f fields && includes f answered ≡ true =
                    sym (includes-filter (λ x. includes x answered) f fields)
                    ∙ ap (includes f) (sym same)
                    ∙ k in
                  (
                    ground (arith, listed),
                    answered_fields-IsAnswered g deployment root f
                        (filter (λ x. includes x declared) fields) answered asked
                        (ground (arith, listed)),
                  )
            ]
    ]
