-- ===== src/Gateway/Queries.antt =====
-- When a query of the gateway has an answer.
use presign.Prelude.{
  ◌≡◌, ◌↔◌, refl, sym, ap, ◌∙◌, String, Bool, true, false, Option, some, List, [], ◌∷◌, eqb, not,
  is_empty, if◌then◌else◌, inl, inr, Bool-cases, Option-cases,
}
use presign.Types.{Settled, value, rejected, Settled-cases}
use presign.Funding.{Decoders}
use presign.Gateway.{
  answered, failed, QueryError, ErrorEntry, gateway_query_error, Body, body, null_body, Response,
  GatewayClient, is_deployment_id, read_graphql_errors, read_body, read_response, deployment_url,
  send, query,
}

empty_nil : (l : List String) → is_empty l ≡ true → l ≡ []
empty_nil [] h = refl
empty_nil (x ∷ l) h = cc

read_if : {B : Type 0} (x y : B) (b : Bool) → b ≡ false → (if b then x else y) ≡ y
read_if x y b h = rw h refl

taken_if : {B : Type 0} (x y : B) (b : Bool) → b ≡ true → (if b then x else y) ≡ x
taken_if x y b h = rw h refl

module _ {A : Type 0} where
  not-answered : (e : QueryError) (d : A) → ¬ (failed e ≡ answered d)
  not-answered e d h = cc h

  answered_injective : {c d : A} → answered c ≡ answered d → c ≡ d
  answered_injective h = cc h

  -- A response that holds the data: not a refused payment, and a JSON object without an error, with a
  -- status of success and with the data.
  abbrev pub Holds : Response A → A → Type 0
  Holds r d =
      (eqb r.status 402 ≡ false)
      × ((errors : Option (List ErrorEntry)) × (r.json ≡ value (body errors (some d)))
          × (read_graphql_errors errors ≡ []))
      × (r.ok ≡ true)

  read_body_holds :
      (deployment : String) (r : Response A) (b : Body A) (d : A)
      → read_body deployment r b ≡ answered d
      → (errors : Option (List ErrorEntry)) × (b ≡ body errors (some d))
        × (read_graphql_errors errors ≡ [])
        × (r.ok ≡ true)
  unfolding read_body
  read_body_holds deployment r null_body d h = absurd (not-answered _ d h)
  read_body_holds deployment r (body errors found) d h =
      elim (Bool-cases (is_empty (read_graphql_errors errors))) [
        | inr some_errors ↦ absurd (not-answered _ d (rw some_errors at h))
        | inl clean ↦ elim (Bool-cases r.ok) [
          | inr bad ↦ absurd (not-answered _ d (rw (clean, bad) at h))
          | inl good ↦ elim (Option-cases found) [
            | inl missing ↦ absurd (not-answered _ d (rw (clean, good, missing) at h))
            | inr (c, there) ↦
                let same : c ≡ d = answered_injective (rw (clean, good, there) at h) in
                (errors, ap (body errors) (there ∙ ap some same), empty_nil _ clean, good)
          ]
        ]
      ]

  holds_read_body :
      (deployment : String) (r : Response A) (errors : Option (List ErrorEntry)) (d : A)
      → read_graphql_errors errors ≡ []
      → r.ok ≡ true
      → read_body deployment r (body errors (some d)) ≡ answered d
  unfolding read_body
  holds_read_body deployment r errors d clean good =
      read_if _ _ _ (ap (λ l. not (is_empty l)) clean) ∙ read_if _ _ _ (ap not good)

  read_json :
      (deployment : String) (r : Response A) (j : Settled (Body A)) (d : A)
      → elim j [
        | rejected e ↦
            failed (gateway_query_error deployment "response was not JSON" (some r.status) [])
        | value b ↦ read_body deployment r b
      ]
        ≡ answered d
      → (b : Body A) × (j ≡ value b) × (read_body deployment r b ≡ answered d)
  read_json deployment r (rejected e) d h = absurd (not-answered _ d h)
  read_json deployment r (value b) d h = (b, refl, h)

  -- A response is read as data exactly where it holds that data.
  read_response_iff :
      (decoders : Decoders) (deployment : String) (r : Response A) (d : A)
      → (read_response decoders deployment r ≡ answered d) ↔ Holds r d
  unfolding read_response
  read_response_iff decoders deployment r d = (
    λ h. elim (Bool-cases (eqb r.status 402)) [
      | inl refused ↦ absurd (not-answered _ d (sym (taken_if _ _ _ refused) ∙ h))
      | inr unrefused ↦
          let (b, read, h') = read_json deployment r r.json d (sym (read_if _ _ _ unrefused) ∙ h) in
          let (errors, e, clean, good) = read_body_holds deployment r b d h' in
          (unrefused, (errors, read ∙ ap value e, clean), good)
    ],
    λ h.
        let (unrefused, (errors, read, clean), good) = h in
        read_if _ _ _ unrefused
        ∙ ap
            (λ j. elim j [
              | rejected e ↦
                  failed (gateway_query_error deployment "response was not JSON" (some r.status) [])
              | value b ↦ read_body deployment r b
            ])
            read
        ∙ holds_read_body deployment r errors d clean good,
  )

  -- A query is answered with data exactly where the funding gave its headers, the deployment's id is
  -- well formed, the fetch of its endpoint had a response, and that response holds the data: it is no refused
  -- payment, its body is JSON without a GraphQL error, and its status is one of success. A failure of
  -- authentication that comes with status 200 and an error is a failure.
  pub query_iff :
      (decoders : Decoders) (client : GatewayClient A) (deployment : String) (d : A)
      → (query decoders client deployment ≡ answered d) ↔ (
          (headers : List (String × String)) × (r : Response A) × (client.headers ≡ value headers)
          × (is_deployment_id deployment ≡ true)
          × (client.fetch
                (client.url client.base_url deployment)
                (("Content-Type", "application/json") ∷ headers)
              ≡ value r)
          × Holds r d)
  unfolding query send deployment_url
  query_iff decoders client deployment d = (
    λ h. elim (Settled-cases client.headers) [
      | inl (e, unfunded) ↦ absurd (not-answered _ d (rw unfunded at h))
      | inr (headers, funded) ↦ elim (Bool-cases (is_deployment_id deployment)) [
        | inr bad ↦ absurd (not-answered _ d (rw (funded, bad) at h))
        | inl good ↦
            elim (Settled-cases (
              client.fetch (client.url client.base_url deployment)
                (("Content-Type", "application/json") ∷ headers))) [
                  | inl (e, lost) ↦ absurd (not-answered _ d (rw (funded, good, lost) at h))
                  | inr (r, got) ↦ (
                    headers,
                    r,
                    funded,
                    good,
                    got,
                    (read_response_iff decoders deployment r d).0 (rw (funded, good, got) at h),
                  )
                ]
      ]
    ],
    λ h.
        let (headers, r, funded, good, got, holds) = h in
        rw (funded, good, got) ((read_response_iff decoders deployment r d).1 holds),
  )
