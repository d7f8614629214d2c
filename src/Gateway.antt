-- ===== src/Gateway.antt =====
-- packages/operational-layer/src/gateway/client.ts: a GraphQL query of one pinned deployment. The
-- funding's headers and its fetch are parameters, by what they answer.
pub mod Queries
pub mod Liveness
mod Tests
use Prim.Native.String
use Prim.Native.Char.{code}
use presign.Prelude.{
  ℕ, String, Bool, true, false, ◌&&◌, ◌||◌, Option, none, some, List, [], ◌∷◌, map, leb, eqb, not,
  if◌then◌else◌, text_of, decimal, count_chars, is_empty,
}
use presign.Types.{Settled, value, rejected}
use presign.Approvals.{join}
use presign.Funding.{Decoders, payment_refusal_reason}

abbrev pub default_timeout_ms : ℕ
default_timeout_ms = 3000

-- GatewayQueryError with its fields, or an error that another call threw.
pub data QueryError : Type 0 where
  -- the deployment, the message, the HTTP status and the GraphQL errors
  query_error : String → String → Option ℕ → List String → QueryError
  thrown : String → QueryError

pub data Answer {ℓ} (A : Type ℓ) : Type ℓ where
  answered : A → Answer A
  failed : QueryError → Answer A

-- The message that the constructor of GatewayQueryError makes.
unfoldable pub gateway_query_error : String → String → Option ℕ → List String → QueryError
unfolding text_of
gateway_query_error deployment message status errors =
    query_error deployment
      (text_of ("gateway query for " ∷ deployment ∷ " failed: " ∷ message ∷ [])) status errors

-- [A-Za-z0-9]
unfoldable pub is_alphanumeric : ℕ → Bool
is_alphanumeric c =
    (leb b'0' c && leb c b'9') || (leb b'A' c && leb c b'Z') || (leb b'a' c && leb c b'z')

-- /^[A-Za-z0-9]{4,80}$/
unfoldable pub is_deployment_id : String → Bool
unfolding is_alphanumeric count_chars
is_deployment_id id =
    leb 4 (String.count id)
    && leb (String.count id) 80
    && eqb (count_chars is_alphanumeric id) (String.count id)

-- An entry of a body's `errors`: an object with a text as its message, or what JSON.stringify makes
-- of anything else.
pub data ErrorEntry : Type 0 where
  message : String → ErrorEntry
  stringified : String → ErrorEntry

abbrev entry_text : ErrorEntry → String
entry_text (message s) = s
entry_text (stringified s) = s

-- A JSON body; `errors` is absent unless it is an array, and `data` is absent where it is null.
pub data Body (A : Type 0) : Type 0 where
  null_body : Body A
  body : Option (List ErrorEntry) → Option A → Body A

-- readGraphQLErrors
unfoldable pub read_graphql_errors : Option (List ErrorEntry) → List String
read_graphql_errors none = []
read_graphql_errors (some entries) = map entry_text entries

pub record Response (A : Type 0) : Type 0 where
  pub status : ℕ
  pub ok : Bool
  pub payment_required : Option String
  pub json : Settled (Body A)

-- The client: its funding's `url`, `headers` and fetch, the last by the endpoint that it is sent to.
pub record GatewayClient (A : Type 0) : Type 0 where
  pub url : String → String → String
  pub headers : Settled (List (String × String))
  pub fetch : String → List (String × String) → Settled (Response A)
  pub base_url : String

abbrev reason_text : Option String → String
reason_text none = "payment was refused and the gateway gave no reason"
reason_text (some reason) = text_of ("payment was refused: " ∷ reason ∷ [])

module _ {A : Type 0} where
  -- The rest of `query`, from the body on: errors are looked for before the status.
  unfoldable pub read_body : String → Response A → Body A → Answer A
  unfolding read_graphql_errors gateway_query_error join text_of decimal
  read_body deployment r null_body =
      failed (thrown "Cannot read properties of null (reading 'errors')")
  read_body deployment r (body errors data_found) =
      let found = read_graphql_errors errors in
      if not (is_empty found)
      then failed (gateway_query_error deployment (join "; " found) (some r.status) found)
      else if not r.ok
      then failed (
          gateway_query_error deployment (text_of ("HTTP " ∷ decimal r.status ∷ [])) (some r.status)
            [])
      else elim data_found [
        | none ↦
            failed (gateway_query_error deployment "response carried no data" (some r.status) [])
        | some d ↦ answered d
      ]

  -- The rest of `query`, from the response on.
  unfoldable pub read_response : Decoders → String → Response A → Answer A
  unfolding read_body gateway_query_error payment_refusal_reason
  read_response decoders deployment r =
      if eqb r.status 402
      then failed (
          gateway_query_error deployment
            (reason_text (payment_refusal_reason decoders r.payment_required)) (some 402) [])
      else elim r.json [
        | rejected e ↦
            failed (gateway_query_error deployment "response was not JSON" (some r.status) [])
        | value b ↦ read_body deployment r b
      ]

  -- deploymentUrl, which throws on what is not a deployment id
  unfoldable pub deployment_url : GatewayClient A → String → Answer String
  unfolding gateway_query_error is_deployment_id
  deployment_url client deployment =
      if is_deployment_id deployment
      then answered (client.url client.base_url deployment)
      else failed (gateway_query_error deployment "not a deployment id" none [])

  -- The rest of `query`, from the endpoint on.
  unfoldable pub send :
      Decoders → GatewayClient A → String → List (String × String) → Answer String → Answer A
  unfolding read_response gateway_query_error
  send decoders client deployment headers (failed e) = failed e
  send decoders client deployment headers (answered url) =
      elim (client.fetch url (("Content-Type", "application/json") ∷ headers)) [
        | rejected e ↦ failed (gateway_query_error deployment e none [])
        | value r ↦ read_response decoders deployment r
      ]

  -- query
  unfoldable pub query : Decoders → GatewayClient A → String → Answer A
  unfolding send deployment_url
  query decoders client deployment = elim client.headers [
    | rejected e ↦ failed (thrown e)
    | value headers ↦ send decoders client deployment headers (deployment_url client deployment)
  ]
