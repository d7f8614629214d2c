-- ===== src/Conformance.antt =====
-- packages/operational-layer/src/probes/conformance.ts: which fields a deployment answers. The gateway
-- is a parameter; its three documents are the three fields of `Gateway`.
pub mod Answers
mod Tests
use presign.Prelude.{
  ℕ, String, Bool, true, false, ◌&&◌, ◌||◌, Option, none, some, List, [], ◌∷◌, if◌then◌else◌, ◌==◌,
  string_eq, filter, includes, is_empty, not, every, leb, eqb, length,
}
use presign.Types.{Settled, value, rejected}
use presign.JsMap.{unique}
use presign.Capability.{ConformanceReport}
use Prim.Native.String
use Prim.Native.Char.{code}

-- What `query` does: it returns, or it throws a `GatewayQueryError`, or it throws another error.
pub data Reply {ℓ} (A : Type ℓ) : Type ℓ where
  answer : A → Reply A
  query_error : String → Reply A
  other_error : String → Reply A

-- A type reference by its `name` and its `ofType`. A name that is no text is absent.
pub data TypeRef : Type 0 where
  innermost : Option String → TypeRef
  wrapper : Option String → TypeRef → TypeRef

pub record Gateway : Type 0 where
  -- QUERY_TYPE_INTROSPECTION: the fields of the query type; none where the response has no such part
  pub query_type : String → Reply (List (String × Option TypeRef))
  -- the document `EntityFields`: the names that are texts
  pub entity_fields : String → String → Reply (List String)
  -- `{ root(first: 1) { field … } }`
  pub ask : String → String → List String → Reply {0} Unit

-- A name that is a text and not empty.
abbrev pub usable_name : Option String → Bool
usable_name none = false
usable_name (some name) = not (name == "")

unfoldable pub named_type : TypeRef → Option String
named_type (innermost name) = if usable_name name then name else none
named_type (wrapper name inner) = if usable_name name then name else named_type inner

-- [A-Za-z_], and with [0-9]
abbrev pub is_name_start : ℕ → Bool
is_name_start c = (leb b'A' c && leb c b'Z') || ((leb b'a' c && leb c b'z') || eqb c b'_')

abbrev pub is_name_part : ℕ → Bool
is_name_part c = is_name_start c || (leb b'0' c && leb c b'9')

unfoldable pub all_name_parts : String → Bool
all_name_parts String.[] = true
all_name_parts (String.◌∷◌ c s) = is_name_part (code c) && all_name_parts s

-- GRAPHQL_NAME
unfoldable pub is_graphql_name : String → Bool
unfolding all_name_parts
is_graphql_name String.[] = false
is_graphql_name (String.◌∷◌ c s) = is_name_start (code c) && all_name_parts s

-- `match === undefined ? new Set()` and `entityType === null`, else the type behind the root field.
unfoldable pub root_type : String → List (String × Option TypeRef) → Option String
unfolding named_type
root_type root [] = none
root_type root ((name, none) ∷ rest) = if name == root then none else root_type root rest
root_type root ((name, some ref) ∷ rest) =
    if name == root then named_type ref else root_type root rest

-- `query` in a place where nothing catches what it throws.
abbrev pub thrown {ℓ} : {A : Type ℓ} → Reply A → Settled A
thrown (answer a) = value a
thrown (query_error m) = rejected m
thrown (other_error m) = rejected m

-- #declaredFields
unfoldable pub declared_fields : Gateway → String → String → Settled (List String)
unfolding root_type unique
declared_fields g deployment root = elim (thrown (g.query_type deployment)) [
  | rejected e ↦ rejected e
  | value fields ↦ elim (root_type root fields) [
    | none ↦ value []
    | some entity ↦ elim (thrown (g.entity_fields deployment entity)) [
      | rejected e ↦ rejected e
      | value names ↦ value (unique names)
    ]
  ]
]

abbrev pub is_answer {ℓ} : {A : Type ℓ} → Reply A → Bool
is_answer (answer a) = true
is_answer (query_error m) = false
is_answer (other_error m) = false

-- Each field alone, after the whole document failed.
unfoldable pub ask_each : Gateway → String → String → List String → List String
unfolding unique
ask_each g deployment root fields =
    unique (filter (λ field. is_answer (g.ask deployment root (field ∷ []))) fields)

-- #answeredFields
unfoldable pub answered_fields : Gateway → String → String → List String → Settled (List String)
unfolding is_graphql_name ask_each unique
answered_fields g deployment root fields =
    if is_empty fields
    then value []
    else if every is_graphql_name (root ∷ fields)
    then elim (g.ask deployment root fields) [
      | answer done ↦ value (unique fields)
      | query_error m ↦
          if eqb (length fields) 1 then value [] else value (ask_each g deployment root fields)
      | other_error m ↦ value []
    ]
    else rejected "not GraphQL field names"

unfoldable pub check : Gateway → ℕ → String → String → List String → Settled ConformanceReport
unfolding declared_fields answered_fields
check g now deployment root fields = elim (declared_fields g deployment root) [
  | rejected e ↦ rejected e
  | value declared ↦
      elim (answered_fields g deployment root (filter (λ f. includes f declared) fields)) [
        | rejected e ↦ rejected e
        | value answered ↦ value (record {
          deployment_id = deployment;
          answers_fields = filter (λ f. includes f answered) fields;
          missing_fields = filter (λ f. not (includes f answered)) fields;
          checked_at = now;
        })
      ]
]
