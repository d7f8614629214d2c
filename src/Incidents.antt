-- ===== src/Incidents.antt =====
-- packages/verdict-engine/src/incidents/incident-registry.ts: addresses that a maintained list
-- names. The answer of `fetch` is a parameter: a response, or a rejection.
pub mod Refreshes
mod Tests
use Prim.Native.String
use text.Mathlib.Text.{starts_with}
use presign.Prelude.{
  ℕ, ◌+◌, ◌*◌, String, Bool, true, false, ◌&&◌, ◌||◌, Option, none, some, List, [], ◌∷◌, map, leb,
  eqb, if◌then◌else◌, ◌==◌, string_eq, lower, text_drop, count_chars, text_of, decimal, length,
  includes, is_empty, not,
}
use presign.Types.{Settled, value, rejected}
use presign.JsMap.{add, unique}

-- IncidentRegistryStatus; a moment is in milliseconds.
pub record Status : Type 0 where
  pub source : String
  pub url : Option String
  pub loaded : Bool
  pub entries : ℕ
  pub fetched_at : Option ℕ
  pub last_error : Option String
  pub note : String

-- IncidentRegistry, as a rule reads it
pub record IncidentRegistry : Type 0 where
  pub has : String → Bool
  pub status : Status

-- StaticIncidentRegistry
unfoldable pub static_registry : List String → String → IncidentRegistry
unfolding lower
static_registry addresses source =
    let set = unique (map lower addresses) in
    record {
      has = λ address. includes (lower address) set;
      status = record {
        source = source;
        url = none;
        loaded = true;
        entries = length set;
        fetched_at = none;
        last_error = none;
        note = "supplied by the operator, not fetched";
      };
    }

abbrev pub scam_sniffer_address_list : String
scam_sniffer_address_list =
    "https://raw.githubusercontent.com/scamsniffer/scam-database/main/blacklist/address.json"

-- [0-9a-fA-F]
unfoldable pub is_hex : ℕ → Bool
is_hex c = (leb b'0' c && leb c b'9') || (leb b'a' c && leb c b'f') || (leb b'A' c && leb c b'F')

-- /^0x[0-9a-fA-F]{40}$/
unfoldable pub is_address : String → Bool
unfolding is_hex count_chars text_drop
is_address s =
    starts_with s "0x" && eqb (String.count s) 42 && eqb (count_chars is_hex (text_drop 2 s)) 40

-- An entry of the array that the body holds, and the body.
pub data Entry : Type 0 where
  string_entry : String → Entry
  other_entry : Entry

pub data Body : Type 0 where
  array : List Entry → Body
  not_array : Body

pub record Response : Type 0 where
  pub ok : Bool
  pub status_code : ℕ
  pub json : Settled Body

-- The state of a ScamSnifferIncidentFeed.
pub record Feed : Type 0 where
  pub url : String
  pub addresses : List String
  pub fetched_at : Option ℕ
  pub last_error : Option String
  -- whether a timer is set
  pub timer : Bool

abbrev pub new_feed : Feed
new_feed = record {
  url = scam_sniffer_address_list;
  addresses = [];
  fetched_at = none;
  last_error = none;
  timer = false;
}

-- The loop over the entries.
unfoldable pub read_entries : List String → List Entry → List String
unfolding is_address lower add
read_entries next [] = next
read_entries next (other_entry ∷ es) = read_entries next es
read_entries next (string_entry s ∷ es) =
    read_entries (if is_address s then add next (lower s) else next) es

-- What the `try` of `refresh` reads from the answer, or throws.
unfoldable pub read_body : Settled Body → Settled (List String)
unfolding read_entries
read_body (rejected e) = rejected e
read_body (value not_array) = rejected "expected a JSON array of addresses"
read_body (value (array es)) =
    let next = read_entries [] es in
    if is_empty next then rejected "the list parsed to zero addresses" else value next

unfoldable pub read_answer : Settled Response → Settled (List String)
unfolding read_body text_of decimal
read_answer (rejected e) = rejected e
read_answer (value r) =
    if not r.ok then rejected (text_of ("HTTP " ∷ decimal r.status_code ∷ [])) else read_body r.json

-- refresh, at a moment and with the answer of the fetch
unfoldable pub refresh : ℕ → Settled Response → Feed → Feed
refresh now answer feed = elim (read_answer answer) [
  | value next ↦ record feed { addresses = next; fetched_at = some now; last_error = none }
  | rejected e ↦ record feed { last_error = some e }
]

unfoldable pub start : Feed → Feed
start feed = if feed.timer then feed else record feed { timer = true }

unfoldable pub stop : Feed → Feed
stop feed = if feed.timer then record feed { timer = false } else feed

abbrev is_some {ℓ} : {A : Type ℓ} → Option A → Bool
is_some none = false
is_some (some a) = true

-- The feed as a registry: `has` and `status`.
unfoldable pub feed_registry : Feed → IncidentRegistry
unfolding lower
feed_registry feed = record {
  has = λ address. includes (lower address) feed.addresses;
  status = record {
    source = "ScamSniffer scam-database";
    url = some feed.url;
    loaded = is_some feed.fetched_at;
    entries = length feed.addresses;
    fetched_at = feed.fetched_at;
    last_error = feed.last_error;
    note =
        "open data published with a seven-day delay; an address absent from it is not evidence of safety";
  };
}

-- What an option of a rule may hold.
pub data RegistryInput : Type 0 where
  not_configured : RegistryInput
  registry : IncidentRegistry → RegistryInput
  address_list : List String → RegistryInput

unfoldable pub to_incident_registry : RegistryInput → IncidentRegistry
to_incident_registry not_configured = static_registry [] "none configured"
to_incident_registry (registry r) = r
to_incident_registry (address_list addresses) = static_registry addresses "configured list"
