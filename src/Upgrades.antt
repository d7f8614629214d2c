-- ===== src/Upgrades.antt =====
-- packages/substreams/src/proxy-upgrades.ts: an index of proxy upgrades over a stream of blocks. What
-- the stream delivers in one connection is a parameter: its blocks, each with the moment it came and
-- the decoded events or the error of the decoding, and how the connection ends.
pub mod Coverage
pub mod History
mod Tests
use Prim.Native.String
use presign.Prelude.{
  ℕ, ◌+◌, ◌-◌, ◌*◌, ◌/◌, ◌%◌, ◌≤◌, String, Bool, true, false, ◌&&◌, Option, none, some, List, [],
  ◌∷◌, leb, eqb, not, max, min, if◌then◌else◌, ◌==◌, string_eq, lower, text_drop, length, every,
  is_empty,
}
use presign.Types.{Settled, value, rejected}
use presign.JsMap.{get, put}
use presign.Incidents.{is_hex}
use presign.Approvals.{hex_digit}
use presign.Effects.{is_none}
use presign.MutableLogic.{hex_char}

abbrev pub upgraded_topic : String
upgraded_topic = "0xbc7cd75a20ee27fd9adebab32041f755214dbc6bffa90cc0225b39da2e5c2d3b"

pub record UpgradeRecord : Type 0 where
  pub proxy : String
  pub implementation : String
  pub block : ℕ
  -- in seconds
  pub timestamp : ℕ
  pub tx_hash : String

-- `Buffer.toString("hex")`
unfoldable pub hex_of : List ℕ → String
unfolding hex_char
hex_of [] = ""
hex_of (b ∷ bs) = String.◌∷◌ (hex_char (b / 16)) (String.◌∷◌ (hex_char (b % 16)) (hex_of bs))

-- toHex, of bytes that may be absent
unfoldable pub to_hex : Option (List ℕ) → String
unfolding hex_of
to_hex none = "0x"
to_hex (some bytes) = String.◌++◌ "0x" (hex_of bytes)

-- The text of hexadecimal digits given as their codes, in lower case.
unfoldable pub digits_text : List ℕ → String
unfolding hex_char
digits_text [] = ""
digits_text (c ∷ cs) = String.◌∷◌ (hex_char (hex_digit c)) (digits_text cs)

-- The bytes past a leading `0x`.
unfoldable pub strip_prefix : List ℕ → List ℕ
strip_prefix (z ∷ x ∷ rest) =
    if eqb z b'0' && (if eqb x b'x' then true else eqb x b'X') then rest else z ∷ x ∷ rest
strip_prefix bytes = bytes

-- toTxHash: a text that matches the pattern has ASCII bytes alone
unfoldable pub to_tx_hash : Option (List ℕ) → String
unfolding strip_prefix digits_text to_hex is_hex
to_tx_hash none = "0x"
to_tx_hash (some bytes) =
    let digits = strip_prefix bytes in
    if is_empty bytes
    then "0x"
    else if eqb (length digits) 64 && every is_hex digits
    then String.◌++◌ "0x" (digits_text digits)
    else to_hex (some bytes)

-- topicToAddress: `slice(-40)` of the digits
unfoldable pub topic_to_address : Option (List ℕ) → String
unfolding hex_of text_drop
topic_to_address none = "0x"
topic_to_address (some bytes) =
    let digits = hex_of bytes in String.◌++◌ "0x" (text_drop (String.count digits - 40) digits)

-- StreamedEvent, with the first two topics of its log
pub record StreamedEvent : Type 0 where
  pub tx_hash : Option (List ℕ)
  pub address : Option (List ℕ)
  pub topic0 : Option (List ℕ)
  pub topic1 : Option (List ℕ)

-- toUpgradeRecord
unfoldable pub to_upgrade_record : StreamedEvent → ℕ → ℕ → Option UpgradeRecord
unfolding to_hex topic_to_address to_tx_hash
to_upgrade_record event block timestamp =
    let proxy = to_hex event.address in
    if not (to_hex event.topic0 == upgraded_topic)
    then none
    else if not (eqb (String.count proxy) 42)
    then none
    else some (record {
      proxy = proxy;
      implementation = topic_to_address event.topic1;
      block = block;
      timestamp = timestamp;
      tx_hash = to_tx_hash event.tx_hash;
    })

-- The state of a ProxyUpgradeIndex.
pub record ProxyUpgradeIndex : Type 0 where
  pub upgrades : List (String × UpgradeRecord)
  pub first_block_seen : Option ℕ
  pub last_block_seen : Option ℕ
  pub blocks : ℕ
  pub running : Bool
  pub last_block_at : Option ℕ
  pub failure : Option String

abbrev pub new_index : ProxyUpgradeIndex
new_index = record {
  upgrades = [];
  first_block_seen = none;
  last_block_seen = none;
  blocks = 0;
  running = false;
  last_block_at = none;
  failure = none;
}

-- `??` on a block's number
abbrev pub or_block : Option ℕ → ℕ → ℕ
or_block none n = n
or_block (some m) n = m

-- record, less the call of `onUpgrade`
unfoldable pub record_upgrade : UpgradeRecord → ProxyUpgradeIndex → ProxyUpgradeIndex
record_upgrade upgrade i = record i {
  upgrades = put upgrade.proxy upgrade i.upgrades;
  first_block_seen = some (or_block i.first_block_seen upgrade.block);
  last_block_seen = some (max (or_block i.last_block_seen 0) upgrade.block);
}

-- lastUpgrade
unfoldable pub last_upgrade : String → ProxyUpgradeIndex → Option UpgradeRecord
unfolding lower get
last_upgrade proxy i = get (lower proxy) i.upgrades

abbrev pub staleness_tolerance_ms : ℕ
staleness_tolerance_ms = 120000

-- live, of the `#running` of the code
unfoldable pub live : ℕ → ProxyUpgradeIndex → Bool
live now i = elim i.last_block_at [
  | none ↦ false
  | some at ↦ i.running && is_none i.failure && leb (now - at) staleness_tolerance_ms
]

-- One block of the stream: its clock, when it came, and its events or the error of their decoding.
pub record BlockData : Type 0 where
  pub number : ℕ
  pub timestamp : ℕ
  pub came_at : ℕ
  pub output : Settled (List StreamedEvent)

-- The loop over the events of a block.
unfoldable pub record_events : ℕ → ℕ → List StreamedEvent → ProxyUpgradeIndex → ProxyUpgradeIndex
unfolding to_upgrade_record record_upgrade
record_events block timestamp [] i = i
record_events block timestamp (e ∷ es) i = elim (to_upgrade_record e block timestamp) [
  | none ↦ record_events block timestamp es i
  | some upgrade ↦ record_events block timestamp es (record_upgrade upgrade i)
]

-- The counters of a block, before its events are read.
unfoldable pub see_block : BlockData → ProxyUpgradeIndex → ProxyUpgradeIndex
see_block b i = record i {
  blocks = i.blocks + 1;
  first_block_seen = some (or_block i.first_block_seen b.number);
  last_block_seen = some b.number;
  last_block_at = some b.came_at;
}

-- The loop of #run: the blocks that come, until the stream ends, or fails, or one cannot be decoded.
unfoldable pub consume :
    List BlockData → Option String → ProxyUpgradeIndex → Option String × ProxyUpgradeIndex
unfolding see_block record_events
consume [] ending i = (ending, i)
consume (b ∷ bs) ending i = elim b.output [
  | rejected e ↦ (some e, see_block b i)
  | value events ↦ consume bs ending (record_events b.number b.timestamp events (see_block b i))
]

-- `startBlockNum`: none for the configured start, which may be relative to the head
unfoldable pub start_block : ProxyUpgradeIndex → Option ℕ
start_block i = elim i.last_block_seen [ none ↦ none | some n ↦ some (n + 1) ]

abbrev pub reconnect_min_ms : ℕ
reconnect_min_ms = 2000

abbrev pub reconnect_max_ms : ℕ
reconnect_max_ms = 30000

-- The try of the loop of `run`: the wait that follows the connection, and the index through it.
unfoldable pub connect :
    List BlockData → Option String → ℕ → ProxyUpgradeIndex → ℕ × ProxyUpgradeIndex
unfolding consume
connect blocks ending backoff i = elim (consume blocks ending i).0 [
  | none ↦ (reconnect_min_ms, (consume blocks ending i).1)
  | some e ↦
      (min (backoff * 2) reconnect_max_ms, record (consume blocks ending i).1 { failure = some e })
]

-- The loop of `run` over its connections, each with its blocks and its end.
unfoldable pub keep_running :
    List (List BlockData × Option String) → ℕ → ProxyUpgradeIndex → ℕ × ProxyUpgradeIndex
unfolding connect
keep_running [] backoff i = (backoff, i)
keep_running ((blocks, ending) ∷ rest) backoff i =
    let after = connect blocks ending backoff i in
    keep_running rest after.0 (record after.1 { failure = none })

-- How `run` begins.
unfoldable pub begin : ProxyUpgradeIndex → ProxyUpgradeIndex
begin i = record i { running = true; failure = none }

-- run without a `stopBlock`, up to the connections given
unfoldable pub run : List (List BlockData × Option String) → ProxyUpgradeIndex → ProxyUpgradeIndex
unfolding keep_running begin
run connections i = (keep_running connections reconnect_min_ms (begin i)).1
