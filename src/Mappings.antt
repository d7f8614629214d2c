-- ===== src/Mappings.antt =====
-- packages/verdict-engine/src/simulation/mappings.ts: which storage slots an address can stand
-- behind. viem's `hexToBytes` and `keccak256` are parameters. An address has 20 bytes, so that the
-- 64-byte buffer is the padded key followed by the padded position.
pub mod Proofs
pub mod Tests
use presign.Prelude.{
  ℕ, zero, suc, ◌+◌, ◌/◌, ◌%◌, ◌^◌, ◌≤◌, String, Bool, true, false, ◌&&◌, ◌||◌, Option, none, some,
  List, [], ◌∷◌, ◌++◌, map, leb, ltb, if◌then◌else◌, ◌==◌, string_eq, lower, text_take, text_drop,
  count_chars, length, take,
}
use presign.Types.{UnsignedTransaction, StateDiff, AccountDiff}
use presign.JsMap.{put, add, add_all, unique}
use Prim.Native.String
use text.Mathlib.Text.{starts_with}

pub record Viem : Type 0 where
  pub hex_to_bytes : String → List ℕ
  pub keccak256 : List ℕ → String

abbrev pub max_mapping_slot : ℕ
max_mapping_slot = 32

abbrev pub max_address_candidates : ℕ
max_address_candidates = 512

abbrev min_nonzero_digits : ℕ
min_nonzero_digits = 16

abbrev address_padding : String
address_padding = "000000000000000000000000"

-- [0-9a-f]
unfoldable pub is_digit : ℕ → Bool
is_digit c = (leb b'0' c && leb c b'9') || (leb b'a' c && leb c b'f')

unfoldable pub is_nonzero : ℕ → Bool
is_nonzero c = if leb c b'0' then ltb c b'0' else true

-- One round of the scan, at the rest of the body from its offset on.
unfoldable pub address_at : String → Option String
unfolding is_digit is_nonzero count_chars text_take text_drop
address_at s =
    if starts_with s address_padding
    then (let digits = text_take 40 (text_drop 24 s) in
        if leb 40 (count_chars is_digit digits)
        then (if leb min_nonzero_digits (count_chars is_nonzero digits)
            then some (String.◌++◌ "0x" digits)
            else none)
        else none)
    else none

-- `offset += 2` while 64 digits are left.
unfoldable pub scan : List String → String → List String
scan found String.[] = found
scan found (String.◌∷◌ c String.[]) = found
scan found (String.◌∷◌ c (String.◌∷◌ d rest)) =
    let body : String = String.◌∷◌ c (String.◌∷◌ d rest) in
    scan
      (if leb 64 (String.count body)
        then elim (address_at body) [ none ↦ found | some a ↦ add found a ]
        else found)
      rest

unfoldable pub calldata_addresses : String → List String
unfolding scan address_at text_drop lower add
calldata_addresses calldata = scan [] (lower (text_drop 2 calldata))

pub record AddressCandidates : Type 0 where
  pub addresses : List String
  pub truncated : Bool

abbrev to_list : Option String → List String
to_list none = []
to_list (some a) = a ∷ []

abbrev pub accounts : List (String × AccountDiff) → List String
accounts m = map (λ e. lower e.0) m

-- Every address, before the bound.
unfoldable pub all_addresses : UnsignedTransaction → StateDiff → List String
all_addresses tx diff = unique (
    map lower (to_list tx.to)
    ++ accounts diff.pre
    ++ accounts diff.post
    ++ calldata_addresses tx.calldata)

unfoldable pub transaction_addresses : UnsignedTransaction → StateDiff → AddressCandidates
transaction_addresses tx diff =
    let all = all_addresses tx diff in
    record {
      addresses = take max_address_candidates all;
      truncated = ltb max_address_candidates (length all);
    }

pub record MappingEntry : Type 0 where
  pub key : String
  pub mapping_slot : ℕ

unfoldable pub zeros : ℕ → List ℕ
zeros zero = []
zeros (suc n) = 0 ∷ zeros n

-- `setUint32`, the most significant byte first
unfoldable pub uint32 : ℕ → List ℕ
uint32 n = (n / 2 ^ 24 % 256) ∷ (n / 2 ^ 16 % 256) ∷ (n / 2 ^ 8 % 256) ∷ (n % 256) ∷ []

module _ (viem : Viem) where
  -- writeWord
  unfoldable pub word : String → List ℕ
  unfolding zeros
  word address = zeros 12 ++ viem.hex_to_bytes address

  -- writePosition
  unfoldable pub position : ℕ → List ℕ
  unfolding zeros uint32
  position p = zeros 28 ++ uint32 p

  -- The slot of `mapping[key]` declared at `p`.
  unfoldable pub entry_slot : String → ℕ → String
  unfolding word position
  entry_slot key p = viem.keccak256 (word key ++ position p)

  -- The slot of `mapping[outer][key]` declared at `p`.
  unfoldable pub nested_slot : String → String → ℕ → String
  unfolding word position
  nested_slot outer key p =
      viem.keccak256 (word key ++ viem.hex_to_bytes (viem.keccak256 (word outer ++ position p)))

-- The loop `for p = first; rounds left` of one key, over the slot function of either shape.
unfoldable pub entries_of :
    (ℕ → String) → String → ℕ → ℕ → List (String × MappingEntry) → List (String × MappingEntry)
entries_of slot key first zero m = m
entries_of slot key first (suc rounds) m =
    entries_of slot key (first + 1) rounds
      (put (slot first) (record { key = key; mapping_slot = first }) m)

unfoldable pub entries_from :
    (String → ℕ → String)
    → List String
    → ℕ
    → List (String × MappingEntry)
    → List (String × MappingEntry)
unfolding entries_of put
entries_from slot [] max_slot m = m
entries_from slot (key ∷ keys) max_slot m =
    entries_from slot keys max_slot (entries_of (slot key) key 0 (suc max_slot) m)

module _ (viem : Viem) where
  unfoldable pub mapping_entries : List String → ℕ → List (String × MappingEntry)
  unfolding entries_from entry_slot
  mapping_entries keys max_slot = entries_from (entry_slot viem) keys max_slot []

  unfoldable pub nested_mapping_entries : String → List String → ℕ → List (String × MappingEntry)
  unfolding entries_from nested_slot
  nested_mapping_entries outer keys max_slot =
      entries_from (nested_slot viem outer) keys max_slot []
