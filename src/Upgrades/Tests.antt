-- ===== src/Upgrades/Tests.antt =====
-- An index over two connections: the first ends after an upgrade, the second at a block that cannot
-- be decoded.
use presign.Prelude.{string_eq, ℕ, String, Option, none, some, List, [], ◌∷◌, ◌≡◌, refl}
use presign.Prelude.{lower, text_drop}
use presign.JsMap.{get, put}
use presign.MutableLogic.{hex_char}
use presign.Types.{Settled, value, rejected}
use presign.Upgrades.{
  StreamedEvent, BlockData, ProxyUpgradeIndex, new_index, keep_running, begin, run, connect,
  consume, see_block, record_events, record_upgrade, to_upgrade_record, last_upgrade, start_block,
  to_tx_hash, topic_to_address, hex_of, to_hex,
}
use presign.Upgrades.History.{last_of, run_covers}
use presign.Upgrades.Coverage.{IsContinuous, Deliver, Follow}

abbrev topic : List ℕ
topic =
    188 ∷ 124 ∷ 215 ∷ 90 ∷ 32 ∷ 238 ∷ 39 ∷ 253 ∷ 154 ∷ 222 ∷ 186 ∷ 179 ∷ 32 ∷ 65 ∷ 247 ∷ 85 ∷ 33
    ∷ 77 ∷ 188 ∷ 107 ∷ 255 ∷ 169 ∷ 12 ∷ 192 ∷ 34 ∷ 91 ∷ 57 ∷ 218 ∷ 46 ∷ 92 ∷ 45 ∷ 59 ∷ []

abbrev address_of : ℕ → List ℕ
address_of n = 0 ∷ 0 ∷ 0 ∷ 0 ∷ 0 ∷ 0 ∷ 0 ∷ 0 ∷ 0 ∷ 0 ∷ 0 ∷ 0 ∷ 0 ∷ 0 ∷ 0 ∷ 0 ∷ 0 ∷ 0 ∷ 0 ∷ n ∷ []

abbrev event : StreamedEvent
event = record {
  tx_hash = none;
  address = some (address_of 171);
  topic0 = some topic;
  topic1 = some (0 ∷ 0 ∷ 0 ∷ 0 ∷ 0 ∷ 0 ∷ 0 ∷ 0 ∷ 0 ∷ 0 ∷ 0 ∷ 0 ∷ address_of 205);
}

abbrev block_of : ℕ → Settled (List StreamedEvent) → BlockData
block_of n output = record { number = n; timestamp = n; came_at = n; output = output }

abbrev connections : List (List BlockData × Option String)
connections =
    (block_of 7 (value []) ∷ block_of 8 (value (event ∷ [])) ∷ [], none)
    ∷ (block_of 9 (rejected "decode") ∷ [], none)
    ∷ []

abbrev final : ProxyUpgradeIndex
unfolding run keep_running begin
final = run connections new_index

abbrev upgraded_at : Option ℕ
unfolding last_upgrade lower get
upgraded_at = elim (last_upgrade "0x00000000000000000000000000000000000000AB" final) [
  | none ↦ none
  | some upgrade ↦ some upgrade.block
]

upgraded_at_eight : upgraded_at ≡ some 8
unfolding run keep_running begin connect consume see_block record_events record_upgrade
    to_upgrade_record to_hex hex_of hex_char topic_to_address text_drop to_tx_hash last_upgrade
    lower get put
upgraded_at_eight = refl

-- The events of the block that could not be decoded are never asked for again.
undecoded_skipped : start_block final ≡ some 10
unfolding start_block run keep_running begin connect consume see_block record_events record_upgrade
    to_upgrade_record to_hex hex_of hex_char topic_to_address text_drop to_tx_hash last_upgrade
    lower get put
undecoded_skipped = refl

abbrev readable : List (List BlockData × Option String)
readable =
    (block_of 7 (value []) ∷ block_of 8 (value (event ∷ [])) ∷ [], none)
    ∷ (block_of 9 (value []) ∷ [], some "reset")
    ∷ []

run_covers_example :
    IsContinuous (run readable new_index)
    × (get "0x00000000000000000000000000000000000000ab" (run readable new_index).upgrades
        ≡ last_of "0x00000000000000000000000000000000000000ab" readable none)
unfolding start_block IsContinuous Deliver Follow run keep_running begin connect consume see_block
    record_events record_upgrade to_upgrade_record to_hex hex_of hex_char topic_to_address text_drop
    to_tx_hash last_upgrade lower get put
run_covers_example =
    run_covers "0x00000000000000000000000000000000000000ab" readable new_index (refl, refl)
      ((refl, tt), ((refl, tt), tt)) refl
