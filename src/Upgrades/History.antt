-- ===== src/Upgrades/History.antt =====
-- What an index holds after any connections: the last upgrade of each proxy.
use presign.Prelude.{
  ℕ, String, Option, none, some, List, [], ◌∷◌, ◌≡◌, refl, sym, ap, arith, Option-cases, inl, inr,
  string_eq, ◌∙◌, Bool, true, false, ◌&&◌, every, if◌then◌else◌, ◌==◌,
}
use presign.Types.{Settled, Settled-cases, rejected, value}
use presign.JsMap.{get}
use presign.JsMap.Laws.{get-put}
use presign.Upgrades.{
  ProxyUpgradeIndex, BlockData, StreamedEvent, UpgradeRecord, consume, connect, run, keep_running,
  begin, see_block, record_events, record_upgrade, to_upgrade_record, reconnect_min_ms,
}
use presign.Upgrades.Coverage.{IsContinuous, Deliver, run-IsContinuous}

-- Every block that came could be decoded.
abbrev pub is_decoded : BlockData → Bool
is_decoded b = elim b.output [ rejected e ↦ false | value events ↦ true ]

abbrev pub all_decoded : List (List BlockData × Option String) → Bool
all_decoded [] = true
all_decoded ((blocks, ending) ∷ rest) = every is_decoded blocks && all_decoded rest

-- The last upgrade of a proxy among the events of one block, or what was known before.
abbrev pub last_of_events :
    String → ℕ → ℕ → List StreamedEvent → Option UpgradeRecord → Option UpgradeRecord
last_of_events p block timestamp [] before = before
last_of_events p block timestamp (e ∷ es) before = elim (to_upgrade_record e block timestamp) [
  | none ↦ last_of_events p block timestamp es before
  | some upgrade ↦
      last_of_events p block timestamp es (if upgrade.proxy == p then some upgrade else before)
]

abbrev pub events_of : BlockData → List StreamedEvent
events_of b = elim b.output [ rejected e ↦ [] | value events ↦ events ]

-- The same over the blocks of a connection, and over connections.
abbrev pub last_of_blocks : String → List BlockData → Option UpgradeRecord → Option UpgradeRecord
last_of_blocks p [] before = before
last_of_blocks p (b ∷ bs) before =
    last_of_blocks p bs (last_of_events p b.number b.timestamp (events_of b) before)

abbrev pub last_of :
    String → List (List BlockData × Option String) → Option UpgradeRecord → Option UpgradeRecord
last_of p [] before = before
last_of p ((blocks, ending) ∷ rest) before = last_of p rest (last_of_blocks p blocks before)

get-record_events :
    (p : String) (block timestamp : ℕ) (es : List StreamedEvent) (i : ProxyUpgradeIndex)
    → get p (record_events block timestamp es i).upgrades
      ≡ last_of_events p block timestamp es (get p i.upgrades)
unfolding record_events record_upgrade
get-record_events p block timestamp [] i = refl
get-record_events p block timestamp (e ∷ es) i =
    by_record (get-record_events p block timestamp es) (to_upgrade_record e block timestamp)
  where
    by_record :
        ((j : ProxyUpgradeIndex)
          → get p (record_events block timestamp es j).upgrades
            ≡ last_of_events p block timestamp es (get p j.upgrades))
        → (found : Option UpgradeRecord)
        → get p
            (elim found as (λ o. ProxyUpgradeIndex) [
              | none ↦ record_events block timestamp es i
              | some upgrade ↦ record_events block timestamp es (record_upgrade upgrade i)
            ]).upgrades
          ≡ elim found [
            | none ↦ last_of_events p block timestamp es (get p i.upgrades)
            | some upgrade ↦
                last_of_events p block timestamp es
                  (if upgrade.proxy == p then some upgrade else get p i.upgrades)
          ]
    by_record more none = more i
    by_record more (some upgrade) =
        more (record_upgrade upgrade i)
        ∙ ap (last_of_events p block timestamp es) (get-put upgrade.proxy p upgrade i.upgrades)

decoded_output :
    (b : BlockData) → is_decoded b ≡ true → (es : List StreamedEvent) × (b.output ≡ value es)
decoded_output b read = elim (Settled-cases b.output) [
  | inl (e, broken) ↦ absurd (cc (rw broken at read))
  | inr (es, decoded) ↦ (es, decoded)
]

consume_read :
    (b : BlockData) (bs : List BlockData) (ending : Option String) (i : ProxyUpgradeIndex)
    (es : List StreamedEvent)
    → b.output ≡ value es
    → consume (b ∷ bs) ending i
      ≡ consume bs ending (record_events b.number b.timestamp es (see_block b i))
unfolding consume
consume_read b bs ending i es decoded =
    let go : Settled (List StreamedEvent) → Option String × ProxyUpgradeIndex = λ o. elim o [
      | rejected e ↦ (some e, see_block b i)
      | value events ↦ consume bs ending (record_events b.number b.timestamp events (see_block b i))
    ] in
    ap go decoded

events_read : (b : BlockData) (es : List StreamedEvent) → b.output ≡ value es → events_of b ≡ es
events_read b es decoded =
    let go : Settled (List StreamedEvent) → List StreamedEvent =
      λ o. elim o [ rejected e ↦ [] | value events ↦ events ] in
    ap go decoded

get-consume :
    (p : String) (bs : List BlockData) (ending : Option String) (i : ProxyUpgradeIndex)
    → every is_decoded bs ≡ true
    → get p (consume bs ending i).1.upgrades ≡ last_of_blocks p bs (get p i.upgrades)
get-consume p [] ending i read = unfold consume in refl
get-consume p (b ∷ bs) ending i read =
    let (es, decoded) = decoded_output b (ground (arith, read)) in
    ap (λ (r : Option String × ProxyUpgradeIndex). get p r.1.upgrades)
      (consume_read b bs ending i es decoded)
    ∙ get-consume p bs ending (record_events b.number b.timestamp es (see_block b i))
        (ground (arith, read))
    ∙ ap (last_of_blocks p bs) (
        get-record_events p b.number b.timestamp es (see_block b i)
        ∙ unfold see_block in
          ap (λ l. last_of_events p b.number b.timestamp l (get p i.upgrades))
            (sym (events_read b es decoded)))

connect-upgrades :
    (bs : List BlockData) (ending : Option String) (backoff : ℕ) (i : ProxyUpgradeIndex)
    → (connect bs ending backoff i).1.upgrades ≡ (consume bs ending i).1.upgrades
unfolding connect
connect-upgrades bs ending backoff i = elim (Option-cases (consume bs ending i).0) [
  | inl clean ↦ rw (connect, clean) refl
  | inr (e, failed) ↦ rw (connect, failed) refl
]

get-keep_running :
    (p : String) (connections : List (List BlockData × Option String)) (backoff : ℕ)
    (i : ProxyUpgradeIndex)
    → all_decoded connections ≡ true
    → get p (keep_running connections backoff i).1.upgrades
      ≡ last_of p connections (get p i.upgrades)
unfolding keep_running
get-keep_running p [] backoff i read = refl
get-keep_running p ((blocks, ending) ∷ rest) backoff i read =
    let after = connect blocks ending backoff i in
    get-keep_running p rest after.0 (record after.1 { failure = none }) (ground (arith, read))
    ∙ ap (last_of p rest) (
        ap (get p) (connect-upgrades blocks ending backoff i)
        ∙ get-consume p blocks ending i (ground (arith, read)))

-- Reconnecting leaves no hole, as long as every block can be decoded. From an index whose window has
-- none, where each connection delivers consecutive blocks from the start it was asked for and however
-- each of them ends, the blocks counted are as many as lie between the first seen and the last seen,
-- both included; and for each proxy the index holds the last upgrade among all the events that those
-- blocks carried, or what it held before where they carry none of that proxy.
pub run_covers :
    (p : String) (connections : List (List BlockData × Option String)) (i : ProxyUpgradeIndex)
    → IsContinuous i
    → Deliver connections reconnect_min_ms (begin i)
    → all_decoded connections ≡ true
    → IsContinuous (run connections i)
      × (get p (run connections i).upgrades ≡ last_of p connections (get p i.upgrades))
run_covers p connections i held delivered read = (
  run-IsContinuous connections i held delivered,
  unfold run in unfold begin in get-keep_running p connections reconnect_min_ms (begin i) read,
)
