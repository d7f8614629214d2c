-- ===== src/Upgrades/Coverage.antt =====
-- Reconnecting leaves no hole in the window that an index has watched.
use presign.Prelude.{
  ℕ, ◌+◌, ◌≤◌, String, Option, none, some, List, [], ◌∷◌, ◌≡◌, refl, ap, arith, max, Option-cases,
  inl, inr, string_eq,
}
use presign.Types.{Settled-cases}
use presign.Upgrades.{
  ProxyUpgradeIndex, BlockData, StreamedEvent, UpgradeRecord, consume, connect, run, keep_running,
  begin, see_block, record_events, record_upgrade, start_block, to_upgrade_record, or_block,
  reconnect_min_ms,
}

-- As many blocks were counted as lie from the first seen to the last seen.
unfoldable pub IsContinuous : ProxyUpgradeIndex → Type 0
IsContinuous i = elim i.first_block_seen [
  | none ↦ (i.last_block_seen ≡ none) × (i.blocks ≡ 0)
  | some first ↦ elim i.last_block_seen [
    | none ↦ ⊥
    | some last ↦ (first ≤ last) × (first + i.blocks ≡ last + 1)
  ]
]

-- Blocks that follow each other from a start on, where the start is a number.
unfoldable pub Follow : Option ℕ → List BlockData → Type 0
Follow start [] = Unit
Follow none (b ∷ bs) = Follow (some (b.number + 1)) bs
Follow (some n) (b ∷ bs) = (b.number ≡ n) × Follow (some (b.number + 1)) bs

-- Every connection delivers consecutive blocks from the start it was asked for.
unfoldable pub Deliver : List (List BlockData × Option String) → ℕ → ProxyUpgradeIndex → Type 0
unfolding start_block connect
Deliver [] backoff i = Unit
Deliver ((blocks, ending) ∷ rest) backoff i =
    let after = connect blocks ending backoff i in
    Follow (start_block i) blocks × Deliver rest after.0 (record after.1 { failure = none })

-- A record is of the block it was made in.
to_upgrade_record-block :
    (e : StreamedEvent) (block timestamp : ℕ) (upgrade : UpgradeRecord)
    → to_upgrade_record e block timestamp ≡ some upgrade
    → upgrade.block ≡ block
unfolding to_upgrade_record
to_upgrade_record-block e block timestamp upgrade found = ground arith

-- What is recorded of a block leaves the counters as the block left them.
Counters : ProxyUpgradeIndex → ℕ → ℕ → ℕ → Type 0
Counters i first block blocks =
    (i.first_block_seen ≡ some first) × (i.last_block_seen ≡ some block) × (i.blocks ≡ blocks)

max_same : (n : ℕ) → max n n ≡ n
max_same n = omega arith

record_upgrade-Counters :
    (i : ProxyUpgradeIndex) (first block blocks : ℕ) (upgrade : UpgradeRecord)
    → upgrade.block ≡ block
    → Counters i first block blocks
    → Counters (record_upgrade upgrade i) first block blocks
unfolding record_upgrade Counters
record_upgrade-Counters i first block blocks upgrade same (f, l, n) =
    (rw (record_upgrade, f) refl, rw (record_upgrade, l, same) (ap some (max_same block)), n)

record_events-Counters :
    (block timestamp : ℕ) (es : List StreamedEvent) (i : ProxyUpgradeIndex) (first blocks : ℕ)
    → Counters i first block blocks
    → Counters (record_events block timestamp es i) first block blocks
unfolding record_events
record_events-Counters block timestamp [] i first blocks held = held
record_events-Counters block timestamp (e ∷ es) i first blocks held =
    elim (Option-cases (to_upgrade_record e block timestamp)) [
      | inl absent ↦
          rw (record_events, absent) (record_events-Counters block timestamp es i first blocks held)
      | inr (upgrade, found) ↦
          rw (record_events, found)
            (record_events-Counters block timestamp es (record_upgrade upgrade i) first blocks (
              record_upgrade-Counters i first block blocks upgrade
                (to_upgrade_record-block e block timestamp upgrade found) held))
    ]

-- A state with a first and a last block, told by its counters.
Window : ℕ → ℕ → ℕ → Type 0
Window first block blocks = (first ≤ block) × (first + blocks ≡ block + 1)

Counters-IsContinuous :
    (i : ProxyUpgradeIndex) (first block blocks : ℕ)
    → Counters i first block blocks
    → Window first block blocks
    → IsContinuous i
unfolding IsContinuous Counters Window
Counters-IsContinuous i first block blocks (f, l, n) window = rw (f, l, n) window

see_block-Counters :
    (b : BlockData) (i : ProxyUpgradeIndex)
    → Counters (see_block b i) (or_block i.first_block_seen b.number) b.number (i.blocks + 1)
unfolding see_block Counters
see_block-Counters b i = (refl, refl, refl)

-- The first block of all opens the window, and any later one is the next of it.
see_block-Window :
    (b : BlockData) (bs : List BlockData) (i : ProxyUpgradeIndex)
    → IsContinuous i
    → Follow (start_block i) (b ∷ bs)
    → Window (or_block i.first_block_seen b.number) b.number (i.blocks + 1)
      × Follow (some (b.number + 1)) bs
unfolding IsContinuous start_block Follow Window
see_block-Window b bs i held follows = elim (Option-cases i.first_block_seen) [
  | inl f ↦ let (l, n) = rw f at held in rw (f, n) ((omega arith, omega arith), rw l at follows)
  | inr (first, f) ↦ elim (Option-cases i.last_block_seen) [
    | inl l ↦ elim (rw (f, l) at held) [ ]
    | inr (last, l) ↦
        let (below, count) = rw (f, l) at held in
        let (next, more) = rw l at follows in rw f ((omega arith, omega arith), more)
  ]
]

-- After a block that was read, the next one is asked for.
Counters-start_block :
    (i : ProxyUpgradeIndex) (first block blocks : ℕ)
    → Counters i first block blocks
    → start_block i ≡ some (block + 1)
unfolding start_block Counters
Counters-start_block i first block blocks (f, l, n) = rw l refl

consume-IsContinuous :
    (bs : List BlockData) (ending : Option String) (i : ProxyUpgradeIndex)
    → IsContinuous i
    → Follow (start_block i) bs
    → IsContinuous (consume bs ending i).1
unfolding consume
consume-IsContinuous [] ending i held follows = held
consume-IsContinuous (b ∷ bs) ending i held follows =
    let (window, more) = see_block-Window b bs i held follows in
    let first = or_block i.first_block_seen b.number in
    let seen = see_block-Counters b i in
    elim (Settled-cases b.output) [
      | inl (e, broken) ↦
          rw (consume, broken)
            (Counters-IsContinuous (see_block b i) first b.number (i.blocks + 1) seen window)
      | inr (events, decoded) ↦
          let after = record_events b.number b.timestamp events (see_block b i) in
          let counters =
            record_events-Counters b.number b.timestamp events (see_block b i) first (i.blocks + 1)
              seen in
          rw (consume, decoded)
            (consume-IsContinuous bs ending after
              (Counters-IsContinuous after first b.number (i.blocks + 1) counters window)
              (rw (Counters-start_block after first b.number (i.blocks + 1) counters) more))
    ]

connect-IsContinuous :
    (bs : List BlockData) (ending : Option String) (backoff : ℕ) (i : ProxyUpgradeIndex)
    → IsContinuous i
    → Follow (start_block i) bs
    → IsContinuous (record (connect bs ending backoff i).1 { failure = none })
unfolding connect IsContinuous
connect-IsContinuous bs ending backoff i held follows =
    let after = consume-IsContinuous bs ending i held follows in
    elim (Option-cases (consume bs ending i).0) [
      | inl clean ↦ rw (connect, clean) after
      | inr (e, failed) ↦ rw (connect, failed) after
    ]

keep_running-IsContinuous :
    (connections : List (List BlockData × Option String)) (backoff : ℕ) (i : ProxyUpgradeIndex)
    → IsContinuous i
    → Deliver connections backoff i
    → IsContinuous (keep_running connections backoff i).1
unfolding keep_running Deliver
keep_running-IsContinuous [] backoff i held delivered = held
keep_running-IsContinuous ((bs, ending) ∷ rest) backoff i held (follows, delivered) =
    let after = connect bs ending backoff i in
    keep_running-IsContinuous rest after.0 (record after.1 { failure = none })
      (connect-IsContinuous bs ending backoff i held follows) delivered

-- From an index without a hole, and where each connection delivers consecutive blocks from the start it
-- was asked for, the blocks counted are as many as lie between the first seen and the last seen.
pub run-IsContinuous :
    (connections : List (List BlockData × Option String)) (i : ProxyUpgradeIndex)
    → IsContinuous i
    → Deliver connections reconnect_min_ms (begin i)
    → IsContinuous (run connections i)
unfolding run begin IsContinuous
run-IsContinuous connections i held delivered =
    keep_running-IsContinuous connections reconnect_min_ms (begin i) held delivered
