-- ===== src/Origin/Search.antt =====
-- What an answer of `#search` is evidence of.
use presign.Prelude.{
  ℕ, zero, suc, ◌+◌, ◌-◌, ◌*◌, ◌/◌, ◌≤◌, ◌<◌, String, ◌≡◌, refl, sym, ap, ◌∙◌, ◌≢◌, Bool, true,
  false, ◌||◌, inl, inr, ◌⊎◌, arith, leb, ltb, eqb, Bool-cases,
}
use presign.Types.{Settled, value, Settled-cases}
use presign.Origin.{
  ContractOrigin, deployed, older_than, Block, Archive, horizon_from, horizon, bisect, below_wf,
  narrow, from_horizon, search, is_indeterminate, seconds_per_block, max_horizon_doublings,
}
use presign.Origin.Bisect.{bisect-IsEdge}

reached_cases : (n a b : ℕ) → (eqb n 0 || leb a b) ≡ true → (n ≡ 0) ⊎ (a ≤ b)
reached_cases n a b h = elim (Bool-cases (eqb n 0)) [
  | inl first ↦ inl (ground (arith, first))
  | inr later ↦ inr (ground (arith, later, h))
]

module _ (archive : Archive) (seconds : ℕ) (address : String) where
  abbrev coded_at : ℕ → Settled Bool
  coded_at = archive.has_code address

  narrow-deployed :
      (low high b t : ℕ)
      → low < high
      → coded_at low ≡ value false
      → coded_at high ≡ value true
      → narrow archive address low high ≡ deployed b t
      → (low < b)
        × (b ≤ high)
        × (coded_at b ≡ value true)
        × (coded_at (b - 1) ≡ value false)
        × ((block : Block) × (archive.block_at b ≡ value block) × (block.timestamp ≡ t))
  unfolding narrow
  narrow-deployed low high b t lt absent present h =
      elim (Settled-cases
        (bisect coded_at low high (high - low) (omega arith) (below_wf.apply (high - low)))) [
          | inl (e, failed) ↦ absurd (cc (rw (failed, narrow) at h))
          | inr (first, found) ↦
              let edge =
                bisect-IsEdge coded_at low high (high - low) (omega arith)
                  (below_wf.apply (high - low)) first lt absent present found in
              elim (Settled-cases (archive.block_at first)) [
                | inl (e, failed) ↦ absurd (cc (rw (found, failed, narrow) at h))
                | inr (block, read) ↦
                    let k = rw (found, read, narrow) at h in
                    let same : first ≡ b = cc k in
                    let time : block.timestamp ≡ t = cc k in
                    (
                      omega (arith, edge.0, same),
                      omega (arith, edge.1, same),
                      ap coded_at (sym same) ∙ edge.2,
                      ap (λ n. coded_at (n - 1)) (sym same) ∙ edge.3,
                      (block, ap archive.block_at (sym same) ∙ read, time),
                    )
              ]
        ]

  -- The block that `#horizon` gives was read, and it is the first block or old enough.
  abbrev pub IsHorizon : Block → Block → Type 0
  IsHorizon head block =
      (n : ℕ) × (n ≤ head.number)
      × (archive.block_at n ≡ value block)
      × ((n ≡ 0) ⊎ (block.timestamp + seconds ≤ head.timestamp))

  horizon_from-IsHorizon :
      (head block : Block) (span rounds : ℕ)
      → horizon_from archive seconds head span rounds ≡ value block
      → IsHorizon head block
  unfolding horizon_from
  horizon_from-IsHorizon head block span zero h = absurd (cc h)
  horizon_from-IsHorizon head block span (suc rounds) h =
      elim (Settled-cases (archive.block_at (head.number - span))) [
        | inl (e, failed) ↦ absurd (cc (rw (failed, horizon_from) at h))
        | inr (start, read) ↦
            elim (Bool-cases
              (eqb (head.number - span) 0 || leb (start.timestamp + seconds) head.timestamp)) [
                | inl reached ↦
                    let same : start ≡ block = cc (rw (read, reached, horizon_from) at h) in
                    (
                      head.number - span,
                      omega arith,
                      read ∙ ap value same,
                      reached_cases (head.number - span) (block.timestamp + seconds) head.timestamp
                          (ap
                              (λ (x : Block).
                                eqb (head.number - span) 0
                                || leb (x.timestamp + seconds) head.timestamp)
                              (sym same)
                            ∙ reached),
                    )
                | inr early ↦
                    horizon_from-IsHorizon head block (span * 2) rounds
                      (rw (read, early, horizon_from) at h)
              ]
      ]

  horizon-IsHorizon :
      (head block : Block) → horizon archive seconds head ≡ value block → IsHorizon head block
  unfolding horizon
  horizon-IsHorizon head block h =
      horizon_from-IsHorizon head block ((seconds + (seconds_per_block - 1)) / seconds_per_block)
        (suc max_horizon_doublings) h

-- The node answers a block's number with that block.
abbrev pub IsFaithful : Archive → Type 0
IsFaithful archive = (n : ℕ) (block : Block) → archive.block_at n ≡ value block → block.number ≡ n

below_head :
    (code : ℕ → Settled Bool) (low high : ℕ)
    → low ≤ high
    → code low ≡ value false
    → code high ≡ value true
    → low < high
below_head code low high le absent present = elim (Bool-cases (ltb low high)) [
  | inl lt ↦ ground (arith, lt)
  | inr ge ↦
      let same : low ≡ high = ground (arith, ge, le) in absurd (cc (ap code same, absent, present))
]

-- No block before an edge has code, where code never goes away again.
edge_first :
    (code : ℕ → Settled Bool) (b : ℕ)
    → code (b - 1) ≡ value false
    → ((n m : ℕ) → n ≤ m → code n ≡ value true → code m ≡ value true)
    → (n : ℕ) → n < b
    → code n ≢ value true
edge_first code b absent stays n lt coded =
    let later : code (b - 1) ≡ value true = stays n (b - 1) (omega arith) coded in
    cc (absent, later)

-- What `#search` had read before it looked for code at the horizon.
record Reached (archive : Archive) (seconds : ℕ) (address : String) (o : ContractOrigin)
    : Type 0 where
  head : Block
  start : Block
  top : archive.latest ≡ value head
  coded : archive.has_code address head.number ≡ value true
  from : IsHorizon archive seconds address head start
  rest : from_horizon archive address head (value start) ≡ o

search-Reached :
    (archive : Archive) (seconds : ℕ) (address : String) (o : ContractOrigin)
    → is_indeterminate o ≡ false
    → search archive seconds address ≡ o
    → Reached archive seconds address o
unfolding search
search-Reached archive seconds address o known h = elim (Settled-cases archive.latest) [
  | inl (e, failed) ↦ absurd (cc (ap is_indeterminate (rw (failed, search) at h), known))
  | inr (head, top) ↦ elim (Settled-cases (archive.has_code address head.number)) [
    | inl (e, failed) ↦ absurd (cc (ap is_indeterminate (rw (top, failed, search) at h), known))
    | inr (false, bare) ↦ absurd (cc (ap is_indeterminate (rw (top, bare, search) at h), known))
    | inr (true, coded) ↦ elim (Settled-cases (horizon archive seconds head)) [
      | inl (e, failed) ↦
          absurd (cc (ap is_indeterminate (rw (top, coded, failed, search) at h), known))
      | inr (start, reached) ↦ record {
        head = head;
        start = start;
        top = top;
        coded = coded;
        from = horizon-IsHorizon archive seconds address head start reached;
        rest = rw (top, coded, reached, search) at h;
      }
    ]
  ]
]

-- A measured origin is an edge: on a node that answers a number with that block, `deployed` names a
-- block at or before the head at which the address has code, with that block's own timestamp, and
-- the block before it lacks code.
pub search-deployed :
    (archive : Archive) (seconds : ℕ) (address : String) (b t : ℕ)
    → IsFaithful archive
    → search archive seconds address ≡ deployed b t
    → (archive.has_code address b ≡ value true)
      × (archive.has_code address (b - 1) ≡ value false)
      × ((block : Block) × (archive.block_at b ≡ value block) × (block.timestamp ≡ t))
      × ((head : Block) × (archive.latest ≡ value head) × (0 < b) × (b ≤ head.number))
unfolding from_horizon
search-deployed archive seconds address b t faithful h =
    let x = search-Reached archive seconds address (deployed b t) refl h in
    let (n, le, read, old) = x.from in
    let code = archive.has_code address in
    elim (Settled-cases (code x.start.number)) [
      | inl (e, failed) ↦ absurd (cc (rw (failed, from_horizon) at x.rest))
      | inr (true, present) ↦ absurd (cc (rw (present, from_horizon) at x.rest))
      | inr (false, absent) ↦
          let lt =
            below_head code x.start.number x.head.number
              (omega (arith, faithful n x.start read, le)) absent x.coded in
          let (above, within, has, lacks, time) =
            narrow-deployed archive seconds address x.start.number x.head.number b t lt absent
              x.coded (rw (absent, from_horizon) at x.rest) in
          (has, lacks, time, (x.head, x.top, omega (arith, above), within))
    ]

-- On such a node, where code that is there at a block is there at every later one, a measured origin is
-- the first: no earlier block has code at the address.
pub search-earliest :
    (archive : Archive) (seconds : ℕ) (address : String) (b t n : ℕ)
    → IsFaithful archive
    → ((i j : ℕ)
        → i ≤ j
        → archive.has_code address i ≡ value true
        → archive.has_code address j ≡ value true)
    → search archive seconds address ≡ deployed b t
    → n < b
    → archive.has_code address n ≢ value true
search-earliest archive seconds address b t n faithful stays h earlier =
    edge_first (archive.has_code address) b
      (search-deployed archive seconds address b t faithful h).1 stays n earlier

-- A bound is evidence too: `older_than` names a block at which the address has code, and that block
-- is the first of the chain or is as far behind the head as the search was asked to look.
pub search-older_than :
    (archive : Archive) (seconds : ℕ) (address : String) (b t : ℕ)
    → IsFaithful archive
    → search archive seconds address ≡ older_than b t
    → (archive.has_code address b ≡ value true)
      × ((head : Block) × (archive.latest ≡ value head)
          × ((b ≡ 0) ⊎ (t + seconds ≤ head.timestamp)))
unfolding from_horizon
search-older_than archive seconds address b t faithful h =
    let x = search-Reached archive seconds address (older_than b t) refl h in
    let (n, le, read, old) = x.from in
    elim (Settled-cases (archive.has_code address x.start.number)) [
      | inl (e, failed) ↦ absurd (cc (rw (failed, from_horizon) at x.rest))
      | inr (true, present) ↦
          let k = rw (present, from_horizon) at x.rest in
          let same : x.start.number ≡ b = cc k in
          let time : x.start.timestamp ≡ t = cc k in
          (
            ap (archive.has_code address) (sym same) ∙ present,
            (x.head, x.top, grind (arith, old, faithful n x.start read)),
          )
      | inr (false, absent) ↦ absurd (ground (arith, rw (absent, from_horizon) at x.rest))
    ]
