-- ===== src/Origin/Tests.antt =====
-- A chain of a hundred blocks, twelve seconds apart, with code from block 90 or from block 3 on.
use presign.Prelude.{
  ℕ, ◌+◌, ◌*◌, ◌≤◌, ◌<◌, ◌≡◌, ◌≢◌, ◌⊎◌, refl, true, false, [], arith, leb, string_eq,
}
use presign.Types.{value}
use presign.JsMap.{get}
use presign.Origin.{
  Archive, Block, Cache, deployed, older_than, search, from_horizon, horizon, horizon_from, narrow,
  bisect, below_wf, origin_of,
}
use presign.Origin.Search.{IsFaithful, search-deployed, search-older_than, search-earliest}
use presign.Origin.Memo.{IsSettled, origin_of-IsSettled}

abbrev block : ℕ → Block
block n = record { number = n; timestamp = n * 12 }

abbrev node : ℕ → Archive
node first = record {
  latest = value (block 100);
  block_at = λ n. value (block n);
  has_code = λ address n. value (leb first n);
}

young : search (node 90) 600 "0xa" ≡ deployed 90 1080
unfolding search from_horizon horizon horizon_from narrow bisect below_wf
    native.Mathlib.Decide.dec_lt
young = refl

old : search (node 3) 600 "0xa" ≡ older_than 50 600
unfolding search from_horizon horizon horizon_from
old = refl

faithful : (first : ℕ) → IsFaithful (node first)
faithful first n b h = cc h

search-deployed_example :
    ((node 90).has_code "0xa" 90 ≡ value true)
    × ((node 90).has_code "0xa" 89 ≡ value false)
    × ((b : Block) × ((node 90).block_at 90 ≡ value b) × (b.timestamp ≡ 1080))
    × ((head : Block) × ((node 90).latest ≡ value head) × (0 < 90) × (90 ≤ head.number))
search-deployed_example = search-deployed (node 90) 600 "0xa" 90 1080 (faithful 90) young

stays :
    (i j : ℕ)
    → i ≤ j
    → (node 90).has_code "0xa" i ≡ value true
    → (node 90).has_code "0xa" j ≡ value true
stays i j le h = ground (arith, le, h)

search-earliest_example : (node 90).has_code "0xa" 7 ≢ value true
search-earliest_example =
    search-earliest (node 90) 600 "0xa" 90 1080 7 (faithful 90) stays young (omega arith)

search-older_than_example :
    ((node 3).has_code "0xa" 50 ≡ value true)
    × ((head : Block) × ((node 3).latest ≡ value head)
        × ((◌≡◌ {A = ℕ} 50 0) ⊎ (600 + 600 ≤ head.timestamp)))
search-older_than_example = search-older_than (node 3) 600 "0xa" 50 600 (faithful 3) old

abbrev empty : Cache
empty = record { entries = []; max_entries = 4 }

nothing-IsSettled : IsSettled empty
unfolding get
nothing-IsSettled =
    (record { room = omega arith; within = omega arith; distinct = tt }, λ k v h. absurd (cc h))

origin_of-IsSettled_example : IsSettled (origin_of (node 90) 600 "0xA" empty).1
origin_of-IsSettled_example = origin_of-IsSettled (node 90) 600 "0xA" empty nothing-IsSettled
