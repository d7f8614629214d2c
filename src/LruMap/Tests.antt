-- ===== src/LruMap/Tests.antt =====
-- A map with room for two.
use presign.Prelude.{ℕ, ◌≡◌, refl, String, none, [], ◌∷◌, arith, string_eq}
use presign.JsMap.{get, has}
use presign.LruMap.{LruMap, create, lru_get, lru_set}
use presign.LruMap.Uses.{get_use, set_use, delete_use, after_uses, after_uses-IsBounded}
use presign.LruMap.Laws.{IsBounded, get-lru_set}

abbrev empty : LruMap String ℕ
empty = record { entries = []; max_entries = 2 }

abbrev full : LruMap String ℕ
full = record { entries = ("a", 1) ∷ ("b", 2) ∷ []; max_entries = 2 }

use_order : (lru_set "c" 3 (lru_get "a" full).1).entries ≡ ("a", 1) ∷ ("c", 3) ∷ []
unfolding lru_set lru_get
use_order = refl

full-IsBounded : IsBounded full
unfolding has
full-IsBounded = record { room = omega arith; within = omega arith; distinct = (refl, (refl, tt)) }

after_uses-IsBounded_example : IsBounded (
    after_uses
      (set_use "a" 1 ∷ set_use "b" 2 ∷ get_use "a" ∷ set_use "c" 3 ∷ delete_use "a" ∷ [])
      empty)
unfolding create
after_uses-IsBounded_example =
    after_uses-IsBounded 2 empty
      (set_use "a" 1 ∷ set_use "b" 2 ∷ get_use "a" ∷ set_use "c" 3 ∷ delete_use "a" ∷ []) refl

get-lru_set_example : get "a" (lru_set "c" 3 full).entries ≡ none
unfolding has
get-lru_set_example = get-lru_set "c" "a" 3 full full-IsBounded
