-- ===== src/LruMap.antt =====
-- packages/verdict-engine/src/util/lru-map.ts: a `Map` whose insertion order is the order of use.
pub mod Laws
pub mod Uses
pub mod Reads
mod Tests
use presign.Prelude.{ℕ, Bool, Option, none, some, List, [], ◌∷◌, ltb, if◌then◌else◌, Eq, length}
use presign.JsMap.{get, has, put, remove}

pub record LruMap {ℓ κ} (K : Type ℓ) (V : Type κ) : Type (ℓ ⊔ κ) where
  pub entries : List (K × V)
  pub max_entries : ℕ

module _ {ℓ κ} {K : Type ℓ} {V : Type κ} ⦃e : Eq K⦄ where
  -- The constructor: none for the `RangeError` on a map with no room.
  unfoldable pub create : ℕ → Option (LruMap K V)
  create max_entries =
      if ltb max_entries 1 then none else some (record { entries = []; max_entries = max_entries })

  -- The value, and the map in which the entry is the most recently used.
  unfoldable pub lru_get : K → LruMap K V → Option V × LruMap K V
  unfolding get put remove
  lru_get key m = elim (get key m.entries) [
    | none ↦ (none, m)
    | some v ↦ (some v, record m { entries = put key v (remove key m.entries) })
  ]

  -- `while (size > max) delete(keys().next().value)`
  unfoldable pub evict : ℕ → List (K × V) → List (K × V)
  evict bound [] = []
  evict bound (x ∷ m) =
      let rest = evict bound m in if ltb bound (length (x ∷ m)) then rest else x ∷ m

  unfoldable pub lru_set : K → V → LruMap K V → LruMap K V
  unfolding evict put remove
  lru_set key v m = record m { entries = evict m.max_entries (put key v (remove key m.entries)) }

  unfoldable pub lru_has : K → LruMap K V → Bool
  unfolding has
  lru_has key m = has key m.entries

  unfoldable pub lru_delete : K → LruMap K V → Bool × LruMap K V
  unfolding has remove
  lru_delete key m = (has key m.entries, record m { entries = remove key m.entries })

  unfoldable pub size : LruMap K V → ℕ
  size m = length m.entries
