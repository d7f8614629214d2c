-- ===== src/LruMap/Uses.antt =====
-- Every map that a program can reach: it is created, and then used in any way.
use presign.Prelude.{ℕ, ◌≡◌, some, List, [], ◌∷◌, Eq}
use presign.LruMap.{LruMap, create, lru_get, lru_set, lru_delete}
use presign.LruMap.Laws.{
  IsBounded, create-IsBounded, lru_get-IsBounded, lru_set-IsBounded, lru_delete-IsBounded,
}

-- One call on a map.
pub data Use {ℓ κ} (K : Type ℓ) (V : Type κ) : Type (ℓ ⊔ κ) where
  get_use : K → Use K V
  set_use : K → V → Use K V
  delete_use : K → Use K V

module _ {ℓ κ} {K : Type ℓ} {V : Type κ} ⦃e : Eq K⦄ where
  unfoldable pub after_use : Use K V → LruMap K V → LruMap K V
  unfolding lru_get lru_set lru_delete
  after_use (get_use k) m = (lru_get k m).1
  after_use (set_use k v) m = lru_set k v m
  after_use (delete_use k) m = (lru_delete k m).1

  unfoldable pub after_uses : List (Use K V) → LruMap K V → LruMap K V
  unfolding after_use
  after_uses [] m = m
  after_uses (u ∷ us) m = after_uses us (after_use u m)

  after_use-IsBounded : (u : Use K V) (m : LruMap K V) → IsBounded m → IsBounded (after_use u m)
  unfolding after_use
  after_use-IsBounded (get_use k) m b = lru_get-IsBounded k m b
  after_use-IsBounded (set_use k v) m b = lru_set-IsBounded k v m b
  after_use-IsBounded (delete_use k) m b = lru_delete-IsBounded k m b

  uses_from : (us : List (Use K V)) (m : LruMap K V) → IsBounded m → IsBounded (after_uses us m)
  unfolding after_uses
  uses_from [] m b = b
  uses_from (u ∷ us) m b = uses_from us (after_use u m) (after_use-IsBounded u m b)

  -- Whatever is read, written and deleted, and in whatever order, a map that the constructor made
  -- holds each key once, has room for an entry, and never holds more entries than its bound.
  pub after_uses-IsBounded :
      (bound : ℕ) (m : LruMap K V) (us : List (Use K V))
      → create bound ≡ some m
      → IsBounded (after_uses us m)
  after_uses-IsBounded bound m us h = uses_from us m (create-IsBounded bound m h)
