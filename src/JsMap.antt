-- ===== src/JsMap.antt =====
-- JavaScript's `Map` and `Set`: entries in insertion order, one for each key.
pub mod Laws
use presign.Prelude.{
  ℕ, suc, Bool, true, false, Option, none, some, List, [], ◌∷◌, ◌++◌, if◌then◌else◌, Eq, ◌==◌,
  length, includes,
}

module _ {ℓ κ} {K : Type ℓ} {V : Type κ} ⦃e : Eq K⦄ where
  -- map.get(k)
  unfoldable pub get : K → List (K × V) → Option V
  get k [] = none
  get k ((j, v) ∷ m) = if j == k then some v else get k m

  -- map.has(k)
  unfoldable pub has : K → List (K × V) → Bool
  has k [] = false
  has k ((j, v) ∷ m) = if j == k then true else has k m

  -- map.set(k, v): a key that is there keeps its place.
  unfoldable pub put : K → V → List (K × V) → List (K × V)
  put k v [] = (k, v) ∷ []
  put k v ((j, w) ∷ m) = if j == k then (k, v) ∷ m else (j, w) ∷ put k v m

  -- map.delete(k)
  unfoldable pub remove : K → List (K × V) → List (K × V)
  remove k [] = []
  remove k ((j, w) ∷ m) = if j == k then m else (j, w) ∷ remove k m

-- map.keys().next() and map.delete of that key
unfoldable pub remove_first {ℓ κ} : {K : Type ℓ} {V : Type κ} → List (K × V) → List (K × V)
remove_first [] = []
remove_first (x ∷ m) = m

module _ {ℓ} {A : Type ℓ} ⦃e : Eq A⦄ where
  -- set.add(a)
  unfoldable pub add : List A → A → List A
  add s a = if includes a s then s else s ++ a ∷ []

  -- Adding every element of a list, in order.
  unfoldable pub add_all : List A → List A → List A
  add_all s [] = s
  add_all s (a ∷ rest) = add_all (add s a) rest

  -- [...new Set(list)]
  unfoldable pub unique : List A → List A
  unfolding add_all add
  unique xs = add_all [] xs
