-- ===== src/LruMap/Reads.antt =====
-- What holds of every value in a map, through reads and writes.
use mathlib.Core.Path.{subst}
use presign.Prelude.{◌≡◌, refl, sym, ap, ◌∙◌, some, Eq, ◌==◌, Bool-cases, Option-cases, inl, inr}
use presign.JsMap.{get, remove}
use presign.JsMap.Laws.{get-put, get-remove_ne}
use presign.LruMap.{LruMap, lru_get, lru_set}
use presign.LruMap.Laws.{IsBounded, forgets, get-lru_set}

module _ {ℓ κ} {K : Type ℓ} {V : Type κ} ⦃e : Eq K⦄ where
  -- A read changes the order of the entries and nothing else.
  pub get-lru_get : (k j : K) (m : LruMap K V) → get j (lru_get k m).1.entries ≡ get j m.entries
  unfolding lru_get
  get-lru_get k j m = elim (Option-cases (get k m.entries)) [
    | inl missing ↦ rw (missing, lru_get) refl
    | inr (v, found) ↦
        rw (found, lru_get)
          (get-put k j v (remove k m.entries) ∙ elim (Bool-cases (k == j)) [
            | inl same ↦
                let path = (e.equals_iff k j).0 same in
                rw same (sym found ∙ ap (λ i. get i m.entries) path)
            | inr other ↦ rw other (get-remove_ne k j m.entries other)
          ])
  ]

  -- A predicate at every value of a map.
  abbrev pub AllValues {μ} : (V → Type μ) → LruMap K V → Type (ℓ ⊔ κ ⊔ μ)
  AllValues P m = (k : K) (v : V) → get k m.entries ≡ some v → P v

  pub lru_get-AllValues {μ} :
      (P : V → Type μ) (k : K) (m : LruMap K V) → AllValues P m → AllValues P (lru_get k m).1
  lru_get-AllValues P k m h j v found = h j v (sym (get-lru_get k j m) ∙ found)

  pub lru_set-AllValues {μ} :
      (P : V → Type μ) (k : K) (v : V) (m : LruMap K V)
      → IsBounded m
      → P v
      → AllValues P m
      → AllValues P (lru_set k v m)
  lru_set-AllValues P k v m b p h j w found =
      let k' = sym (get-lru_set k j v m b) ∙ found in
      elim (Bool-cases (k == j)) [
        | inl same ↦ let path : v ≡ w = cc (rw same at k') in subst P path p
        | inr other ↦ elim (Bool-cases (forgets m k j)) [
          | inl lost ↦ absurd (cc (rw (other, lost) at k'))
          | inr kept ↦ h j w (rw (other, kept) at k')
        ]
      ]
