-- ===== src/LruMap/Laws.antt =====
-- A bounded cache: it never grows past its bound, holds each key once, and forgets only the entry
-- that was least recently used.
use presign.Prelude.{
  ℕ, suc, ◌+◌, ◌≤◌, ◌<◌, Bool, true, false, ◌&&◌, none, some, List, [], ◌∷◌, ◌++◌, ◌≡◌, refl, sym,
  ap, ◌∙◌, ltb, eqb, eqb_iff, not, if◌then◌else◌, Eq, ◌==◌, length, arith, Bool-cases, Option-cases,
  inl, inr, length-append,
}
use mathlib.Core.Path.{subst}
use presign.JsMap.{get, has, put, remove}
use presign.JsMap.Laws.{
  Distinct, has-true_of_some, has-remove_self, put_absent, length-remove-le, length-remove-has,
  remove-Distinct, put-Distinct, get-put, get-remove_ne, get-none_of_false,
}
use presign.LruMap.{LruMap, create, lru_get, lru_set, lru_delete, evict}

not_full : (a b : ℕ) → a ≤ b → eqb a b ≡ false → a < b
not_full a b h k = ground arith

module _ {ℓ κ} {K : Type ℓ} {V : Type κ} ⦃e : Eq K⦄ where
  pub record IsBounded (m : LruMap K V) : Type 0 where
    pub room : 1 ≤ m.max_entries
    pub within : length m.entries ≤ m.max_entries
    pub distinct : Distinct m.entries

  evict-within : (bound : ℕ) (m : List (K × V)) → length (evict bound m) ≤ bound
  unfolding evict
  evict-within bound [] = omega arith
  evict-within bound (x ∷ m) = ground (arith, evict-within bound m)

  evict-Distinct : (bound : ℕ) (m : List (K × V)) → Distinct m → Distinct (evict bound m)
  unfolding evict
  evict-Distinct bound [] d = tt
  evict-Distinct bound (x ∷ m) d = ground (arith, evict-Distinct bound m d.1)

  evict_small : (bound : ℕ) (m : List (K × V)) → length m ≤ bound → evict bound m ≡ m
  unfolding evict
  evict_small bound [] h = refl
  evict_small bound (x ∷ m) h = ground arith

  refresh-Distinct :
      (k : K) (v : V) (m : List (K × V)) → Distinct m → Distinct (put k v (remove k m))
  refresh-Distinct k v m d =
      put-Distinct k v (remove k m) (remove-Distinct k m d) (has-remove_self k m d)

  length-refresh :
      (k : K) (v : V) (m : List (K × V))
      → Distinct m
      → length (put k v (remove k m)) ≡ length (remove k m) + 1
  length-refresh k v m d =
      ap length (put_absent k v (remove k m) (has-remove_self k m d))
      ∙ length-append (remove k m) ((k, v) ∷ [])

  pub create-IsBounded : (n : ℕ) (m : LruMap K V) → create n ≡ some m → IsBounded m
  unfolding create
  create-IsBounded n m h =
      let empty : m.entries ≡ [] = ground arith in
      record {
        room = ground arith;
        within = ground arith;
        distinct = subst Distinct (sym empty) tt;
      }

  pub lru_set-IsBounded : (k : K) (v : V) (m : LruMap K V) → IsBounded m → IsBounded (lru_set k v m)
  unfolding lru_set
  lru_set-IsBounded k v m b = record {
    room = b.room;
    within = evict-within m.max_entries (put k v (remove k m.entries));
    distinct =
        evict-Distinct m.max_entries (put k v (remove k m.entries))
          (refresh-Distinct k v m.entries b.distinct);
  }

  refresh-within :
      (k : K) (v w : V) (m : List (K × V))
      → Distinct m
      → get k m ≡ some w
      → length (put k v (remove k m)) ≡ length m
  refresh-within k v w m d h =
      length-refresh k v m d ∙ length-remove-has k m (has-true_of_some k w m h)

  pub lru_get-IsBounded : (k : K) (m : LruMap K V) → IsBounded m → IsBounded (lru_get k m).1
  unfolding lru_get
  lru_get-IsBounded k m b = elim (Option-cases (get k m.entries)) [
    | inl missing ↦ rw (missing, lru_get) b
    | inr (v, found) ↦
        rw (found, lru_get)
          (record {
            room = b.room;
            within = omega (arith, refresh-within k v v m.entries b.distinct found, b.within);
            distinct = refresh-Distinct k v m.entries b.distinct;
          })
  ]

  pub lru_delete-IsBounded : (k : K) (m : LruMap K V) → IsBounded m → IsBounded (lru_delete k m).1
  unfolding lru_delete
  lru_delete-IsBounded k m b = record {
    room = b.room;
    within = omega (arith, length-remove-le k m.entries, b.within);
    distinct = remove-Distinct k m.entries b.distinct;
  }

  -- The key that stands first.
  abbrev pub is_first : K → List (K × V) → Bool
  is_first j [] = false
  is_first j (x ∷ m) = x.0 == j

  -- The least recently used key, which a full map forgets when a new key comes.
  abbrev pub forgets : LruMap K V → K → K → Bool
  forgets m k j =
      not (has k m.entries) && eqb (length m.entries) m.max_entries && is_first j m.entries

  get-snoc :
      (k j : K) (v : V) (m : List (K × V))
      → get j (m ++ (k, v) ∷ []) ≡ (if has j m then get j m else if k == j then some v else none)
  unfolding get has
  get-snoc k j v [] = refl
  get-snoc k j v ((i, w) ∷ m) = ground (arith, get-snoc k j v m)

  remove_absent : (k : K) (m : List (K × V)) → has k m ≡ false → remove k m ≡ m
  unfolding remove has
  remove_absent k [] h = refl
  remove_absent k ((i, w) ∷ m) h = ground (arith, remove_absent k m)

  get-snoc_first :
      (k j : K) (v : V) (x : K × V) (m : List (K × V))
      → Distinct (x ∷ m)
      → has k (x ∷ m) ≡ false
      → get j (m ++ (k, v) ∷ [])
        ≡ (if k == j then some v else if x.0 == j then none else get j (x ∷ m))
  unfolding get has
  get-snoc_first k j v x m d h = ground (
    arith,
    get-snoc k j v m,
    get-none_of_false j m,
    e.equals_iff x.0 j,
    e.equals_iff k j,
    e.equals_iff x.0 k,
  )

  -- A full map drops its first entry for a new one.
  get-evict_full :
      (k j : K) (v : V) (bound : ℕ) (m : List (K × V))
      → 1 ≤ bound
      → length m ≡ bound
      → Distinct m
      → has k m ≡ false
      → get j (evict bound (m ++ (k, v) ∷ []))
        ≡ (if k == j then some v else if is_first j m then none else get j m)
  unfolding evict
  get-evict_full k j v bound [] room full d h = absurd (omega arith)
  get-evict_full k j v bound (x ∷ m) room full d h =
      let n : length (m ++ (k, v) ∷ []) ≡ length m + 1 = length-append m ((k, v) ∷ []) in
      let over : ltb bound (suc (length (m ++ (k, v) ∷ []))) ≡ true = ground arith in
      rw over
        (rw (evict_small bound (m ++ (k, v) ∷ []) (omega arith)) (get-snoc_first k j v x m d h))

  -- What a lookup finds after a write: the value written at its key; at another key what it found
  -- before, except that a full map forgets its least recently used key when a new one comes.
  pub get-lru_set :
      (k j : K) (v : V) (m : LruMap K V)
      → IsBounded m
      → get j (lru_set k v m).entries
        ≡ (if k == j then some v else if forgets m k j then none else get j m.entries)
  unfolding lru_set
  get-lru_set k j v m b = elim (Bool-cases (has k m.entries)) [
    | inl old ↦
        let small : length (put k v (remove k m.entries)) ≤ m.max_entries = omega (
          arith,
          length-refresh k v m.entries b.distinct,
          length-remove-has k m.entries old,
          b.within,
        ) in
        rw (evict_small m.max_entries (put k v (remove k m.entries)) small)
          (get-put k j v (remove k m.entries) ∙ ground (arith, old, get-remove_ne k j m.entries))
    | inr new ↦
        let same : put k v (remove k m.entries) ≡ m.entries ++ (k, v) ∷ [] =
          ap (put k v) (remove_absent k m.entries new) ∙ put_absent k v m.entries new in
        elim (Bool-cases (eqb (length m.entries) m.max_entries)) [
          | inl full ↦
              rw (same, new, full)
                (get-evict_full k j v m.max_entries m.entries b.room ((eqb_iff _ _).0 full)
                  b.distinct new)
          | inr space ↦
              let fits : length (m.entries ++ (k, v) ∷ []) ≤ m.max_entries =
                omega (arith, length-append m.entries ((k, v) ∷ []), not_full _ _ b.within space) in
              rw (same, new, space, evict_small m.max_entries (m.entries ++ (k, v) ∷ []) fits)
                (get-snoc k j v m.entries
                  ∙ ground (arith, get-none_of_false j m.entries, e.equals_iff k j))
        ]
  ]
