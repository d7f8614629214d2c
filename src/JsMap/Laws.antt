-- ===== src/JsMap/Laws.antt =====
-- The laws of `Map`: lookups after writes, sizes, and keys that occur once.
use presign.JsMap.{get, has, put, remove, remove_first, add, add_all, unique}
use presign.Prelude.{
  ◌∙◌, ◌+◌, ◌≤◌, true, false, none, some, List, [], ◌∷◌, ◌++◌, ◌≡◌, refl, inl, inr, if◌then◌else◌,
  Eq, ◌==◌, length, includes, arith, eq_refl, Bool-cases,
}

module _ {ℓ κ} {K : Type ℓ} {V : Type κ} ⦃e : Eq K⦄ where
  pub get-put :
      (k j : K) (v : V) (m : List (K × V))
      → get j (put k v m) ≡ (if k == j then some v else get j m)
  unfolding get put
  get-put k j v [] = refl
  get-put k j v ((i, w) ∷ m) =
      ground (arith, e.equals_iff k j, e.equals_iff i k, e.equals_iff i j, get-put k j v m)

  pub get-put_self : (k : K) (v : V) (m : List (K × V)) → get k (put k v m) ≡ some v
  get-put_self k v m = rw get-put (rw (eq_refl k) refl)

  pub has-put :
      (k j : K) (v : V) (m : List (K × V)) → has j (put k v m) ≡ (if k == j then true else has j m)
  unfolding has put
  has-put k j v [] = refl
  has-put k j v ((i, w) ∷ m) =
      ground (arith, e.equals_iff k j, e.equals_iff i k, e.equals_iff i j, has-put k j v m)

  pub get-remove_ne : (k j : K) (m : List (K × V)) → (k == j) ≡ false → get j (remove k m) ≡ get j m
  unfolding get remove
  get-remove_ne k j [] h = refl
  get-remove_ne k j ((i, w) ∷ m) h =
      ground (arith, e.equals_iff k j, e.equals_iff i k, e.equals_iff i j, get-remove_ne k j m)

  pub get-none_of_false : (k : K) (m : List (K × V)) → has k m ≡ false → get k m ≡ none
  unfolding get has
  get-none_of_false k [] h = refl
  get-none_of_false k ((i, w) ∷ m) h = ground (arith, get-none_of_false k m)

  pub has-true_of_some : (k : K) (v : V) (m : List (K × V)) → get k m ≡ some v → has k m ≡ true
  unfolding get has
  has-true_of_some k v [] h = cc
  has-true_of_some k v ((i, w) ∷ m) h = ground (arith, has-true_of_some k v m)

  pub length-remove-le : (k : K) (m : List (K × V)) → length (remove k m) ≤ length m
  unfolding remove
  length-remove-le k [] = ground arith
  length-remove-le k ((i, w) ∷ m) = ground (arith, length-remove-le k m)

  pub length-remove-has :
      (k : K) (m : List (K × V)) → has k m ≡ true → length (remove k m) + 1 ≡ length m
  unfolding remove has
  length-remove-has k [] h = ground arith
  length-remove-has k ((i, w) ∷ m) h = ground (arith, length-remove-has k m)

  -- Every key occurs once.
  abbrev pub Distinct : List (K × V) → Type 0
  Distinct [] = Unit
  Distinct (x ∷ m) = (has x.0 m ≡ false) × Distinct m

  has-remove_le : (k j : K) (m : List (K × V)) → has j m ≡ false → has j (remove k m) ≡ false
  unfolding has remove
  has-remove_le k j [] h = refl
  has-remove_le k j ((i, w) ∷ m) h = ground (arith, has-remove_le k j m)

  pub remove-Distinct : (k : K) (m : List (K × V)) → Distinct m → Distinct (remove k m)
  unfolding remove
  remove-Distinct k [] d = tt
  remove-Distinct k ((i, w) ∷ m) d = ground (arith, remove-Distinct k m d.1, has-remove_le k i m)

  pub has-remove_self : (k : K) (m : List (K × V)) → Distinct m → has k (remove k m) ≡ false
  unfolding has remove
  has-remove_self k [] d = refl
  has-remove_self k ((i, w) ∷ m) d = ground (arith, e.equals_iff i k, has-remove_self k m d.1)

  pub has-append :
      (k : K) (m n : List (K × V)) → has k (m ++ n) ≡ (if has k m then true else has k n)
  unfolding has
  has-append k [] n = refl
  has-append k ((i, w) ∷ m) n = ground (arith, has-append k m n)

  pub get-append : (k : K) (m n : List (K × V)) → has k m ≡ false → get k (m ++ n) ≡ get k n
  unfolding has get
  get-append k [] n h = refl
  get-append k ((i, w) ∷ m) n h = ground (arith, get-append k m n)

  -- A new key comes last: it is not there, so `put` appends.
  pub put_absent :
      (k : K) (v : V) (m : List (K × V)) → has k m ≡ false → put k v m ≡ m ++ (k, v) ∷ []
  unfolding has put
  put_absent k v [] h = refl
  put_absent k v ((i, w) ∷ m) h = ground (arith, put_absent k v m)

  Distinct-snoc :
      (k : K) (v : V) (m : List (K × V))
      → Distinct m
      → has k m ≡ false
      → Distinct (m ++ (k, v) ∷ [])
  unfolding has
  Distinct-snoc k v [] d h = ground arith
  Distinct-snoc k v ((i, w) ∷ m) d h = ground (
    arith,
    e.equals_iff i k,
    e.equals_iff k i,
    has-append i m ((k, v) ∷ []),
    Distinct-snoc k v m d.1,
  )

  pub put-Distinct :
      (k : K) (v : V) (m : List (K × V)) → Distinct m → has k m ≡ false → Distinct (put k v m)
  put-Distinct k v m d h = rw (put_absent k v m h) (Distinct-snoc k v m d h)

  pub remove_first-Distinct : (m : List (K × V)) → Distinct m → Distinct (remove_first m)
  unfolding remove_first
  remove_first-Distinct [] d = tt
  remove_first-Distinct (x ∷ m) d = d.1

module _ {ℓ} {A : Type ℓ} ⦃e : Eq A⦄ where
  pub includes-append :
      (a : A) (xs ys : List A)
      → includes a (xs ++ ys) ≡ (if includes a xs then true else includes a ys)
  includes-append a [] ys = refl
  includes-append a (x ∷ xs) ys = ground (arith, includes-append a xs ys)

  includes-add_old : (a b : A) (s : List A) → includes a s ≡ true → includes a (add s b) ≡ true
  unfolding add
  includes-add_old a b s h = ground (arith, includes-append a s (b ∷ []))

  includes-add_all_old :
      (a : A) (s xs : List A) → includes a s ≡ true → includes a (add_all s xs) ≡ true
  unfolding add_all
  includes-add_all_old a s [] h = h
  includes-add_all_old a s (x ∷ xs) h =
      includes-add_all_old a (add s x) xs (includes-add_old a x s h)

  includes-add_self : (a : A) (s : List A) → includes a (add s a) ≡ true
  unfolding add
  includes-add_self a s = ground (arith, includes-append a s (a ∷ []), e.equals_iff a a)

  includes-add_all :
      (a : A) (s xs : List A) → includes a xs ≡ true → includes a (add_all s xs) ≡ true
  unfolding add_all
  includes-add_all a s [] h = ground arith
  includes-add_all a s (x ∷ xs) h = elim (Bool-cases (x == a)) [
    | inl same ↦
        let same' : x ≡ a = (e.equals_iff x a).0 same in
        rw same' (includes-add_all_old a (add s a) xs (includes-add_self a s))
    | inr other ↦ includes-add_all a (add s x) xs (ground arith)
  ]

  -- A `Set` made from a list has every element of the list.
  pub includes-unique : (a : A) (xs : List A) → includes a xs ≡ true → includes a (unique xs) ≡ true
  unfolding unique
  includes-unique a xs h = includes-add_all a [] xs h

  pub includes-add :
      (a b : A) (s : List A) → includes a (add s b) ≡ (if includes a s then true else b == a)
  unfolding add
  includes-add a b s = elim (Bool-cases (includes b s)) [
    | inl old ↦ elim (Bool-cases (b == a)) [
      | inl same ↦
          let path = (e.equals_iff b a).0 same in rw (path, add) (ground (arith, path, old))
      | inr other ↦ rw (add, old, other) (ground arith)
    ]
    | inr new ↦ rw (add, new) (includes-append a s (b ∷ []) ∙ ground arith)
  ]

  includes-add_all_iff :
      (a : A) (s xs : List A)
      → includes a (add_all s xs) ≡ (if includes a s then true else includes a xs)
  unfolding add_all
  includes-add_all_iff a s [] = ground arith
  includes-add_all_iff a s (x ∷ xs) =
      ground (arith, includes-add_all_iff a (add s x) xs, includes-add a x s)

  pub includes-unique_iff : (a : A) (xs : List A) → includes a (unique xs) ≡ includes a xs
  unfolding unique
  includes-unique_iff a xs = includes-add_all_iff a [] xs
