-- ===== src/Mappings/Proofs.antt =====
-- What a hit in the slot tables proves, and that no candidate is missed.
use presign.Prelude.{
  ℕ, zero, suc, ◌+◌, ◌≤◌, ◌<◌, String, ◌≡◌, refl, true, some, List, [], ◌∷◌, arith, ◌==◌, string_eq,
  eq_refl, includes, Bool-cases, eqb, inl, inr,
}
use mathlib.Core.Path.{subst}
use presign.JsMap.{get, has, put}
use presign.JsMap.Laws.{get-put, has-put}
use presign.Mappings.{
  Viem, MappingEntry, entries_of, entries_from, mapping_entries, nested_mapping_entries, entry_slot,
  nested_slot,
}

-- An entry that stands at the slot which its own key and position give, for a listed key.
pub record IsPlaced (slot : String → ℕ → String) (keys : List String) (max_slot : ℕ) (s : String)
    (x : MappingEntry) : Type 0 where
  pub listed : includes x.key keys ≡ true
  pub within : x.mapping_slot ≤ max_slot
  pub placed : slot x.key x.mapping_slot ≡ s

abbrev AllPlaced : (String → ℕ → String) → List String → ℕ → List (String × MappingEntry) → Type 0
AllPlaced slot keys max_slot m =
    (s : String) (x : MappingEntry) → get s m ≡ some x → IsPlaced slot keys max_slot s x

module _ (slot : String → ℕ → String) (keys : List String) (max_slot : ℕ) where
  put-AllPlaced :
      (key : String) (p : ℕ) (m : List (String × MappingEntry))
      → includes key keys ≡ true
      → p ≤ max_slot
      → AllPlaced slot keys max_slot m
      → AllPlaced slot keys max_slot (put (slot key p) (record { key = key; mapping_slot = p }) m)
  put-AllPlaced key p m k h old s x e = ground (
    arith,
    get-put (slot key p) s (record { key = key; mapping_slot = p }) m,
    string_eq.equals_iff (slot key p) s,
    old s x,
  )

  entries_of-AllPlaced :
      (key : String) (first rounds : ℕ) (m : List (String × MappingEntry))
      → includes key keys ≡ true
      → first + rounds ≤ suc max_slot
      → AllPlaced slot keys max_slot m
      → AllPlaced slot keys max_slot (entries_of (slot key) key first rounds m)
  unfolding entries_of
  entries_of-AllPlaced key first zero m k h old = old
  entries_of-AllPlaced key first (suc rounds) m k h old =
      entries_of-AllPlaced key (first + 1) rounds
        (put (slot key first) (record { key = key; mapping_slot = first }) m) k (omega arith)
        (put-AllPlaced key first m k (omega arith) old)

  entries_from-AllPlaced :
      (rest : List String) (m : List (String × MappingEntry))
      → ((k : String) → includes k rest ≡ true → includes k keys ≡ true)
      → AllPlaced slot keys max_slot m
      → AllPlaced slot keys max_slot (entries_from slot rest max_slot m)
  unfolding entries_from
  entries_from-AllPlaced [] m sub old = old
  entries_from-AllPlaced (key ∷ rest) m sub old =
      entries_from-AllPlaced rest (entries_of (slot key) key 0 (suc max_slot) m)
        (λ k h. sub k (ground arith))
        (entries_of-AllPlaced key 0 (suc max_slot) m
          (sub key (ground (arith, string_eq.equals_iff key key))) (omega arith) old)

module _ (slot : String → ℕ → String) where
  has-entries_of_old :
      (key : String) (first rounds : ℕ) (s : String) (m : List (String × MappingEntry))
      → has s m ≡ true
      → has s (entries_of (slot key) key first rounds m) ≡ true
  unfolding entries_of
  has-entries_of_old key first zero s m h = h
  has-entries_of_old key first (suc rounds) s m h =
      has-entries_of_old key (first + 1) rounds s
        (put (slot key first) (record { key = key; mapping_slot = first }) m)
        (ground (arith, has-put (slot key first) s (record { key = key; mapping_slot = first }) m))

  has-entries_of :
      (key : String) (first rounds p : ℕ) (m : List (String × MappingEntry))
      → first ≤ p
      → p < first + rounds
      → has (slot key p) (entries_of (slot key) key first rounds m) ≡ true
  unfolding entries_of
  has-entries_of key first zero p m h k = absurd (omega arith)
  has-entries_of key first (suc rounds) p m h k = elim (Bool-cases (eqb first p)) [
    | inl same ↦
        let same' : first ≡ p = ground arith in
        rw same' (
          has-entries_of_old key (p + 1) rounds (slot key p)
            (put (slot key p) (record { key = key; mapping_slot = p }) m)
            (rw has-put (rw (eq_refl (slot key p)) refl)))
    | inr other ↦
        has-entries_of key (first + 1) rounds p
          (put (slot key first) (record { key = key; mapping_slot = first }) m) (ground arith)
          (omega arith)
  ]

  has-entries_from_old :
      (keys : List String) (max_slot : ℕ) (s : String) (m : List (String × MappingEntry))
      → has s m ≡ true
      → has s (entries_from slot keys max_slot m) ≡ true
  unfolding entries_from
  has-entries_from_old [] max_slot s m h = h
  has-entries_from_old (key ∷ keys) max_slot s m h =
      has-entries_from_old keys max_slot s (entries_of (slot key) key 0 (suc max_slot) m)
        (has-entries_of_old key 0 (suc max_slot) s m h)

  has-entries_from :
      (keys : List String) (max_slot : ℕ) (key : String) (p : ℕ) (m : List (String × MappingEntry))
      → includes key keys ≡ true
      → p ≤ max_slot
      → has (slot key p) (entries_from slot keys max_slot m) ≡ true
  unfolding entries_from
  has-entries_from [] max_slot key p m k h = ground arith
  has-entries_from (j ∷ keys) max_slot key p m k h = elim (Bool-cases (j == key)) [
    | inl same ↦
        subst
          (λ k'.
            has (slot k' p)
              (entries_from slot keys max_slot (entries_of (slot j) j 0 (suc max_slot) m))
            ≡ true)
          ((string_eq.equals_iff j key).0 same)
          (has-entries_from_old keys max_slot (slot j p) (entries_of (slot j) j 0 (suc max_slot) m)
            (has-entries_of j 0 (suc max_slot) p m (omega arith) (omega arith)))
    | inr other ↦
        has-entries_from keys max_slot key p (entries_of (slot j) j 0 (suc max_slot) m)
          (ground arith) h
  ]

-- A match is a proof: an entry found at a slot names one of the keys, a position within the bound,
-- and hashes to that slot.
pub mapping_entries-IsPlaced :
    (viem : Viem) (keys : List String) (max_slot : ℕ) (s : String) (x : MappingEntry)
    → get s (mapping_entries viem keys max_slot) ≡ some x
    → IsPlaced (entry_slot viem) keys max_slot s x
unfolding mapping_entries get
mapping_entries-IsPlaced viem keys max_slot s x e =
    entries_from-AllPlaced (entry_slot viem) keys max_slot keys [] (λ k h. h) (λ s' x' h. cc) s x e

pub nested_mapping_entries-IsPlaced :
    (viem : Viem) (outer : String) (keys : List String) (max_slot : ℕ) (s : String)
    (x : MappingEntry)
    → get s (nested_mapping_entries viem outer keys max_slot) ≡ some x
    → IsPlaced (nested_slot viem outer) keys max_slot s x
unfolding nested_mapping_entries get
nested_mapping_entries-IsPlaced viem outer keys max_slot s x e =
    entries_from-AllPlaced (nested_slot viem outer) keys max_slot keys [] (λ k h. h) (λ s' x' h. cc)
      s x e

-- No candidate is missed: every listed key has its slot in the table at every position within the
-- bound, in the plain and in the nested shape.
pub mapping_entries_complete :
    (viem : Viem) (outer : String) (keys : List String) (max_slot : ℕ) (key : String) (p : ℕ)
    → includes key keys ≡ true
    → p ≤ max_slot
    → (has (entry_slot viem key p) (mapping_entries viem keys max_slot) ≡ true)
      × (has (nested_slot viem outer key p) (nested_mapping_entries viem outer keys max_slot)
          ≡ true)
unfolding mapping_entries nested_mapping_entries
mapping_entries_complete viem outer keys max_slot key p k h = (
  has-entries_from (entry_slot viem) keys max_slot key p [] k h,
  has-entries_from (nested_slot viem outer) keys max_slot key p [] k h,
)
