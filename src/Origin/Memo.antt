-- ===== src/Origin/Memo.antt =====
-- What the memo of origins remembers.
use presign.Prelude.{ℕ, String, ◌≡◌, false, Bool-cases, Option-cases, inl, inr, string_eq, lower}
use presign.LruMap.{lru_get}
use presign.LruMap.Laws.{IsBounded, lru_get-IsBounded, lru_set-IsBounded}
use presign.LruMap.Reads.{AllValues, lru_get-AllValues, lru_set-AllValues}
use presign.Origin.{Archive, Cache, origin_of, search, is_indeterminate}

-- The memo is a bounded map, and nothing in it is an age that could not be established.
abbrev pub IsSettled : Cache → Type 0
IsSettled cache = IsBounded cache × AllValues (λ o. is_indeterminate o ≡ false) cache

-- A failed search is never remembered: whatever was asked, and however the node answered, the memo
-- stays within its bound and holds only established origins.
pub origin_of-IsSettled :
    (archive : Archive) (seconds : ℕ) (address : String) (cache : Cache)
    → IsSettled cache
    → IsSettled (origin_of archive seconds address cache).1
unfolding origin_of
origin_of-IsSettled archive seconds address cache s =
    let key = lower address in
    let read : IsSettled (lru_get key cache).1 = (
      lru_get-IsBounded key cache s.0,
      lru_get-AllValues (λ o. is_indeterminate o ≡ false) key cache s.1,
    ) in
    elim (Option-cases (lru_get key cache).0) [
      | inr (o, found) ↦ rw (found, origin_of) read
      | inl missing ↦ elim (Bool-cases (is_indeterminate (search archive seconds address))) [
        | inl failed ↦ rw (missing, failed, origin_of) read
        | inr known ↦
            rw (missing, known, origin_of)
              (
                lru_set-IsBounded key (search archive seconds address) (lru_get key cache).1 read.0,
                lru_set-AllValues (λ o. is_indeterminate o ≡ false) key
                    (search archive seconds address) (lru_get key cache).1 read.0 known read.1,
              )
      ]
    ]
