-- ===== src/RateLimit/Window.antt =====
-- The limiter against its specification: at most `per_minute` requests of a client in any minute.
use presign.Prelude.{
  ℕ, ◌+◌, ◌≤◌, String, ◌≡◌, refl, sym, ap, ◌∙◌, Bool, false, some, List, [], ◌∷◌, ◌++◌, arith, leb,
  if◌then◌else◌, length, filter, string_eq, eq_refl, Bool-cases, inl, inr,
}
use presign.JsMap.{get, has, put, remove, remove_first}
use presign.JsMap.Laws.{Distinct, get-put_self, has-remove_self, put_absent, get-append}
use presign.RateLimit.{
  RateLimiter, Take, accepted, refused, within, recent, retry_after, trim_clients, take_once,
}

filter-append : (p : ℕ → Bool) (xs ys : List ℕ) → filter p (xs ++ ys) ≡ filter p xs ++ filter p ys
filter-append p [] ys = refl
filter-append p (x ∷ xs) ys = ground (arith, filter-append p xs ys)

-- What the window holds later, it holds now.
filter_later :
    (at d : ℕ) (xs : List ℕ)
    → filter (within (at + d)) (filter (within at) xs) ≡ filter (within (at + d)) xs
filter_later at d [] = refl
filter_later at d (x ∷ xs) = ground (arith, filter_later at d xs)

-- The abstract state is the whole history of accepted requests of one client. The limiter tracks it
-- from a moment on: then and later, the window shows the same of the history and of what it stores.
abbrev pub Tracks : List ℕ → ℕ → RateLimiter → String → Type 0
Tracks history now l key = (d : ℕ) → filter (within (now + d)) history ≡ recent l key (now + d)

stored :
    (l : RateLimiter) (key : String) (h : List ℕ) (at : ℕ)
    → get key l.seen ≡ some h
    → recent l key at ≡ filter (within at) h
unfolding recent
stored l key h at e = rw (e, recent)

-- A client's own request never evicts it.
get-trim_last :
    (key : String) (h : List ℕ) (bound : ℕ) (m : List (String × List ℕ))
    → 1 ≤ bound
    → has key m ≡ false
    → get key (trim_clients bound (m ++ (key, h) ∷ [])) ≡ some h
unfolding trim_clients remove_first get has
get-trim_last key h bound [] p absent = ground (arith, eq_refl {A = String} key)
get-trim_last key h bound (x ∷ m) p absent =
    ground (arith, get-append key m ((key, h) ∷ []), eq_refl {A = String} key)

module _ (l : RateLimiter) (key : String) (history : List ℕ) (last d : ℕ)
    (track : Tracks history last l key) where
  now : ℕ
  now = last + d

  kept :
      (e : ℕ)
      → filter (within (last + d + e)) (recent l key (last + d))
        ≡ filter (within (last + d + e)) history
  kept e = ap (filter (within (last + d + e))) (sym (track d)) ∙ filter_later (last + d) e history

  refused-Tracks :
      Tracks history (last + d) (record l { seen = put key (recent l key (last + d)) l.seen }) key
  refused-Tracks e =
      sym (kept e)
      ∙ sym (
          stored (record l { seen = put key (recent l key (last + d)) l.seen }) key
            (recent l key (last + d)) (last + d + e)
            (get-put_self key (recent l key (last + d)) l.seen))

  accepted-Tracks :
      (seen' : List (String × List ℕ))
      → get key seen' ≡ some (recent l key (last + d) ++ (last + d) ∷ [])
      → Tracks (history ++ (last + d) ∷ []) (last + d) (record l { seen = seen' }) key
  accepted-Tracks seen' found e =
      filter-append (within (last + d + e)) history ((last + d) ∷ [])
      ∙ ap (λ x. x ++ filter (within (last + d + e)) ((last + d) ∷ [])) (sym (kept e))
      ∙ sym (filter-append (within (last + d + e)) (recent l key (last + d)) ((last + d) ∷ []))
      ∙ sym (
          stored (record l { seen = seen' }) key (recent l key (last + d) ++ (last + d) ∷ [])
            (last + d + e) found)

-- What a request adds to the history.
abbrev pub extend : Take → List ℕ → ℕ → List ℕ
extend accepted history at = history ++ at ∷ []
extend (refused w) history at = history

-- The limiter refines the sliding window. Where it has room for a client, holds each once, and tracks
-- the history of one from a moment on, at that moment or later it accepts a request exactly when fewer
-- than `per_minute` accepted requests of the whole history lie within the last minute, and it goes
-- on tracking the history.
pub take_once-window :
    (l : RateLimiter) (key : String) (history : List ℕ) (last d : ℕ)
    → 1 ≤ l.max_clients
    → Distinct l.seen
    → Tracks history last l key
    → ((take_once key (last + d) l).0 ≡ (
        if leb l.per_minute (length (filter (within (last + d)) history))
        then refused (retry_after (filter (within (last + d)) history) (last + d))
        else accepted))
      × Tracks
          (extend (take_once key (last + d) l).0 history (last + d))
          (last + d)
          (take_once key (last + d) l).1
          key
unfolding take_once
take_once-window l key history last d room distinct track =
    elim (Bool-cases (leb l.per_minute (length (recent l key (last + d))))) [
      | inl full ↦ rw (track d, full, take_once) (refl, refused-Tracks l key history last d track)
      | inr free ↦
          rw (track d, free, take_once)
            (
              refl,
              accepted-Tracks l key history last d track
                  (trim_clients l.max_clients
                    (put key (recent l key (last + d) ++ (last + d) ∷ []) (remove key l.seen)))
                  (rw
                    (put_absent key (recent l key (last + d) ++ (last + d) ∷ []) (remove key l.seen)
                      (has-remove_self key l.seen distinct))
                    (get-trim_last key (recent l key (last + d) ++ (last + d) ∷ []) l.max_clients
                      (remove key l.seen) room (has-remove_self key l.seen distinct))),
            )
    ]
