-- ===== src/RateLimit/Laws.antt =====
-- The limiter's bounds, the promise behind `retryAfterSeconds`, and the isolation of clients.
use presign.Prelude.{
  ℕ, ◌+◌, ◌-◌, ◌*◌, ◌/◌, ◌≤◌, max, String, ◌≡◌, refl, ap, true, false, Option, some, List, [], ◌∷◌,
  ◌++◌, arith, ltb, leb, length, filter, string_eq, Bool-cases, Option-cases, inl, inr,
  length-append, length-filter-le,
}
use mathlib.Core.Path.{subst}
use presign.JsMap.{get, has, put, remove, remove_first}
use presign.JsMap.Laws.{
  Distinct, has-true_of_some, has-put, get-put, get-put_self, get-remove_ne, length-remove-le,
  remove-Distinct, remove_first-Distinct,
}
use presign.RateLimit.{
  RateLimiter, Take, accepted, refused, window_ms, within, recent, retry_after, trim_clients,
  take_once,
}

-- Nobody's history is longer than the ceiling, the map keeps each client once, within its bound.
pub record IsBounded (l : RateLimiter) : Type 0 where
  pub histories : (key : String) (h : List ℕ) → get key l.seen ≡ some h → length h ≤ l.per_minute
  pub distinct : Distinct l.seen
  pub clients : length l.seen ≤ l.max_clients

recent-le :
    (l : RateLimiter) (key : String) (at : ℕ)
    → IsBounded l
    → length (recent l key at) ≤ l.per_minute
unfolding recent
recent-le l key at b = elim (Option-cases (get key l.seen)) [
  | inl missing ↦ rw (missing, recent) (omega arith)
  | inr (h, found) ↦
      rw (found, recent) (omega (arith, length-filter-le (within at) h, b.histories key h found))
]

-- Once the wait is over, the oldest moment has left the window.
waits :
    (moments : List ℕ) (at at' r p : ℕ)
    → length moments ≤ p
    → retry_after moments at ≡ some r
    → at + r * 1000 ≤ at'
    → leb p (length (filter (within at') moments)) ≡ false
unfolding retry_after
waits [] at at' r p h e later = absurd (cc e)
waits (o ∷ rest) at at' r p h e later =
    let r' : max 1 ((o + window_ms - at + 999) / 1000) ≡ r = cc e in
    let past : o + window_ms ≤ at' = omega (arith, r', later) in
    let gone : within at' o ≡ false = ground arith in
    ground (arith, gone, length-filter-le (within at') rest)

recent-put :
    (l : RateLimiter) (key : String) (moments : List ℕ) (at : ℕ)
    → recent (record l { seen = put key moments l.seen }) key at ≡ filter (within at) moments
unfolding recent
recent-put l key moments at = rw (get-put_self key moments l.seen, recent)

refused_lem :
    (l : RateLimiter) (key : String) (at : ℕ) (w : Option ℕ) (l' : RateLimiter)
    → take_once key at l ≡ (refused w, l')
    → (leb l.per_minute (length (recent l key at)) ≡ true)
      × (retry_after (recent l key at) at ≡ w)
      × (record l { seen = put key (recent l key at) l.seen } ≡ l')
unfolding take_once
refused_lem l key at w l' e = elim (Bool-cases (leb l.per_minute (length (recent l key at)))) [
  | inl full ↦
      let k = rw (full, take_once) at e in (full, cc k, ap (λ (x : Take × RateLimiter). x.1) k)
  | inr free ↦ absurd (cc (rw (free, take_once) at e))
]

accepted_lem :
    (l : RateLimiter) (key : String) (at : ℕ)
    → leb l.per_minute (length (recent l key at)) ≡ false
    → (take_once key at l).0 ≡ accepted
unfolding take_once
accepted_lem l key at free = rw (free, take_once)

-- In a limiter within its bounds, a client refused with `r` seconds to wait is accepted at any moment once `r` seconds have passed,
-- where nothing else happens between, and its history is within the ceiling.
pub retry_after-accepted :
    (l : RateLimiter) (key : String) (at at' r : ℕ) (l' : RateLimiter)
    → IsBounded l
    → take_once key at l ≡ (refused (some r), l')
    → at + r * 1000 ≤ at'
    → (take_once key at' l').0 ≡ accepted
retry_after-accepted l key at at' r l' b e later =
    let (full, wait, state) = refused_lem l key at (some r) l' e in
    subst (λ (x : RateLimiter). (take_once key at' x).0 ≡ accepted) state
      (accepted_lem (record l { seen = put key (recent l key at) l.seen }) key at'
        (rw (recent-put l key (recent l key at) at')
          (waits (recent l key at) at at' r l.per_minute (recent-le l key at b) wait later)))

get-remove_first :
    (key : String) (m : List (String × List ℕ)) (h : List ℕ)
    → Distinct m
    → get key (remove_first m) ≡ some h
    → get key m ≡ some h
unfolding get remove_first
get-remove_first key [] h d e = e
get-remove_first key ((j, w) ∷ m) h d e =
    ground (arith, string_eq.equals_iff j key, has-true_of_some key h m)

get-trim :
    (key : String) (bound : ℕ) (m : List (String × List ℕ)) (h : List ℕ)
    → Distinct m
    → get key (trim_clients bound m) ≡ some h
    → get key m ≡ some h
unfolding trim_clients
get-trim key bound m h d e = elim (Bool-cases (ltb bound (length m))) [
  | inl over ↦ get-remove_first key m h d (rw (over, trim_clients) at e)
  | inr fits ↦ rw (fits, trim_clients) at e
]

length-trim :
    (bound : ℕ) (m : List (String × List ℕ))
    → length m ≤ bound + 1
    → length (trim_clients bound m) ≤ bound
unfolding trim_clients remove_first
length-trim bound [] h = ground arith
length-trim bound (x ∷ m) h = ground arith

trim-Distinct :
    (bound : ℕ) (m : List (String × List ℕ)) → Distinct m → Distinct (trim_clients bound m)
unfolding trim_clients
trim-Distinct bound m d = ground (arith, remove_first-Distinct m d)

put-Distinct_any :
    (key : String) (h : List ℕ) (m : List (String × List ℕ)) → Distinct m → Distinct (put key h m)
unfolding put has
put-Distinct_any key h [] d = (refl, tt)
put-Distinct_any key h ((j, w) ∷ m) d = ground (
  arith,
  string_eq.equals_iff j key,
  put-Distinct_any key h m d.1,
  has-put key j h m,
  string_eq.equals_iff key j,
)

length-put :
    (key : String) (h : List ℕ) (m : List (String × List ℕ)) → length (put key h m) ≤ length m + 1
unfolding put
length-put key h [] = omega arith
length-put key h ((j, w) ∷ m) = ground (arith, length-put key h m)

put_present :
    (key : String) (h : List ℕ) (m : List (String × List ℕ))
    → has key m ≡ true
    → length (put key h m) ≡ length m
unfolding put has
put_present key h [] e = absurd (cc e)
put_present key h ((j, w) ∷ m) e = ground (arith, put_present key h m)

-- A history that is full is there.
recent_present :
    (l : RateLimiter) (key : String) (at : ℕ)
    → 1 ≤ l.per_minute
    → leb l.per_minute (length (recent l key at)) ≡ true
    → has key l.seen ≡ true
unfolding recent
recent_present l key at p full = elim (Option-cases (get key l.seen)) [
  | inl missing ↦
      let none_left : length (recent l key at) ≡ 0 = rw (missing, recent) refl in
      absurd (ground arith)
  | inr (h, found) ↦ has-true_of_some key h l.seen found
]

refused-IsBounded :
    (l : RateLimiter) (key : String) (at : ℕ)
    → IsBounded l
    → 1 ≤ l.per_minute
    → leb l.per_minute (length (recent l key at)) ≡ true
    → IsBounded (record l { seen = put key (recent l key at) l.seen })
refused-IsBounded l key at b p full = record {
  histories = λ k h e.
      ground (arith, get-put key k (recent l key at) l.seen, b.histories k h, recent-le l key at b);
  distinct = put-Distinct_any key (recent l key at) l.seen b.distinct;
  clients =
      omega (
        arith,
        put_present key (recent l key at) l.seen (recent_present l key at p full),
        b.clients,
      );
}

accepted_histories :
    (l : RateLimiter) (key k : String) (at : ℕ) (h : List ℕ)
    → IsBounded l
    → leb l.per_minute (length (recent l key at)) ≡ false
    → get k (put key (recent l key at ++ at ∷ []) (remove key l.seen)) ≡ some h
    → length h ≤ l.per_minute
accepted_histories l key k at h b free e = ground (
  arith,
  get-put key k (recent l key at ++ at ∷ []) (remove key l.seen),
  get-remove_ne key k l.seen,
  b.histories k h,
  length-append (recent l key at) (at ∷ []),
)

accepted-IsBounded :
    (l : RateLimiter) (key : String) (at : ℕ)
    → IsBounded l
    → leb l.per_minute (length (recent l key at)) ≡ false
    → IsBounded (record l {
      seen = trim_clients l.max_clients (put key (recent l key at ++ at ∷ []) (remove key l.seen));
    })
accepted-IsBounded l key at b free =
    let m = put key (recent l key at ++ at ∷ []) (remove key l.seen) in
    let d : Distinct m =
      put-Distinct_any key (recent l key at ++ at ∷ []) (remove key l.seen)
        (remove-Distinct key l.seen b.distinct) in
    record {
      histories =
          λ k h e. accepted_histories l key k at h b free (get-trim k l.max_clients m h d e);
      distinct = trim-Distinct l.max_clients m d;
      clients = length-trim l.max_clients m (
          omega (
            arith,
            length-put key (recent l key at ++ at ∷ []) (remove key l.seen),
            length-remove-le key l.seen,
            b.clients,
          ));
    }

-- Whatever a client asks, and when, histories stay within the ceiling of requests, and the clients
-- remembered within theirs. (A ceiling of no requests at all is excluded: it remembers every client.)
pub take_once-IsBounded :
    (l : RateLimiter) (key : String) (at : ℕ)
    → 1 ≤ l.per_minute
    → IsBounded l
    → IsBounded (take_once key at l).1
unfolding take_once
take_once-IsBounded l key at p b = elim (Bool-cases (leb l.per_minute (length (recent l key at)))) [
  | inl full ↦ rw (full, take_once) (refused-IsBounded l key at b p full)
  | inr free ↦ rw (free, take_once) (accepted-IsBounded l key at b free)
]
