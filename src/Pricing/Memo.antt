-- ===== src/Pricing/Memo.antt =====
-- A price once given is held: the second half of a paid exchange is priced as the first.
use presign.Prelude.{
  ℕ, ◌+◌, ◌≤◌, ◌<◌, String, ◌≡◌, refl, sym, ap, ◌∙◌, true, Option, none, some, ◌∷◌, arith, includes,
  ltb, Bool-cases, Option-cases, inl, inr, string_eq, eq_refl,
}
use presign.Types.{Settled}
use presign.JsMap.{get, remove}
use presign.JsMap.Laws.{get-put_self}
use presign.LruMap.{LruMap, lru_get}
use presign.LruMap.Laws.{IsBounded, get-lru_set}
use presign.Pricing.{
  Held, Meter, answer, join, start_count, held, fresh, ask, counted, price_of, hold_of,
}

lru_get_lem : (key : String) (m : LruMap String Held) → (lru_get key m).0 ≡ get key m.entries
unfolding lru_get
lru_get_lem key m = elim (Option-cases (get key m.entries)) [
  | inl missing ↦ rw (missing, lru_get) refl
  | inr (v, found) ↦ rw (found, lru_get) refl
]

counted_found :
    (key : String) (count : Settled ℕ) (now : ℕ) (m : Meter)
    → IsBounded m.cache
    → get key (counted key count now m).1.cache.entries
      ≡ some (record { quote = price_of count; expires = now + hold_of m count })
unfolding counted
counted_found key count now m b =
    get-lru_set key key (record { quote = price_of count; expires = now + hold_of m count }) m.cache
      b
    ∙ rw (eq_refl {A = String} key) refl

ask_found :
    (key : String) (now : ℕ) (m : Meter) (h : Held)
    → get key m.cache.entries ≡ some h
    → ltb now h.expires ≡ true
    → (ask key now m).0 ≡ answer h.quote
unfolding ask held fresh
ask_found key now m h found early = rw (lru_get_lem key m.cache ∙ found, ask) (rw early refl)

-- With a cache within its bound: where the count of a counterparty is followed by a call for it with
-- nothing between them, and the call comes before the hold of the count ends, it is answered at
-- once, with the price that the count gave (the ceiling's price if the count failed).
pub ask-counted :
    (key : String) (count : Settled ℕ) (now later : ℕ) (m : Meter)
    → IsBounded m.cache
    → later < now + hold_of m count
    → (ask key later (counted key count now m).1).0 ≡ answer (price_of count)
ask-counted key count now later m b early =
    ask_found key later (counted key count now m).1
      (record { quote = price_of count; expires = now + hold_of m count })
      (counted_found key count now m b) (ground arith)

get-lru_get :
    (key : String) (m : LruMap String Held) → get key (lru_get key m).1.entries ≡ get key m.entries
unfolding lru_get
get-lru_get key m = elim (Option-cases (get key m.entries)) [
  | inl missing ↦ rw (missing, lru_get) missing
  | inr (v, found) ↦ rw (found, lru_get) (get-put_self key v (remove key m.entries))
]

fresh_later :
    (now later : ℕ) (h : Option Held) → now ≤ later → fresh now h ≡ none → fresh later h ≡ none
unfolding fresh
fresh_later now later none le e = refl
fresh_later now later (some h) le e = ground arith

ask_started :
    (key : String) (now : ℕ) (m : Meter)
    → (ask key now m).0 ≡ start_count
    → (fresh now (get key m.cache.entries) ≡ none)
      × ((ask key now m).1
          ≡ record m { cache = (lru_get key m.cache).1; inflight = key ∷ m.inflight })
unfolding ask held
ask_started key now m e = elim (Option-cases (fresh now (lru_get key m.cache).0)) [
  | inl stale ↦ elim (Bool-cases (includes key m.inflight)) [
    | inl on_its_way ↦ absurd (cc (rw (stale, on_its_way, ask) at e))
    | inr alone ↦
        (ap (fresh now) (sym (lru_get_lem key m.cache)) ∙ stale, rw (stale, alone, ask) refl)
  ]
  | inr (q, hit) ↦ absurd (cc (rw (hit, ask) at e))
]

ask_joins :
    (key : String) (now : ℕ) (m : Meter)
    → fresh now (get key m.cache.entries) ≡ none
    → includes key m.inflight ≡ true
    → (ask key now m).0 ≡ join
unfolding ask held
ask_joins key now m stale on_its_way = rw (lru_get_lem key m.cache, stale, on_its_way, ask) refl

-- A count is not started twice: while one is on its way, a call that is not answered joins it.
pub ask_twice :
    (key : String) (now later : ℕ) (m : Meter)
    → (ask key now m).0 ≡ start_count
    → now ≤ later
    → (ask key later (ask key now m).1).0 ≡ join
ask_twice key now later m started h =
    let (stale, state) = ask_started key now m started in
    rw state (
      ask_joins key later
        (record m { cache = (lru_get key m.cache).1; inflight = key ∷ m.inflight })
        (ap (fresh later) (get-lru_get key m.cache)
          ∙ fresh_later now later (get key m.cache.entries) h stale)
        (ground (arith, eq_refl {A = String} key)))
