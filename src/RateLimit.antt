-- ===== src/RateLimit.antt =====
-- packages/service/src/rate-limit.ts: a ceiling on the work that one client can cause in a minute.
-- A limiter is its `seen` map; `at` is what `now()` answers, in milliseconds.
pub mod Laws
mod Tests
pub mod Window
use presign.Prelude.{
  ℕ, ◌+◌, ◌-◌, ◌/◌, max, String, Bool, Option, none, some, List, [], ◌∷◌, ◌++◌, ltb, leb,
  if◌then◌else◌, length, filter, string_eq,
}
use presign.JsMap.{get, put, remove, remove_first}

pub record RateLimiter : Type 0 where
  pub per_minute : ℕ
  pub max_clients : ℕ
  pub seen : List (String × List ℕ)

-- `{ ok: true }`, or `{ ok: false }` with the seconds to wait: none for the `NaN` that an empty
-- history gives.
pub data Take : Type 0 where
  accepted : Take
  refused : Option ℕ → Take

abbrev pub window_ms : ℕ
window_ms = 60000

-- `at - moment < WINDOW_MS`
abbrev pub within : ℕ → ℕ → Bool
within at moment = ltb (at - moment) window_ms

abbrev pub or_nil : Option (List ℕ) → List ℕ
or_nil none = []
or_nil (some xs) = xs

unfoldable pub recent : RateLimiter → String → ℕ → List ℕ
unfolding get
recent l key at = filter (within at) (or_nil (get key l.seen))

-- `Math.max(1, Math.ceil((recent[0] + WINDOW_MS - at) / 1000))`
unfoldable pub retry_after : List ℕ → ℕ → Option ℕ
retry_after [] at = none
retry_after (oldest ∷ rest) at = some (max 1 ((oldest + window_ms - at + 999) / 1000))

unfoldable pub trim_clients : ℕ → List (String × List ℕ) → List (String × List ℕ)
unfolding remove_first
trim_clients bound m = if ltb bound (length m) then remove_first m else m

unfoldable pub take_once : String → ℕ → RateLimiter → Take × RateLimiter
unfolding recent retry_after trim_clients put remove
take_once key at l =
    let moments = recent l key at in
    if leb l.per_minute (length moments)
    then (refused (retry_after moments at), record l { seen = put key moments l.seen })
    else (
      accepted,
      record l {
        seen = trim_clients l.max_clients (put key (moments ++ at ∷ []) (remove key l.seen));
      },
    )
