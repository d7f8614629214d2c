-- ===== src/RateLimit/Tests.antt =====
-- Two requests in a minute, for at most two clients.
use presign.Prelude.{
  ◌+◌, ◌≡◌, refl, some, [], ◌∷◌, arith, string_eq, leb, length, filter, if◌then◌else◌,
}
use mathlib.Core.Path.{subst}
use presign.JsMap.{get}
use presign.RateLimit.{RateLimiter, accepted, refused, within, recent, retry_after, take_once}
use presign.RateLimit.Laws.{IsBounded, take_once-IsBounded}
use presign.RateLimit.Window.{Tracks, extend, take_once-window}

abbrev limiter : RateLimiter
limiter = record { per_minute = 2; max_clients = 2; seen = [] }

limiter-IsBounded : IsBounded limiter
unfolding get
limiter-IsBounded = record { histories = λ k h. cc; distinct = tt; clients = omega arith }

abbrev after_two : RateLimiter
after_two = record { per_minute = 2; max_clients = 2; seen = ("a", 1000 ∷ 2500 ∷ []) ∷ [] }

two_requests : (take_once "a" 2500 (take_once "a" 1000 limiter).1).1 ≡ after_two
unfolding take_once
two_requests = refl

third_request : take_once "a" 3000 after_two ≡ (refused (some 58), after_two)
unfolding take_once
third_request = refl

after_two-IsBounded : IsBounded after_two
unfolding take_once
after_two-IsBounded = subst IsBounded two_requests (
    take_once-IsBounded (take_once "a" 1000 limiter).1 "a" 2500 (omega arith)
      (take_once-IsBounded limiter "a" 1000 (omega arith) limiter-IsBounded))

limiter-Tracks : Tracks [] 0 limiter "a"
unfolding recent
limiter-Tracks d = refl

take_once-window_example :
    ((take_once "a" (0 + 1000) limiter).0 ≡ (
      if leb 2 (length (filter (within (0 + 1000)) []))
      then refused (retry_after (filter (within (0 + 1000)) []) (0 + 1000))
      else accepted))
    × Tracks
        (extend (take_once "a" (0 + 1000) limiter).0 [] (0 + 1000))
        (0 + 1000)
        (take_once "a" (0 + 1000) limiter).1
        "a"
take_once-window_example = take_once-window limiter "a" [] 0 1000 (omega arith) tt limiter-Tracks
