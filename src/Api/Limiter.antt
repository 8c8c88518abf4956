-- ===== src/Api/Limiter.antt =====
-- `rateLimiter` of internal/api/middleware.go: calls per visitor and time window. A time is a number
-- of nanoseconds.
mod Window
mod Cleanup
mod Tests
use packet_lab.Prelude.{
  ℕ, suc, ◌+◌, Bool, true, false, Option, none, some, List, [], ◌∷◌, ltb, leb, if◌then◌else◌, Bytes,
  Map, lookup, insert,
}

-- `visitorInfo`
pub record Visitor : Type 0 where
  pub count : ℕ
  pub reset_at : ℕ

-- `rateLimiter`; `max_calls` is its field `rate`
pub record RateLimiter : Type 0 where
  pub visitors : Map Visitor
  pub max_calls : ℕ
  pub window : ℕ

-- `newRateLimiter`, but for the goroutine that cleans up
unfoldable pub new_rate_limiter : ℕ → ℕ → RateLimiter
new_rate_limiter max_calls window = record { visitors = []; max_calls = max_calls; window = window }

abbrev put : Bytes → Visitor → RateLimiter → RateLimiter
put key v rl = record rl { visitors = insert key v rl.visitors }

abbrev pub first_call : ℕ → RateLimiter → Visitor
first_call now rl = record { count = 1; reset_at = now + rl.window }

-- `allow` at the time `now`
unfoldable pub allow : Bytes → ℕ → RateLimiter → Bool × RateLimiter
allow key now rl = elim (lookup key rl.visitors) [
  | none ↦ (true, put key (first_call now rl) rl)
  | some v ↦
      let seen = record v { count = suc v.count } in
      if ltb v.reset_at now
      then (true, put key (first_call now rl) rl)
      else (leb seen.count rl.max_calls, put key seen rl)
]

-- the loop of a tick of `cleanup`
unfoldable pub still_counted : ℕ → Map Visitor → Map Visitor
still_counted now [] = []
still_counted now ((k, v) ∷ m) =
    let rest = still_counted now m in if ltb v.reset_at now then rest else (k, v) ∷ rest

unfoldable pub cleanup : ℕ → RateLimiter → RateLimiter
cleanup now rl = record rl { visitors = still_counted now rl.visitors }

-- calls of `allow` in turn, with the answers
unfoldable pub allow_all : List (Bytes × ℕ) → RateLimiter → List Bool × RateLimiter
allow_all [] rl = ([], rl)
allow_all ((key, now) ∷ calls) rl =
    let (b, next) = allow key now rl in let (bs, last) = allow_all calls next in (b ∷ bs, last)
