-- ===== src/Observability/RateLimiter.antt =====
-- observability/RateLimiter.h and .cc: a log of request times for each key. A time is the count of
-- the steady clock's ticks, which `allow` reads, and is an argument here.
pub mod Window
pub mod Bound
pub mod Tests
use drogon_api_starter.Prelude.{
  ℕ, ◌+◌, String, Bool, true, false, List, [], ◌∷◌, ◌++◌, ltb, leb, ◌==◌, if◌then◌else◌, length,
}
use drogon_api_starter.Prelude.Dict.{lookup, insert, or_else}

pub record RateLimiter : Type 0 where
  pub limit : ℕ
  pub window : ℕ
  pub requests : List (String × List ℕ)

-- The constructor.
unfoldable pub make : ℕ → ℕ → RateLimiter
make limit window = record { limit = limit; window = window; requests = [] }

-- The `while` loop of `allow`: drops times from the front for as long as they are a window old.
-- The difference `now - front` is signed in the source, so the window goes to the other side.
unfoldable pub pop_expired : ℕ → ℕ → List ℕ → List ℕ
pop_expired window now [] = []
pop_expired window now (front ∷ rest) =
    if leb (front + window) now then pop_expired window now rest else front ∷ rest

-- `requests_[key]`, which is an empty deque for a new key.
abbrev pub timestamps : RateLimiter → String → List ℕ
timestamps r key = or_else (lookup key r.requests) []

unfoldable pub allow : RateLimiter → String → ℕ → Bool × RateLimiter
unfolding pop_expired
allow r key now =
    if r.limit == 0
    then (true, r)
    else let left = pop_expired r.window now (timestamps r key) in
      if leb r.limit (length left)
      then (false, record r { requests = insert key left r.requests })
      else (true, record r { requests = insert key (left ++ now ∷ []) r.requests })

-- The answers to a sequence of calls, each with its key and its time.
unfoldable pub run : RateLimiter → List (String × ℕ) → List Bool
run r [] = []
run r ((key, now) ∷ calls) = (allow r key now).0 ∷ run (allow r key now).1 calls
