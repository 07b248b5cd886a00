-- ===== src/Server.antt =====
-- main.cc: the rate limit in front of the handlers, which runServer registers as a sync advice. The
-- framework calls it once for every request.
use drogon_api_starter.Prelude.{
  ℕ, String, Bool, true, false, ◌&&◌, ◌||◌, Option, none, some, List, [], ◌∷◌, if◌then◌else◌,
  str_eq,
}
use drogon_api_starter.Text.Number.{to_string}
use drogon_api_starter.Json.{JsonLib}
use drogon_api_starter.Observability.RateLimiter.{RateLimiter, allow}
use drogon_api_starter.Controllers.Base.{Response}
pub mod Advices
pub mod CommandLine
pub mod Limits
pub mod Routes
pub mod RouteTests
pub mod StartTests
pub mod Tests

-- A request as the advice sees it: its path, its peer's address with the port, and its time.
pub record Arrival : Type 0 where
  pub path : String
  pub peer : String
  pub now : ℕ

abbrev pub is_exempt : String → Bool
is_exempt path = str_eq path "/health" || str_eq path "/ready" || str_eq path "/metrics"

module _ (json : JsonLib) (rate_limit_window_seconds : ℕ) where
  abbrev pub too_many_requests : Response json.Value
  too_many_requests = record {
    status = 429;
    headers =
        ("Content-Type", "application/json")
        ∷ ("Retry-After", to_string rate_limit_window_seconds)
        ∷ [];
    body = some (json.set "error" (json.of_string "rate limit exceeded") json.null);
  }

  abbrev pub answer : Bool → Option (Response json.Value)
  answer true = none
  answer false = some too_many_requests

  -- The advice: no response, and the request goes on to its handler, or the response in its place.
  unfoldable pub rate_limit_advice :
      RateLimiter → Arrival → Option (Response json.Value) × RateLimiter
  rate_limit_advice limiter request =
      if is_exempt request.path
      then (none, limiter)
      else (let (allowed, left) = allow limiter request.peer request.now in (answer allowed, left))

  -- The answers to requests in the order in which they come.
  unfoldable pub advise_all : RateLimiter → List Arrival → List (Option (Response json.Value))
  advise_all limiter [] = []
  advise_all limiter (request ∷ requests) =
      let (response, left) = rate_limit_advice limiter request in
      response ∷ advise_all left requests
