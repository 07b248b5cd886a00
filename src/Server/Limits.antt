-- ===== src/Server/Limits.antt =====
-- main.cc: which requests the rate limit lets through to their handlers.
use drogon_api_starter.Prelude.{
  ℕ, ◌≡◌, refl, ap, ◌∙◌, String, Bool, true, false, ◌||◌, Option, none, some, arith, str_eq, List,
  [], ◌∷◌, if◌then◌else◌, Bool-cases, inl, inr,
}
use drogon_api_starter.Text.Number.{to_string}
use drogon_api_starter.Json.{JsonLib}
use drogon_api_starter.Observability.RateLimiter.{RateLimiter, make, allow, run}
use drogon_api_starter.Observability.RateLimiter.Window.{spec_run, Chronological, run-eq-spec_run}
use drogon_api_starter.Controllers.Base.{Response}
use drogon_api_starter.Server.{Arrival, is_exempt, answer, rate_limit_advice, advise_all}

-- The paths without a limit.
abbrev open_paths : List String
open_paths = "/health" ∷ "/ready" ∷ "/metrics" ∷ []

abbrev is_among : String → List String → Bool
is_among path [] = false
is_among path (p ∷ ps) = str_eq path p || is_among path ps

abbrev pub is_open : String → Bool
is_open path = is_among path open_paths

is_exempt-is_open : (path : String) → is_exempt path ≡ is_open path
is_exempt-is_open path = ground arith

-- The requests whose path has a limit, as calls of the limiter.
abbrev pub limited : List Arrival → List (String × ℕ)
limited [] = []
limited (request ∷ requests) =
    if is_open request.path
    then limited requests
    else (request.peer, request.now) ∷ limited requests

-- The first of the limiter's answers, and the others.
abbrev first : List Bool → Bool
first [] = true
first (allowed ∷ rest) = allowed

abbrev others : List Bool → List Bool
others [] = []
others (allowed ∷ rest) = rest

module _ (json : JsonLib) (seconds : ℕ) where
  -- Too Many Requests, with the window as the time to wait.
  abbrev refusal : Response json.Value
  refusal = record {
    status = 429;
    headers = ("Content-Type", "application/json") ∷ ("Retry-After", to_string seconds) ∷ [];
    body = some (json.set "error" (json.of_string "rate limit exceeded") json.null);
  }

  abbrev reply : Bool → Option (Response json.Value)
  reply allowed = if allowed then none else some refusal

  -- The answers to the requests, from those of the limiter to its calls: a request to an open path
  -- passes and takes none of them.
  abbrev pub answers : List Arrival → List Bool → List (Option (Response json.Value))
  answers [] allowed = []
  answers (request ∷ requests) allowed =
      if is_open request.path
      then none ∷ answers requests allowed
      else reply (first allowed) ∷ answers requests (others allowed)

  answer-reply : (allowed : Bool) → answer json seconds allowed ≡ reply allowed
  answer-reply true = refl
  answer-reply false = refl

  advise_all-run :
      (limiter : RateLimiter) (requests : List Arrival)
      → advise_all json seconds limiter requests ≡ answers requests (run limiter (limited requests))
  unfolding advise_all rate_limit_advice run
  advise_all-run limiter [] = refl
  advise_all-run limiter (request ∷ requests) =
      let same = is_exempt-is_open request.path in
      elim (Bool-cases (is_open request.path)) [
        | inl e ↦ rw (same, e) (ap (λ rest. none ∷ rest) (advise_all-run limiter requests))
        | inr e ↦
            let (allowed, left) = allow limiter request.peer request.now in
            rw (same, e)
              (ap (λ response. response ∷ advise_all json seconds left requests)
                  (answer-reply allowed)
                ∙ ap (λ rest. reply allowed ∷ rest) (advise_all-run left requests))
      ]

  -- Requests to /health, /ready and /metrics pass and are not counted; every other request passes
  -- exactly if the sliding window of its peer, over the requests that are counted, has room for it,
  -- and is answered with status 429 and the header Retry-After otherwise, for requests in the order
  -- of their times.
  pub advise_all-eq-answers :
      (limit window : ℕ) (requests : List Arrival)
      → Chronological 0 (limited requests)
      → advise_all json seconds (make limit window) requests
        ≡ answers requests (spec_run limit window [] (limited requests))
  advise_all-eq-answers limit window requests h =
      advise_all-run (make limit window) requests
      ∙ ap (answers requests) (run-eq-spec_run limit window (limited requests) h)
