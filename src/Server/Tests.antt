-- ===== src/Server/Tests.antt =====
-- The rate limit at concrete requests.
use drogon_api_starter.Prelude.{◌≡◌, List, [], ◌∷◌, arith}
use drogon_api_starter.Observability.RateLimiter.{make}
use drogon_api_starter.Observability.RateLimiter.Window.{spec_run, Chronological}
use drogon_api_starter.Samples.SampleJson.{objects}
use drogon_api_starter.Server.{Arrival, advise_all}
use drogon_api_starter.Server.Limits.{limited, answers, advise_all-eq-answers}

abbrev requests : List Arrival
requests =
    record { path = "/users"; peer = "10.0.0.1:4000"; now = 1 }
    ∷ record { path = "/health"; peer = "10.0.0.1:4000"; now = 2 }
    ∷ record { path = "/users"; peer = "10.0.0.1:4000"; now = 3 }
    ∷ record { path = "/users"; peer = "10.0.0.1:4001"; now = 4 }
    ∷ []

requests-Chronological : Chronological 0 (limited requests)
requests-Chronological = omega arith

advise_all-eq-answers_example :
    advise_all objects 60 (make 1 60) requests
    ≡ answers objects 60 requests (spec_run 1 60 [] (limited requests))
advise_all-eq-answers_example =
    advise_all-eq-answers objects 60 1 60 requests requests-Chronological
