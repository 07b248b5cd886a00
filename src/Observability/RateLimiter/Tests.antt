-- ===== src/Observability/RateLimiter/Tests.antt =====
-- Runs of the rate limiter at concrete requests.
use drogon_api_starter.Prelude.{ℕ, String, true, false, List, [], ◌∷◌, ◌≤◌, ◌≡◌, refl, arith}
use drogon_api_starter.Prelude.Dict.{lookup, insert}
use drogon_api_starter.Observability.RateLimiter.{make, allow, run}
use drogon_api_starter.Observability.RateLimiter.Window.{spec_run, run-eq-spec_run, Chronological}
use drogon_api_starter.Observability.RateLimiter.Bound.{admitted, in_window, run-in_window}

-- Two clients, a limit of two requests in ten ticks.
abbrev calls : List (String × ℕ)
calls = ("a", 1) ∷ ("a", 4) ∷ ("b", 5) ∷ ("a", 10) ∷ ("a", 11) ∷ ("a", 13) ∷ ("a", 14) ∷ []

answers : run (make 2 10) calls ≡ true ∷ true ∷ true ∷ false ∷ true ∷ false ∷ true ∷ []
unfolding run allow make lookup insert
answers = refl

switched_off : run (make 0 10) calls ≡ true ∷ true ∷ true ∷ true ∷ true ∷ true ∷ true ∷ []
unfolding run allow make
switched_off = refl

calls-Chronological : Chronological 0 calls
calls-Chronological = omega arith

run-eq-spec_run_example : run (make 2 10) calls ≡ spec_run 2 10 [] calls
run-eq-spec_run_example = run-eq-spec_run 2 10 calls calls-Chronological

run-in_window_example : in_window 10 "a" 2 (admitted calls (run (make 2 10) calls)) ≤ 2
run-in_window_example = run-in_window 2 10 calls "a" 2 (omega arith) calls-Chronological
