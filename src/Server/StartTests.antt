-- ===== src/Server/StartTests.antt =====
-- The command line and the advices at concrete arguments and requests.
use drogon_api_starter.Prelude.{
  ◌≡◌, ◌+◌, ◌↔◌, ◌⊎◌, refl, Bool, true, false, String, none, some, List, [], ◌∷◌,
}
use drogon_api_starter.Text.{split_at}
use drogon_api_starter.Result.{Exception, ok, err, is_std_exception}
use drogon_api_starter.Observability.Metrics.{zero_metrics}
use drogon_api_starter.Observability.Tracing.{Request, Draws}
use drogon_api_starter.Controllers.Base.{Response}
use drogon_api_starter.Server.Advices.{
  asks_context, ask_all, post_handling_advice, routed, carrying, counted_once, IsIdOf, IsContextOf,
  post_handling_advice-carries,
}
use drogon_api_starter.Server.CommandLine.{
  Task, run_server, exits, performs, main, argument_of, is_built, main-cases,
}

main_tests :
    (main true (ok true) ("--action=run-server" ∷ []) ≡ performs run_server)
    × (main false (ok true) ("--action=create-tables" ∷ []) ≡ exits 1)
    × (main true (ok true) ("--action=" ∷ []) ≡ exits 1)
    × (main true (ok true) ("--mode=run-server" ∷ []) ≡ exits 1)
    × (main true (ok true) [] ≡ exits 1)
unfolding main split_at
main_tests = (refl, refl, refl, refl, refl)

main-cases_example :
    ((t : Task)
      → (main false (ok true) ("--action=run-server" ∷ []) ≡ performs t) ↔ (
          (◌≡◌ {A = List String} ("--action=run-server" ∷ []) (argument_of false t ∷ []))
          × (is_built false t ≡ true)))
    × ((main false (ok true) ("--action=run-server" ∷ []) ≡ exits 1)
        ⊎ ((t : Task) × (main false (ok true) ("--action=run-server" ∷ []) ≡ performs t)))
    × ((e : Exception)
        → is_std_exception e ≡ true
        → main false {A = Bool} (err e) ("--action=run-server" ∷ []) ≡ exits 1)
main-cases_example = main-cases false true ("--action=run-server" ∷ [])

abbrev plain_request : Request
plain_request = record { x_request_id = "r-1"; traceparent_header = "" }

abbrev draws : Draws
draws = record { id = 5; trace = λ i. i + 1; parent = λ i. i + 2 }

abbrev later : Draws
later = record { id = 6; trace = λ i. i + 3; parent = λ i. i + 4 }

abbrev answer : Response String
answer = record { status = 500; headers = []; body = none }

post_handling_advice-carries_example :
    (id : String) × (context : String) × (post_handling_advice plain_request later
        (some answer)
        (record (routed plain_request draws zero_metrics) {
          attributes =
              ask_all plain_request
                (asks_context later ∷ [])
                (routed plain_request draws zero_metrics).attributes;
        })
      ≡ (
        some (carrying answer id context),
        record {
          attributes = record { request_id = some id; traceparent = some context };
          metrics = counted_once 500 zero_metrics;
        },
      ))
    × IsIdOf plain_request id
    × IsContextOf plain_request context
post_handling_advice-carries_example =
    post_handling_advice-carries plain_request draws later (asks_context later ∷ []) zero_metrics
      answer
