-- ===== src/Server/RouteTests.antt =====
-- The handlers of the routes at concrete requests.
use drogon_api_starter.Prelude.{◌≡◌, refl, true, false, ◌++◌, All}
use drogon_api_starter.Result.{std_exception, foreign, ok, err}
use drogon_api_starter.Auth.Tests.{jwt, values}
use drogon_api_starter.Samples.SampleJson.{objects}
use drogon_api_starter.Samples.SamplePlatform.{platform, moment}
use drogon_api_starter.Server.Routes.{ready_handler, readiness}
use drogon_api_starter.Server.Routes.Methods.{
  IsRouted, user_method_list, role_method_list, method_lists-IsRouted,
}

method_lists-IsRouted_example :
    All (IsRouted platform jwt 1000 values moment true true true false) (
      user_method_list platform moment true true false
      ++ role_method_list platform moment true true false)
method_lists-IsRouted_example =
    method_lists-IsRouted platform jwt 1000 values moment true true true false

ready_tests :
    (ready_handler objects (ok true) (ok true) ≡ ok (readiness objects true))
    × (ready_handler objects (ok true) (ok false) ≡ ok (readiness objects false))
    × (ready_handler objects (ok false) (err foreign) ≡ ok (readiness objects false))
    × (ready_handler objects (err (std_exception "no client")) (ok true)
        ≡ ok (readiness objects false))
    × (ready_handler objects (ok true) (err foreign) ≡ err foreign)
unfolding ready_handler
ready_tests = (refl, refl, refl, refl, refl)
