-- ===== src/Observability/Setup/Tests.antt =====
-- Reporters set up from concrete settings; a double is a count of tenths.
use drogon_api_starter.Prelude.{ℕ, ◌≡◌, refl, String, Option, none, some, leb, ltb, arith}
use drogon_api_starter.Text.Slices.{find}
use drogon_api_starter.Text.Number.{ℤ, pos, negsuc, stoi}
use drogon_api_starter.Result.{ok, err, invalid_argument, std_exception}
use drogon_api_starter.Config.Floats.{Doubles}
use drogon_api_starter.Observability.Setup.{Limits, stoul, split_endpoint}
use drogon_api_starter.Observability.Setup.Sentry.{sentry_endpoint, sentry_endpoint-dsn_of}

-- The double 5 is written as "5", and so on.
abbrev natural : Option ℤ → Option ℕ
natural none = none
natural (some (pos n)) = some n
natural (some (negsuc n)) = none

abbrev doubles : Doubles
doubles = record {
  Double = ℕ;
  tenths = λ n. n;
  stod = λ s. natural (stoi s);
  le = leb;
  gt = λ a b. ltb b a;
}

abbrev environment : String → Option String
environment name = none

abbrev limits : Limits doubles
limits = record {
  timeout_seconds = 10;
  batch_size = 10;
  batch_delay_seconds = 1;
  max_queue_size = 1024;
  max_attempts = 3;
  retry_base_delay_seconds = 1;
  circuit_failure_threshold = 5;
  circuit_open_seconds = 300;
}

endpoint_tests :
    (split_endpoint "http://otel:4318/v1/logs" ≡ ("http://otel:4318", "/v1/logs"))
    × (split_endpoint "http://otel:4318" ≡ ("http://otel:4318", "/"))
    × (split_endpoint "otel/v1" ≡ ("otel/v1", "/"))
    × (stoul "-1" ≡ ok 18446744073709551615)
    × (stoul "18446744073709551616" ≡ err (std_exception "stoul"))
    × (stoul "x" ≡ err (invalid_argument "stoul"))
    × (sentry_endpoint "nothing" ≡ err (invalid_argument "SENTRY_DSN must be a URL"))
    × (sentry_endpoint "https://k@h"
        ≡ err (invalid_argument "SENTRY_DSN must include a project id"))
unfolding split_endpoint stoul sentry_endpoint find
endpoint_tests = (refl, refl, refl, refl, refl, refl, refl, refl)

sentry_endpoint-dsn_of_example :
    sentry_endpoint "https://abc@sentry.io/42"
    ≡ ok "https://sentry.io/api/42/envelope/?sentry_version=7&sentry_key=abc"
sentry_endpoint-dsn_of_example =
    sentry_endpoint-dsn_of "https" "abc" "sentry.io" "42" (omega arith, omega arith) (omega arith)
      (omega arith) (omega arith) (omega arith)
