-- ===== src/AuthSchema/Tests.antt =====
-- The schema at a body without a password.
use drogon_api_starter.Prelude.{◌≡◌, ◌↔◌, [], All}
use drogon_api_starter.Result.{ok}
use drogon_api_starter.AuthSchema.{auth_schema, validate}
use drogon_api_starter.AuthSchema.Laws.{IsRight, validate-no_errors_iff}
use drogon_api_starter.Samples.SampleJson.{Value, word, member, object, objects}

abbrev body : Value
body = member "email" (word "a@b.c") object

validate-no_errors_iff_example :
    (validate objects body auth_schema ≡ ok []) ↔ All (IsRight objects body) auth_schema
validate-no_errors_iff_example = validate-no_errors_iff objects body auth_schema
