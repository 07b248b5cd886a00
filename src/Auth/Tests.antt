-- ===== src/Auth/Tests.antt =====
-- The filter and the login with tokens that state the key and the issuer only.
use drogon_api_starter.Prelude.{
  ℕ, ◌≡◌, refl, String, true, false, some, [], ◌∷◌, if◌then◌else◌, arith, str_eq, eq_refl,
}
use drogon_api_starter.Prelude.Dict.{lookup}
use drogon_api_starter.Text.{◌++◌, is_empty, strip_prefix}
use drogon_api_starter.Result.{std_exception, ok, err}
use drogon_api_starter.Config.EnvFile.{Values}
use drogon_api_starter.Models.Users.{Users, new_users, set_email, set_password}
use drogon_api_starter.Controllers.Base.{Response}
use drogon_api_starter.Auth.{
  JwtLib, generate_jwt, verify_jwt, without_bearer, get_env, passed, do_filter,
  async_handle_http_request,
}
use drogon_api_starter.Auth.Tokens.{Accepts, do_filter-generate_jwt, do_filter-passed}
use drogon_api_starter.Auth.Login.{login-once}
use drogon_api_starter.Samples.SampleJson.{Value, word, member, object, objects}
use drogon_api_starter.Samples.SamplePlatform.{Tables, platform}

abbrev signed : String → String → String
signed key issuer = key ++ ("." ++ issuer)

abbrev pub jwt : JwtLib
jwt = record {
  sign = λ key c. signed key c.issuer;
  verify = λ key issuer now token.
      if str_eq (signed key issuer) token then ok tt else err (std_exception "invalid signature");
}

jwt-Accepts : Accepts jwt
jwt-Accepts key c now later in_time = rw (eq_refl (signed key c.issuer)) refl

abbrev pub values : Values
values = ("SECRET_KEY", "s3cret") ∷ []

has_secret : is_empty (get_env values "SECRET_KEY") ≡ false
unfolding get_env lookup
has_secret = refl

do_filter-generate_jwt_example :
    do_filter objects jwt 1500 values
      ("Bearer " ++ generate_jwt jwt 1000 (get_env values "SECRET_KEY") "a@b.c")
    ≡ ok passed
do_filter-generate_jwt_example =
    do_filter-generate_jwt objects jwt jwt-Accepts values "a@b.c" "SECRET_KEY" 1000 1500 has_secret
      (omega arith) (omega arith)

let_through : do_filter objects jwt 1500 values "s3cret.auth0" ≡ ok passed
unfolding do_filter verify_jwt get_env lookup strip_prefix
let_through = refl

do_filter-passed_example :
    (is_empty (get_env values "SECRET_KEY") ≡ false)
    × (is_empty "s3cret.auth0" ≡ false)
    × (jwt.verify (get_env values "SECRET_KEY") "auth0" 1500 (without_bearer jwt "s3cret.auth0")
        ≡ ok tt)
do_filter-passed_example = do_filter-passed objects jwt 1500 values "s3cret.auth0" let_through

abbrev user : Users ℕ
user = set_email "a@b.c" (set_password "saltpw" new_users)

abbrev tables : Tables
tables = record { users = user ∷ []; roles = [] }

abbrev body : Value
body = member "email" (word "a@b.c") (member "password" (word "pw") object)

login-once_example :
    (r : Response Value) × (async_handle_http_request platform jwt 1000 values true
        (some body)
        tables
      ≡ (ok (r ∷ []), tables))
    × (r.status ≡ 200)
login-once_example =
    login-once platform jwt 1000 values body "a@b.c" "pw" (user ∷ []) tables tables
      (word "a@b.c", refl, refl, refl) (word "pw", refl, refl, refl) refl (omega arith)
