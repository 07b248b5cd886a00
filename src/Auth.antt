-- ===== src/Auth.antt =====
-- helpers/AuthToken.h, filters/AuthFilter.cc and controllers/AuthController.cc: the login, its
-- token and the filter in front of the protected routes.
use drogon_api_starter.Prelude.{
  ℕ, ◌+◌, String, Bool, true, false, not, Option, none, some, List, [], ◌∷◌, if◌then◌else◌,
}
use drogon_api_starter.Prelude.Dict.{lookup, or_else}
use drogon_api_starter.Text.{is_empty, strip_prefix}
use drogon_api_starter.Result.{Exception, Result, ok, err, is_std_exception}
use drogon_api_starter.Action.{Action, done, lift, ◌>>=◌}
use drogon_api_starter.Json.{JsonLib}
use drogon_api_starter.Platform.{Platform}
use drogon_api_starter.Services.Input.{text_at}
use drogon_api_starter.Config.EnvFile.{Values}
use drogon_api_starter.Models.Users.{
  Users, get_value_of_id, get_value_of_first_name, get_value_of_last_name, get_value_of_email,
  get_value_of_password,
}
use drogon_api_starter.Controllers.Base.{Response, handle_response, error_response}
pub mod Tokens
pub mod Login
pub mod Tests

-- What a token states.
pub record Claims : Type 0 where
  pub issuer : String
  pub identity : String
  pub issued_at : ℕ
  pub expires_at : ℕ

-- jwt-cpp: `sign` with HS256 and a key, and `decode` with `verify` under a key and an issuer at a
-- time, either of which may throw.
pub record JwtLib : Type 0 where
  pub sign : String → Claims → String
  pub verify : String → String → ℕ → String → Result (Unit {0})

module _ (jwt : JwtLib) where
  -- `generateJWT`, with the time of the two clock reads
  unfoldable pub generate_jwt : ℕ → String → String → String
  generate_jwt now secret_key email =
      jwt.sign secret_key
        (record { issuer = "auth0"; identity = email; issued_at = now; expires_at = now + 3600 })

  -- `catch (const std::exception&) { return false; }`
  abbrev pub verified : Result (Unit {0}) → Result Bool
  verified (ok _) = ok true
  verified (err e) = if is_std_exception e then ok false else err e

  abbrev pub without_bearer : String → String
  without_bearer token = or_else (strip_prefix "Bearer " token) token

  -- `verifyJWT`
  unfoldable pub verify_jwt : ℕ → String → String → Result Bool
  verify_jwt now secret_key token_string =
      if is_empty secret_key
      then ok false
      else if is_empty token_string
      then ok false
      else verified (jwt.verify secret_key "auth0" now (without_bearer token_string))

-- `getEnvVariable`
abbrev pub get_env_variable : String → Values → String
get_env_variable name values = or_else (lookup name values) ""

-- `getEnv`, over the lines of .env: the key that it reads is always SECRET_KEY.
unfoldable pub get_env : Values → String → String
get_env values name = get_env_variable "SECRET_KEY" values

-- What a filter does: `fcb` answers in the handler's place, `fccb` goes on to the handler.
pub data Filtered (Value : Type 0) : Type 0 where
  answered : Response Value → Filtered Value
  passed : Filtered Value

module _ (json : JsonLib) (jwt : JwtLib) where
  abbrev invalid_token : Response json.Value
  invalid_token = record {
    status = 401;
    headers = ("Content-Type", "application/json") ∷ [];
    body = some (json.set "error" (json.of_string "Invalid Access token") json.null);
  }

  abbrev pub filtered : Result Bool → Result (Filtered json.Value)
  filtered (ok true) = ok passed
  filtered (ok false) = ok (answered invalid_token)
  filtered (err e) = err e

  -- `AuthFilter::doFilter`, with the header Authorization, which is empty where it is missing
  unfoldable pub do_filter : ℕ → Values → String → Result (Filtered json.Value)
  do_filter now values authorization =
      filtered (verify_jwt jwt now (get_env values "SECRET_KEY") authorization)

module _ (P : Platform) (jwt : JwtLib) (now : ℕ) (values : Values) where
  abbrev Callbacks : Type 0
  Callbacks = List (Response P.json.Value)

  abbrev user_json : Users P.Date → P.json.Value
  user_json user = P.json.set "email" (P.json.of_string (get_value_of_email user)) (
      P.json.set "last_name" (P.json.of_string (get_value_of_last_name user)) (
        P.json.set "first_name" (P.json.of_string (get_value_of_first_name user))
          (P.json.set "id" (P.json.of_string (get_value_of_id user)) P.json.null)))

  abbrev invalid_credentials : Response P.json.Value
  invalid_credentials = error_response P.json "Invalid credentials" 401

  abbrev token_response : String → P.json.Value → Response P.json.Value
  token_response email users_json =
      handle_response P.json
        (P.json.set "user" users_json (
          P.json.set "access"
            (P.json.of_string (generate_jwt jwt now (get_env values "SECRET_KEY") email))
            P.json.null))
        200

  -- The loop over the users of that email: it answers once for each, and stops at the first one whose
  -- password is another.
  unfoldable pub answer_users : String → String → P.json.Value → List (Users P.Date) → Callbacks
  answer_users email password users_json [] = []
  answer_users email password users_json (user ∷ users) =
      let listed = P.json.append users_json (user_json user) in
      let rest = answer_users email password listed users in
      if not (P.validate_password password (get_value_of_password user))
      then invalid_credentials ∷ []
      else token_response email listed ∷ rest

  abbrev login_answers : String → String → List (Users P.Date) → Callbacks
  login_answers email password [] = invalid_credentials ∷ []
  login_answers email password (user ∷ users) =
      answer_users email password P.json.empty_array (user ∷ users)

  abbrev bad_request : Callbacks
  bad_request = error_response P.json "Request body must contain email and password" 400 ∷ []

  abbrev string_member : P.json.Value → String → Action P.Db Bool
  string_member body key = lift (P.json.index body key) >>= λ v. done (P.json.is_string v)

  -- The query and what follows it.
  unfoldable pub login : P.json.Value → Action P.Db Callbacks
  login body = lift (text_at P.json body "email") >>= λ email.
      lift (text_at P.json body "password") >>= λ password.
      P.find_users_by "email" email >>= λ users. done (login_answers email password users)

  abbrev with_body : Option P.json.Value → Action P.Db Callbacks
  with_body none = done bad_request
  with_body (some body) = string_member body "email" >>= λ email.
      if not email
      then done bad_request
      else (string_member body "password" >>= λ password.
          if not password then done bad_request else login body)

  -- `asyncHandleHttpRequest`: the responses that the callback was called with, in order.
  unfoldable pub async_handle_http_request : Bool → Option P.json.Value → Action P.Db Callbacks
  async_handle_http_request client body =
      if client
      then with_body body
      else done (
          record {
            status = 500;
            headers = ("Content-Type", "application/json") ∷ [];
            body = some (
                P.json.set "error" (P.json.of_string "Unable to connect to the database")
                  P.json.null);
          }
          ∷ [])
