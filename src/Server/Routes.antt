-- ===== src/Server/Routes.antt =====
-- main.cc, registerRoutes: the handlers of the service's routes, which pass a request on to an
-- operation of a controller by its method, and the handlers of `/health` and `/ready`.
use drogon_api_starter.Prelude.{
  ℕ, ◌≡◌, refl, ◌⊎◌, inl, inr, String, Bool, true, false, ◌||◌, ◌==◌, Option, some, List, [], ◌∷◌,
  if◌then◌else◌, All, map,
}
use drogon_api_starter.Result.{Result, ok, err, is_std_exception, ◌>>=◌ as and_next}
use drogon_api_starter.Action.{Action, done, continue, lift, ◌>>=◌}
use drogon_api_starter.Json.{JsonLib}
use drogon_api_starter.Platform.{Platform, Moment, World, on_db}
use drogon_api_starter.Config.EnvFile.{Values}
use drogon_api_starter.Controllers.Base.{Response, get_headers, get_by_id_headers}
use drogon_api_starter.Controllers.UserController as U
use drogon_api_starter.Controllers.RoleController as R
use drogon_api_starter.Auth.{JwtLib, async_handle_http_request}
pub mod Methods

-- drogon::HttpMethod
pub data HttpMethod : Type 0 where
  get post head put delete options patch invalid : HttpMethod

abbrev number : HttpMethod → ℕ
number get = 0
number post = 1
number head = 2
number put = 3
number delete = 4
number options = 5
number patch = 6
number invalid = 7

abbrev pub is : HttpMethod → HttpMethod → Bool
is m n = number m == number n

abbrev pub listed : HttpMethod → List HttpMethod → Bool
listed m [] = false
listed m (n ∷ ns) = is m n || listed m ns

-- What the handlers use of a request: the query's parameters, the JSON body where it parses, and the
-- `{id}` of the path.
pub record HttpRequest (Value : Type 0) : Type 0 where
  pub parameters : List (String × String)
  pub body : Option Value
  pub id : String

module _ (json : JsonLib) where
  -- HttpResponse::newHttpJsonResponse with a status
  abbrev json_response : ℕ → json.Value → Response json.Value
  json_response status value = record {
    status = status;
    headers = ("Content-Type", "application/json") ∷ [];
    body = some value;
  }

  unfoldable pub health_handler : Response json.Value
  health_handler = json_response 200 (json.set "status" (json.of_string "up") json.null)

  abbrev caught : Result Bool → Result Bool
  caught (ok ready) = ok ready
  caught (err e) = if is_std_exception e then ok false else err e

  abbrev pub readiness : Bool → Response json.Value
  readiness ready = json_response (if ready then 200 else 503) (
      json.set "database" (json.of_string (if ready then "up" else "down"))
        (json.set "status" (json.of_string (if ready then "ready" else "not_ready")) json.null))

  -- The handler of `/ready`: whether there is a client, and whether all clients are available,
  -- which is asked only then.
  unfoldable pub ready_handler : Result Bool → Result Bool → Result (Response json.Value)
  ready_handler client available =
      and_next (caught (and_next client (λ has_client. if has_client then available else ok false)))
        (λ ready. ok (readiness ready))

module _ {S V : Type 0} where
  -- `if (method == a) { ... } else if (method == b) { ... }`, with the responses that the callback
  -- was called with: none where no branch is taken.
  unfoldable pub dispatch :
      HttpMethod → List (HttpMethod × Action S (List (Response V))) → Action S (List (Response V))
  dispatch m [] = done []
  dispatch m ((n, operation) ∷ branches) = if is m n then operation else dispatch m branches

  -- An operation that calls the callback with the response it comes to.
  abbrev pub once : Action S (Response V) → Action S (List (Response V))
  once operation = operation >>= λ response. done (response ∷ [])

  -- The same for every branch.
  abbrev pub answering :
      List (HttpMethod × Action S (Response V)) → List (HttpMethod × Action S (List (Response V)))
  answering [] = []
  answering ((n, operation) ∷ branches) = (n, once operation) ∷ answering branches

pub record Route (S V : Type 0) : Type 0 where
  pub pattern : String
  pub methods : List HttpMethod
  pub filters : List String
  pub handler : HttpMethod → HttpRequest V → Action S (List (Response V))

module _ (P : Platform) (jwt : JwtLib) (now : ℕ) (values : Values) (moment : Moment P)
    (enabled auth_client user_client role_client : Bool) where
  abbrev Handler : Type 0
  Handler = HttpMethod → HttpRequest P.json.Value → Action (World P) (List (Response P.json.Value))

  abbrev Operations : Type 0
  Operations = List (HttpMethod × Action (World P) (Response P.json.Value))

  unfoldable pub generate_jwt_handler : Handler
  generate_jwt_handler m r = dispatch m (
      (options, once (done (get_headers P.json)))
      ∷ (post, on_db (async_handle_http_request P jwt now values auth_client r.body))
      ∷ [])

  abbrev pub user_operations : HttpRequest P.json.Value → Operations
  user_operations r =
      (options, done (get_headers P.json))
      ∷ (get, U.get_users P enabled user_client r.parameters)
      ∷ (post, U.create_user_handler P enabled user_client moment r.body)
      ∷ []

  unfoldable pub user_handler : Handler
  user_handler m r = dispatch m (answering (user_operations r))

  abbrev pub user_id_operations : HttpRequest P.json.Value → Operations
  user_id_operations r =
      (options, done (get_by_id_headers P.json r.id))
      ∷ (get, U.get_user_by_id P enabled user_client r.id)
      ∷ (put, U.update_user_by_id P enabled user_client moment r.id r.body)
      ∷ (delete, U.delete_user_by_id P enabled user_client r.id)
      ∷ []

  unfoldable pub user_id_handler : Handler
  user_id_handler m r = dispatch m (answering (user_id_operations r))

  abbrev pub role_operations : HttpRequest P.json.Value → Operations
  role_operations r =
      (options, done (get_headers P.json))
      ∷ (get, R.get_roles P enabled role_client r.parameters)
      ∷ (post, R.create_role_handler P enabled role_client moment r.body)
      ∷ []

  unfoldable pub role_handler : Handler
  role_handler m r = dispatch m (answering (role_operations r))

  abbrev pub role_id_operations : HttpRequest P.json.Value → Operations
  role_id_operations r =
      (options, done (get_by_id_headers P.json r.id))
      ∷ (get, R.get_role_by_id P enabled role_client r.id)
      ∷ (put, R.update_role_by_id P enabled role_client moment r.id r.body)
      ∷ (delete, R.delete_role_by_id P enabled role_client r.id)
      ∷ []

  unfoldable pub role_id_handler : Handler
  role_id_handler m r = dispatch m (answering (role_id_operations r))

  -- The routes of the user service, as they are registered.
  unfoldable pub service_routes : List (Route (World P) P.json.Value)
  service_routes =
      record {
        pattern = "/api/v1/generate-jwt";
        methods = options ∷ post ∷ [];
        filters = [];
        handler = generate_jwt_handler;
      }
      ∷ record {
        pattern = "/api/v1/user";
        methods = options ∷ get ∷ post ∷ [];
        filters = "AuthFilter" ∷ [];
        handler = user_handler;
      }
      ∷ record {
        pattern = "/api/v1/user/{id}";
        methods = options ∷ get ∷ put ∷ delete ∷ [];
        filters = "AuthFilter" ∷ [];
        handler = user_id_handler;
      }
      ∷ record {
        pattern = "/api/v1/role";
        methods = options ∷ get ∷ post ∷ [];
        filters = "AuthFilter" ∷ [];
        handler = role_handler;
      }
      ∷ record {
        pattern = "/api/v1/role/{id}";
        methods = options ∷ get ∷ put ∷ delete ∷ [];
        filters = "AuthFilter" ∷ [];
        handler = role_id_handler;
      }
      ∷ []
