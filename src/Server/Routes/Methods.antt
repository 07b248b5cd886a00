-- ===== src/Server/Routes/Methods.antt =====
-- controllers/UserController.h and RoleController.h: the METHOD_LIST of each controller, and that
-- registerRoutes of main.cc, which registers the routes by hand, serves what it says.
use drogon_api_starter.Prelude.{
  ℕ, ◌≡◌, refl, String, Bool, true, Option, none, some, List, [], ◌∷◌, ◌++◌, if◌then◌else◌, str_eq,
  All,
}
use drogon_api_starter.Action.{Action, done}
use drogon_api_starter.Platform.{Platform, Moment, World}
use drogon_api_starter.Config.EnvFile.{Values}
use drogon_api_starter.Controllers.Base.{Response, get_headers, get_by_id_headers}
use drogon_api_starter.Controllers.UserController as U
use drogon_api_starter.Controllers.RoleController as R
use drogon_api_starter.Auth.{JwtLib}
use drogon_api_starter.Server.Routes.{
  HttpMethod, get, post, put, delete, options, listed, HttpRequest, Route, dispatch, once,
  user_handler, user_id_handler, role_handler, role_id_handler, service_routes,
}

-- `METHOD_ADD(operation, pattern, method, filters...)`
pub record Entry (S V : Type 0) : Type 0 where
  pub pattern : String
  pub method : HttpMethod
  pub filters : List String
  pub operation : HttpRequest V → Action S (List (Response V))

-- The route that is registered for a pattern.
abbrev pub route_for : {S V : Type 0} → String → List (Route S V) → Option (Route S V)
route_for pattern [] = none
route_for pattern (route ∷ routes) =
    if str_eq route.pattern pattern then some route else route_for pattern routes

module _ (P : Platform) (moment : Moment P) (enabled user_client role_client : Bool) where
  unfoldable pub user_method_list : List (Entry (World P) P.json.Value)
  user_method_list =
      record {
        pattern = "/api/v1/user";
        method = options;
        filters = [];
        operation = λ r. once (done (get_headers P.json));
      }
      ∷ record {
        pattern = "/api/v1/user/{id}";
        method = options;
        filters = [];
        operation = λ r. once (done (get_by_id_headers P.json r.id));
      }
      ∷ record {
        pattern = "/api/v1/user";
        method = get;
        filters = "AuthFilter" ∷ [];
        operation = λ r. once (U.get_users P enabled user_client r.parameters);
      }
      ∷ record {
        pattern = "/api/v1/user/{id}";
        method = get;
        filters = "AuthFilter" ∷ [];
        operation = λ r. once (U.get_user_by_id P enabled user_client r.id);
      }
      ∷ record {
        pattern = "/api/v1/user";
        method = post;
        filters = "AuthFilter" ∷ [];
        operation = λ r. once (U.create_user_handler P enabled user_client moment r.body);
      }
      ∷ record {
        pattern = "/api/v1/user/{id}";
        method = put;
        filters = "AuthFilter" ∷ [];
        operation = λ r. once (U.update_user_by_id P enabled user_client moment r.id r.body);
      }
      ∷ record {
        pattern = "/api/v1/user/{id}";
        method = delete;
        filters = "AuthFilter" ∷ [];
        operation = λ r. once (U.delete_user_by_id P enabled user_client r.id);
      }
      ∷ []

  unfoldable pub role_method_list : List (Entry (World P) P.json.Value)
  role_method_list =
      record {
        pattern = "/api/v1/role";
        method = options;
        filters = [];
        operation = λ r. once (done (get_headers P.json));
      }
      ∷ record {
        pattern = "/api/v1/role/{id}";
        method = options;
        filters = [];
        operation = λ r. once (done (get_by_id_headers P.json r.id));
      }
      ∷ record {
        pattern = "/api/v1/role";
        method = get;
        filters = "AuthFilter" ∷ [];
        operation = λ r. once (R.get_roles P enabled role_client r.parameters);
      }
      ∷ record {
        pattern = "/api/v1/role/{id}";
        method = get;
        filters = "AuthFilter" ∷ [];
        operation = λ r. once (R.get_role_by_id P enabled role_client r.id);
      }
      ∷ record {
        pattern = "/api/v1/role";
        method = post;
        filters = "AuthFilter" ∷ [];
        operation = λ r. once (R.create_role_handler P enabled role_client moment r.body);
      }
      ∷ record {
        pattern = "/api/v1/role/{id}";
        method = put;
        filters = "AuthFilter" ∷ [];
        operation = λ r. once (R.update_role_by_id P enabled role_client moment r.id r.body);
      }
      ∷ record {
        pattern = "/api/v1/role/{id}";
        method = delete;
        filters = "AuthFilter" ∷ [];
        operation = λ r. once (R.delete_role_by_id P enabled role_client r.id);
      }
      ∷ []

module _ (P : Platform) (jwt : JwtLib) (now : ℕ) (values : Values) (moment : Moment P)
    (enabled auth_client user_client role_client : Bool) where
  -- What an entry asks of the routes: there is one for its pattern that has its method, and whose
  -- handler does for a request with that method what the entry's operation does; the auth filter
  -- stands before it.
  abbrev pub IsRouted : Entry (World P) P.json.Value → Type 0
  IsRouted entry =
      (route : Route (World P) P.json.Value) × (route_for entry.pattern
          (service_routes P jwt now values moment enabled auth_client user_client role_client)
        ≡ some route)
      × (listed entry.method route.methods ≡ true)
      × ((r : HttpRequest P.json.Value) → route.handler entry.method r ≡ entry.operation r)
      × (route.filters ≡ "AuthFilter" ∷ [])

  -- Every entry of the METHOD_LIST of UserController.h and of RoleController.h is served by a route
  -- that registerRoutes of main.cc adds for the entry's pattern: the route has the entry's method,
  -- its handler then does exactly what the entry's operation does, and the auth filter stands
  -- before it, for OPTIONS too, where the METHOD_LIST asks for no filter.
  pub method_lists-IsRouted : All IsRouted (
      user_method_list P moment enabled user_client role_client
      ++ role_method_list P moment enabled user_client role_client)
  unfolding service_routes user_method_list role_method_list user_handler user_id_handler
      role_handler role_id_handler dispatch
  method_lists-IsRouted = (
    (_, refl, refl, λ r. refl, refl),
    (
      (_, refl, refl, λ r. refl, refl),
      (
        (_, refl, refl, λ r. refl, refl),
        (
          (_, refl, refl, λ r. refl, refl),
          (
            (_, refl, refl, λ r. refl, refl),
            (
              (_, refl, refl, λ r. refl, refl),
              (
                (_, refl, refl, λ r. refl, refl),
                (
                  (_, refl, refl, λ r. refl, refl),
                  (
                    (_, refl, refl, λ r. refl, refl),
                    (
                      (_, refl, refl, λ r. refl, refl),
                      (
                        (_, refl, refl, λ r. refl, refl),
                        (
                          (_, refl, refl, λ r. refl, refl),
                          (
                            (_, refl, refl, λ r. refl, refl),
                            ((_, refl, refl, λ r. refl, refl), tt),
                          ),
                        ),
                      ),
                    ),
                  ),
                ),
              ),
            ),
          ),
        ),
      ),
    ),
  )
