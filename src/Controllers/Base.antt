-- ===== src/Controllers/Base.antt =====
-- controllers/BaseController.h and .cc, and the `connect` of the controllers. A handler is taken to
-- call its callback once, with the response that it returns; where an exception leaves the handler
-- instead, it returns that. A callback that is called twice, or that throws, is not expressed.
use drogon_api_starter.Prelude.{ℕ, String, Bool, ◌||◌, ◌&&◌, Option, none, some, List, [], ◌∷◌}
use drogon_api_starter.Json.{JsonLib}

pub record Response (Value : Type 0) : Type 0 where
  pub status : ℕ
  pub headers : List (String × String)
  pub body : Option Value

module _ (json : JsonLib) where
  -- `handleResponse`
  abbrev pub handle_response : json.Value → ℕ → Response json.Value
  handle_response value status = record {
    status = status;
    headers = ("Content-Type", "application/json") ∷ ("Access-Control-Allow-Origin", "*") ∷ [];
    body = some value;
  }

  -- `error["error"] = message;` and its response
  abbrev pub error_response : String → ℕ → Response json.Value
  error_response message status =
      handle_response (json.set "error" (json.of_string message) json.null) status

  abbrev pub no_content : Response json.Value
  no_content = record {
    status = 204;
    headers = ("Content-Type", "application/json") ∷ ("Access-Control-Allow-Origin", "*") ∷ [];
    body = none;
  }

  -- `getHeaders` and `getByIdHeaders`, the answers to OPTIONS
  unfoldable pub get_headers : Response json.Value
  get_headers = record {
    status = 200;
    headers =
        ("Content-Type", "application/json")
        ∷ ("Access-Control-Allow-Origin", "*")
        ∷ ("Access-Control-Allow-Headers", "Content-Type")
        ∷ ("Access-Control-Allow-Methods", "OPTIONS,POST,GET")
        ∷ [];
    body = some json.null;
  }

  unfoldable pub get_by_id_headers : String → Response json.Value
  get_by_id_headers user_id = record {
    status = 200;
    headers =
        ("Content-Type", "application/json")
        ∷ ("Access-Control-Allow-Origin", "*")
        ∷ ("Access-Control-Allow-Headers", "Content-Type")
        ∷ ("Access-Control-Allow-Methods", "OPTIONS,DELETE,PUT,GET")
        ∷ [];
    body = some json.null;
  }

-- `connect()`: the client that a controller has afterwards, from the one it has, whether the app
-- runs, and whether `getDbClient` has one.
abbrev pub connect : Bool → Bool → Bool → Bool
connect client running available = client || (running && available)
