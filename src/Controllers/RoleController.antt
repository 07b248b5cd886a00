-- ===== src/Controllers/RoleController.antt =====
-- controllers/RoleController.cc: the handlers of roles. `client` is what `connect` leaves,
-- `enabled` the flag of the cache, and a request's JSON body is none where it does not parse.
use drogon_api_starter.Prelude.{
  ℕ, String, Bool, true, false, Option, none, some, List, if◌then◌else◌,
}
use drogon_api_starter.Prelude.Dict.{or_else}
use drogon_api_starter.Result.{Result, ok, err}
use drogon_api_starter.Action.{
  Action, done, lift, try_catch, on_std_exception, on_std_exception_what, on_invalid_argument,
  ◌>>=◌,
}
use drogon_api_starter.Json.{JsonLib}
use drogon_api_starter.Cache.{get, set, erase_prefix}
use drogon_api_starter.Pagination.{PageRequest, from, cache_key}
use drogon_api_starter.Pagination.Response.{to_json as page_to_json}
use drogon_api_starter.Platform.{Platform, Moment, World, on_db, on_redis}
use drogon_api_starter.Models.Roles.{Roles, to_json}
use drogon_api_starter.Services.RoleService.{
  list_roles, find_by_id, create_role, update_role, delete_role, to_public_json,
}
use drogon_api_starter.Controllers.Base.{Response, handle_response, error_response, no_content}
pub mod Writes

module _ (P : Platform) (enabled client : Bool) where
  abbrev Handler : Type 0
  Handler = Action (World P) (Response P.json.Value)

  -- The branch without a database client.
  abbrev pub with_client : Handler → Handler
  with_client handler =
      if client then handler else done (error_response P.json "Unable to connect to database" 500)

  -- The cached page, where there is one and it parses.
  abbrev pub cached_page : Option String → Option P.json.Value
  cached_page none = none
  cached_page (some text) = P.json.parse text

  -- The page from the database, which goes to the cache for 30 seconds.
  unfoldable pub fetch_page : PageRequest → String → Handler
  fetch_page page_request key = on_db (list_roles P page_request) >>= λ page.
      let results = page_to_json P.json P.int_overflow (to_public_json P) page in
      on_redis (set P.redis enabled key (P.json.write results) 30) >>= λ _.
      done (handle_response P.json results 200)

  -- `if (parsed) { callback(handleResponse(cachedResponse, k200OK)); return; }`
  abbrev pub answer_or : Option P.json.Value → Handler → Handler
  answer_or none rest = rest
  answer_or (some response) rest = done (handle_response P.json response 200)

  unfoldable pub page_response : PageRequest → Handler
  page_response page_request =
      let key = cache_key page_request "roles" in
      on_redis (get P.redis enabled key) >>= λ cached.
      answer_or (cached_page cached) (fetch_page page_request key)

  unfoldable pub get_roles : List (String × String) → Handler
  get_roles parameters = with_client (
      try_catch (lift (from parameters) >>= page_response)
        (on_std_exception_what (λ what. done (error_response P.json what 500))))

  abbrev pub row_response : Option (Roles P.Date) → Handler
  row_response none = done (error_response P.json "Record not found" 404)
  row_response (some row) = done (handle_response P.json (to_public_json P row) 200)

  unfoldable pub get_role_by_id : String → Handler
  get_role_by_id id = with_client (on_db (find_by_id P id) >>= λ row. row_response row)

  -- `jsonBody ? *jsonBody : Json::Value()`
  abbrev pub body_or_null : Option P.json.Value → P.json.Value
  body_or_null body = or_else body P.json.null

  unfoldable pub create_role_handler : Moment P → Option P.json.Value → Handler
  create_role_handler moment body = with_client (
      try_catch
        (on_db (create_role P moment (body_or_null body)) >>= λ row.
          on_redis (erase_prefix P.redis enabled "roles:") >>= λ _.
          done (handle_response P.json (to_json P.json P.to_db_string_local row) 201))
        (on_invalid_argument (λ _. done (error_response P.json "Missing data in JSON body" 400))
          (on_std_exception (done (error_response P.json "Unable to create role" 500)))))

  unfoldable pub update_role_by_id : Moment P → String → Option P.json.Value → Handler
  update_role_by_id moment role_id body = with_client (
      try_catch
        (on_db (update_role P moment role_id (body_or_null body)) >>= λ row.
          on_redis (erase_prefix P.redis enabled "roles:") >>= λ _.
          done (handle_response P.json (to_json P.json P.to_db_string_local row) 200))
        (on_invalid_argument
          (λ _. done (error_response P.json "Request body must contain name and description" 400))
          (on_std_exception (done (error_response P.json "Unable to update role" 500)))))

  -- What follows the query of a deletion.
  abbrev pub delete_answer : Bool → Handler
  delete_answer deleted = on_redis (erase_prefix P.redis enabled "roles:") >>= λ _.
      if deleted
      then done (no_content P.json)
      else done (error_response P.json "Record not found" 400)

  unfoldable pub delete_role_by_id : String → Handler
  delete_role_by_id role_id = with_client (on_db (delete_role P role_id) >>= delete_answer)
