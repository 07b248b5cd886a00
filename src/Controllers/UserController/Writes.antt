-- ===== src/Controllers/UserController/Writes.antt =====
-- controllers/UserController.cc: the handlers that write, and the cached pages.
use drogon_api_starter.Prelude.{◌≡◌, refl, sym, ◌∙◌, String, Bool, true, false, Option, none, ltb}
use drogon_api_starter.Result.{Result, ok, err}
use drogon_api_starter.Action.{Action, continue, ok-injective, err-ne-ok}
use drogon_api_starter.Cache.{get}
use drogon_api_starter.Cache.Store.{Store, begins}
use drogon_api_starter.Pagination.{PageRequest, cache_key}
use drogon_api_starter.Platform.{Platform, Moment, World, on_db}
use drogon_api_starter.Services.UserService.{create_user, update_user, delete_user}
use drogon_api_starter.Controllers.Base.{Response, error_response, no_content}
use drogon_api_starter.Controllers.Invalidation.{begins-cache_key, erased-get, invalidated}
use drogon_api_starter.Controllers.UserController.{
  body_or_null, delete_answer, create_user_handler, update_user_by_id, delete_user_by_id,
}

-- A request that writes: POST, PUT and DELETE.
pub data UserWrite (Value : Type 0) : Type 0 where
  create : Option Value → UserWrite Value
  update : String → Option Value → UserWrite Value
  delete : String → UserWrite Value

module _ (P : Platform) (enabled client : Bool) (moment : Moment P) where
  -- The handler that the request's method is routed to.
  abbrev pub perform_user : UserWrite P.json.Value → Action (World P) (Response P.json.Value)
  perform_user (create body) = create_user_handler P enabled client moment body
  perform_user (update id body) = update_user_by_id P enabled client moment id body
  perform_user (delete id) = delete_user_by_id P enabled client id

module _ (P : Platform) (store : Store P.redis) where
  abbrev Answer : Type 0
  Answer = Response P.json.Value

  deleted-get :
      (m : Result Bool × World P) (r : Answer) (w' : World P) (key : String)
      → continue (delete_answer P true true) m ≡ (ok r, w')
      → begins "users:" key ≡ true
      → get P.redis true key w'.redis ≡ (ok none, w'.redis)
  deleted-get (ok true, w) r w' key h begin =
      let (_, done_with, gone) = erased-get P store "users:" refl (no_content P.json) w key begin in
      let (_, world) = ok-injective (sym done_with ∙ h) in rw (sym world) gone
  deleted-get (ok false, w) r w' key h begin =
      let (_, done_with, gone) =
        erased-get P store "users:" refl (error_response P.json "Record not found" 400) w key
          begin in
      let (_, world) = ok-injective (sym done_with ∙ h) in rw (sym world) gone
  deleted-get (err e, w) r w' key h begin = elim (err-ne-ok h) [ ]

  -- After a handler of controllers/UserController.cc that creates, updates or deletes has answered
  -- with a success, the cache has no page of users left, where Redis holds what it was given: no
  -- list that was cached before the write is served after it.
  pub perform_user-invalidates :
      (moment : Moment P) (write : UserWrite P.json.Value) (w w' : World P) (r : Answer)
      (request : PageRequest)
      → perform_user P true true moment write w ≡ (ok r, w')
      → ltb r.status 300 ≡ true
      → get P.redis true (cache_key request "users") w'.redis ≡ (ok none, w'.redis)
  unfolding create_user_handler update_user_by_id delete_user_by_id
  perform_user-invalidates moment (create body) w w' r request h status =
      let (begin, _) = begins-cache_key request in
      invalidated P store "users:" refl
        (on_db (create_user P moment (body_or_null P true true body)) w) _ _ _ r w'
        (cache_key request "users") refl refl h status begin
  perform_user-invalidates moment (update id body) w w' r request h status =
      let (begin, _) = begins-cache_key request in
      invalidated P store "users:" refl
        (on_db (update_user P moment id (body_or_null P true true body)) w) _ _ _ r w'
        (cache_key request "users") refl refl h status begin
  perform_user-invalidates moment (delete id) w w' r request h status =
      let (begin, _) = begins-cache_key request in
      deleted-get (on_db (delete_user P id) w) r w' (cache_key request "users") h begin
