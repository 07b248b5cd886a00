-- ===== src/Controllers/RoleController/Writes.antt =====
-- controllers/RoleController.cc: the handlers that write, and the cached pages.
use drogon_api_starter.Prelude.{◌≡◌, refl, sym, ◌∙◌, String, Bool, true, false, Option, none, ltb}
use drogon_api_starter.Result.{Result, ok, err}
use drogon_api_starter.Action.{Action, continue, ok-injective, err-ne-ok}
use drogon_api_starter.Cache.{get}
use drogon_api_starter.Cache.Store.{Store, begins}
use drogon_api_starter.Pagination.{PageRequest, cache_key}
use drogon_api_starter.Platform.{Platform, Moment, World, on_db}
use drogon_api_starter.Services.RoleService.{create_role, update_role, delete_role}
use drogon_api_starter.Controllers.Base.{Response, error_response, no_content}
use drogon_api_starter.Controllers.Invalidation.{begins-cache_key, erased-get, invalidated}
use drogon_api_starter.Controllers.RoleController.{
  body_or_null, delete_answer, create_role_handler, update_role_by_id, delete_role_by_id,
}

-- A request that writes: POST, PUT and DELETE.
pub data RoleWrite (Value : Type 0) : Type 0 where
  create : Option Value → RoleWrite Value
  update : String → Option Value → RoleWrite Value
  delete : String → RoleWrite Value

module _ (P : Platform) (enabled client : Bool) (moment : Moment P) where
  -- The handler that the request's method is routed to.
  abbrev pub perform_role : RoleWrite P.json.Value → Action (World P) (Response P.json.Value)
  perform_role (create body) = create_role_handler P enabled client moment body
  perform_role (update id body) = update_role_by_id P enabled client moment id body
  perform_role (delete id) = delete_role_by_id P enabled client id

module _ (P : Platform) (store : Store P.redis) where
  abbrev Answer : Type 0
  Answer = Response P.json.Value

  deleted-get :
      (m : Result Bool × World P) (r : Answer) (w' : World P) (key : String)
      → continue (delete_answer P true true) m ≡ (ok r, w')
      → begins "roles:" key ≡ true
      → get P.redis true key w'.redis ≡ (ok none, w'.redis)
  deleted-get (ok true, w) r w' key h begin =
      let (_, done_with, gone) = erased-get P store "roles:" refl (no_content P.json) w key begin in
      let (_, world) = ok-injective (sym done_with ∙ h) in rw (sym world) gone
  deleted-get (ok false, w) r w' key h begin =
      let (_, done_with, gone) =
        erased-get P store "roles:" refl (error_response P.json "Record not found" 400) w key
          begin in
      let (_, world) = ok-injective (sym done_with ∙ h) in rw (sym world) gone
  deleted-get (err e, w) r w' key h begin = elim (err-ne-ok h) [ ]

  -- After a handler of controllers/RoleController.cc that creates, updates or deletes has answered
  -- with a success, the cache has no page of roles left, where Redis holds what it was given: no
  -- list that was cached before the write is served after it.
  pub perform_role-invalidates :
      (moment : Moment P) (write : RoleWrite P.json.Value) (w w' : World P) (r : Answer)
      (request : PageRequest)
      → perform_role P true true moment write w ≡ (ok r, w')
      → ltb r.status 300 ≡ true
      → get P.redis true (cache_key request "roles") w'.redis ≡ (ok none, w'.redis)
  unfolding create_role_handler update_role_by_id delete_role_by_id
  perform_role-invalidates moment (create body) w w' r request h status =
      let (_, begin) = begins-cache_key request in
      invalidated P store "roles:" refl
        (on_db (create_role P moment (body_or_null P true true body)) w) _ _ _ r w'
        (cache_key request "roles") refl refl h status begin
  perform_role-invalidates moment (update id body) w w' r request h status =
      let (_, begin) = begins-cache_key request in
      invalidated P store "roles:" refl
        (on_db (update_role P moment id (body_or_null P true true body)) w) _ _ _ r w'
        (cache_key request "roles") refl refl h status begin
  perform_role-invalidates moment (delete id) w w' r request h status =
      let (_, begin) = begins-cache_key request in
      deleted-get (on_db (delete_role P id) w) r w' (cache_key request "roles") h begin
