-- ===== src/Controllers/UserController/Pages.antt =====
-- controllers/UserController.cc, getUsers: the cached page is the page.
use drogon_api_starter.Prelude.{
  ◌≡◌, refl, sym, ap, ◌∙◌, String, true, none, some, List, inl, inr, Option-cases, eq_refl, arith,
}
use drogon_api_starter.Result.{Exception, invalid_argument, std_exception, foreign, Result, ok, err}
use drogon_api_starter.Action.{
  Action, done, continue, handled, on_invalid_argument, on_std_exception_what, ok-injective,
  err-ne-ok,
}
use drogon_api_starter.Json.{RoundTrip}
use drogon_api_starter.Cache.Store.{Store, found, get-value_at, set-after_set}
use drogon_api_starter.Pagination.{PageRequest, PageResult, from, cache_key}
use drogon_api_starter.Pagination.Response.{to_json as page_to_json}
use drogon_api_starter.Platform.{Platform, World}
use drogon_api_starter.Models.Users.{Users}
use drogon_api_starter.Services.UserService.{list_users, to_public_json}
use drogon_api_starter.Controllers.Base.{Response, handle_response, error_response}
use drogon_api_starter.Controllers.UserController.{
  cached_page, fetch_page, page_response, get_users,
}

module _ (P : Platform) (store : Store P.redis) (trip : RoundTrip P.json) where
  abbrev Answer : Type 0
  Answer = Response P.json.Value

  -- A cached page that parses is the answer, and nothing changes.
  cached-page_response :
      (request : PageRequest) (w : World P) (v : P.json.Value)
      → cached_page P true true (found (store.value_at w.redis (cache_key request "users")))
        ≡ some v
      → page_response P true true request w ≡ (ok (handle_response P.json v 200), w)
  unfolding page_response
  cached-page_response request w v h =
      rw (get-value_at P.redis store (cache_key request "users") w.redis, h) refl

  uncached-page_response :
      (request : PageRequest) (w : World P)
      → cached_page P true true (found (store.value_at w.redis (cache_key request "users"))) ≡ none
      → page_response P true true request w
        ≡ fetch_page P true true request (cache_key request "users") w
  unfolding page_response
  uncached-page_response request w h =
      rw (get-value_at P.redis store (cache_key request "users") w.redis, h) refl

  -- The page just stored is read back.
  stored :
      (request : PageRequest) (db : P.Db) (redis : P.redis.Redis) (v : P.json.Value)
      → page_response P true true request (record {
        db = db;
        redis = store.after_set (cache_key request "users") (P.json.write v) redis;
      })
        ≡ (
          ok (handle_response P.json v 200),
          record {
            db = db;
            redis = store.after_set (cache_key request "users") (P.json.write v) redis;
          },
        )
  stored request db redis v = cached-page_response request _ v (
      rw
        (
          store.value_at-after_set (cache_key request "users") (P.json.write v)
              (cache_key request "users") redis,
          eq_refl (cache_key request "users"),
          trip.write-ne-empty v,
        )
        (trip.parse-write v))

  abbrev fetched : PageResult (Users P.Date) → P.json.Value
  fetched page = page_to_json P.json P.int_overflow (to_public_json P) page

  fetch_page-err :
      (request : PageRequest) (w : World P) (e : Exception) (db : P.Db)
      → list_users P request w.db ≡ (err e, db)
      → fetch_page P true true request (cache_key request "users") w ≡ (err e, record w { db = db })
  unfolding fetch_page
  fetch_page-err request w e db listed = rw listed refl

  fetch_page-ok :
      (request : PageRequest) (w : World P) (page : PageResult (Users P.Date)) (db : P.Db)
      → list_users P request w.db ≡ (ok page, db)
      → fetch_page P true true request (cache_key request "users") w ≡ (
        ok (handle_response P.json (fetched page) 200),
        record {
          db = db;
          redis = store.after_set (cache_key request "users") (P.json.write (fetched page)) w.redis;
        },
      )
  unfolding fetch_page
  fetch_page-ok request w page db listed =
      rw
        (
          listed,
          set-after_set P.redis store (cache_key request "users") (P.json.write (fetched page)) 30
              w.redis,
        )
        refl

  fetched-again :
      (request : PageRequest) (w w' : World P) (r : Answer)
      (m : Result (PageResult (Users P.Date)) × P.Db)
      → list_users P request w.db ≡ m
      → fetch_page P true true request (cache_key request "users") w ≡ (ok r, w')
      → page_response P true true request w' ≡ (ok r, w')
  fetched-again request w w' r (err e, db) listed h =
      elim (err-ne-ok (sym (fetch_page-err request w e db listed) ∙ h)) [ ]
  fetched-again request w w' r (ok page, db) listed h =
      let (same, left) = ok-injective (sym (fetch_page-ok request w page db listed) ∙ h) in
      rw (sym same, sym left) (stored request db w.redis (fetched page))

  page_response-again :
      (request : PageRequest) (w w' : World P) (r : Answer)
      → page_response P true true request w ≡ (ok r, w')
      → page_response P true true request w' ≡ (ok r, w')
  page_response-again request w w' r h =
      elim (Option-cases
        (cached_page P true true (found (store.value_at w.redis (cache_key request "users"))))) [
          | inl e ↦
              fetched-again request w w' r (list_users P request w.db) refl
                (sym (uncached-page_response request w e) ∙ h)
          | inr (v, e) ↦
              let (same, left) = ok-injective (sym (cached-page_response request w v e) ∙ h) in
              rw (sym same, sym left) (cached-page_response request w v e)
        ]

  -- What the handlers of getUsers make of an exception is no page.
  abbrev handlers : Exception → Action (World P) Answer
  handlers =
      on_invalid_argument (λ what. done (error_response P.json what 400))
        (on_std_exception_what (λ what. done (error_response P.json what 500)))

  unhandled :
      (m : Result Answer × World P) (r : Answer) (w' : World P)
      → handled handlers m ≡ (ok r, w')
      → r.status ≡ 200
      → m ≡ (ok r, w')
  unhandled (ok a, s) r w' h status = h
  unhandled (err (invalid_argument what), s) r w' h status =
      let (same, _) = ok-injective h in
      let other = ap (λ a. a.status) same ∙ status in ground (arith, other)
  unhandled (err (std_exception what), s) r w' h status =
      let (same, _) = ok-injective h in
      let other = ap (λ a. a.status) same ∙ status in ground (arith, other)
  unhandled (err foreign, s) r w' h status = h

  again :
      (page : Result PageRequest) (w w' : World P) (r : Answer)
      → handled handlers (continue (page_response P true true) (page, w)) ≡ (ok r, w')
      → r.status ≡ 200
      → handled handlers (continue (page_response P true true) (page, w')) ≡ (ok r, w')
  again (ok request) w w' r h status =
      rw
        (page_response-again request w w' r
          (unhandled (page_response P true true request w) r w' h status))
        refl
  again (err e) w w' r h status = elim (err-ne-ok (unhandled (err e, w) r w' h status)) [ ]

  -- A page of users that getUsers of controllers/UserController.cc answered with 200 is answered
  -- again to the same parameters, with the database and the cache left as they are, where Redis
  -- holds what it was given and JSON that was written reads back.
  pub get_users-again :
      (parameters : List (String × String)) (w w' : World P) (r : Answer)
      → get_users P true true parameters w ≡ (ok r, w')
      → r.status ≡ 200
      → get_users P true true parameters w' ≡ (ok r, w')
  unfolding get_users
  get_users-again parameters w w' r h status = again (from parameters) w w' r h status
