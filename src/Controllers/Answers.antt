-- ===== src/Controllers/Answers.antt =====
-- controllers/: which handlers answer whatever the database and the cache throw.
use drogon_api_starter.Prelude.{
  ℕ, ◌≡◌, refl, inl, inr, String, Bool, true, false, Option, none, some, List, [], ◌∷◌, arith,
}
use drogon_api_starter.Result.{
  Exception, invalid_argument, std_exception, foreign, Result, ok, err, is_invalid_argument,
  is_std_exception,
}
use drogon_api_starter.Action.{
  done, continue, handled, on_invalid_argument, on_std_exception, on_std_exception_what,
}
use drogon_api_starter.Json.{Laws}
use drogon_api_starter.Cache.Laws.{OnlyStd, ThrowsStd, Returns, continue-OnlyStd, cache-Returns}
use drogon_api_starter.Cache.{erase_prefix}
use drogon_api_starter.Pagination.{PageRequest, from, cache_key}
use drogon_api_starter.Pagination.Laws.{from-invalid_argument}
use drogon_api_starter.Pagination.Response.{to_json as page_to_json}
use drogon_api_starter.Platform.{Platform, Mapper, Moment, World, on_db, on_redis}
use drogon_api_starter.Models.Users.{Users}
use drogon_api_starter.Services.UserService.{
  list_users, create_user, update_user, find_by_id, with_key, to_public_json,
}
use drogon_api_starter.Services.UserService.Laws.{create_user-cases, update_user-cases}
use drogon_api_starter.Controllers.Base.{Response}
use drogon_api_starter.Controllers.UserController as UC

-- A mapper's queries throw DrogonDbException and its kinds, which are below std::exception.
pub record QueriesStd {Db Row : Type 0} (mapper : Mapper Db Row) : Type 0 where
  pub count-std : (db : Db) → OnlyStd (mapper.count db)
  pub find_page-std :
      (column : String) (n k : ℕ) (db : Db) → OnlyStd (mapper.find_page column n k db)
  pub insert-std : (row : Row) (db : Db) → OnlyStd (mapper.insert row db)
  pub update-std : (row : Row) (db : Db) → OnlyStd (mapper.update row db)

invalid-std : (e : Exception) → is_invalid_argument e ≡ true → is_std_exception e ≡ true
invalid-std (invalid_argument what) h = refl
invalid-std (std_exception what) h = refl
invalid-std foreign h = cc

module _ {S A : Type 0} where
  -- Either pair of handlers answers what it takes.
  two_handlers :
      (bad other : A) (m : Result A × S)
      → OnlyStd m
      → Returns (handled (on_invalid_argument (λ _. done bad) (on_std_exception (done other))) m)
  two_handlers bad other (ok a, s) h = (a, s, refl)
  two_handlers bad other (err (invalid_argument what), s) h = (bad, s, refl)
  two_handlers bad other (err (std_exception what), s) h = (other, s, refl)
  two_handlers bad other (err foreign, s) h = ground (arith, h)

  what_handlers :
      (bad other : String → A) (m : Result A × S)
      → OnlyStd m
      → Returns (
          handled
            (on_invalid_argument
              (λ what. done (bad what))
              (on_std_exception_what (λ what. done (other what))))
            m)
  what_handlers bad other (ok a, s) h = (a, s, refl)
  what_handlers bad other (err (invalid_argument what), s) h = (bad what, s, refl)
  what_handlers bad other (err (std_exception what), s) h = (other what, s, refl)
  what_handlers bad other (err foreign, s) h = ground (arith, h)

module _ (P : Platform) where
  db_pair :
      {A : Type 0} (m : Result A × P.Db) (w : World P)
      → OnlyStd m
      → OnlyStd (m.0, record w { db = m.1 })
  db_pair (ok a, db) w h = tt
  db_pair (err e, db) w h = h

  redis_pair :
      {A : Type 0} (m : Result A × P.redis.Redis) (w : World P)
      → Returns m
      → OnlyStd (m.0, record w { redis = m.1 })
  redis_pair m w (a, s, e) = rw e tt

  module _ (laws : Laws P.json) (std : ThrowsStd P.redis) (queries : QueriesStd P.users) where
    list_users-OnlyStd : (request : PageRequest) (db : P.Db) → OnlyStd (list_users P request db)
    unfolding list_users
    list_users-OnlyStd request db =
        continue-OnlyStd _ (P.users.count db) (queries.count-std db) (λ total db₁.
          continue-OnlyStd _ (P.users.find_page "created_at" request.page_size _ db₁)
            (queries.find_page-std "created_at" request.page_size _ db₁) (λ items db₂. tt))

    create_user-OnlyStd :
        (moment : Moment P) (input : P.json.Value) (db : P.Db)
        → OnlyStd (create_user P moment input db)
    create_user-OnlyStd moment input db = elim (create_user-cases P laws input moment db) [
      | inl (_, _, _, _, _, e) ↦ rw e (queries.insert-std _ db)
      | inr (_, e) ↦ rw e refl
    ]

    update_user-OnlyStd :
        (moment : Moment P) (id : String) (input : P.json.Value) (db : P.Db)
        → OnlyStd (update_user P moment id input db)
    update_user-OnlyStd moment id input db = elim (update_user-cases P laws input moment id db) [
      | inl (_, _, _, _, _, e) ↦ rw e (continue-OnlyStd _ _ (queries.update-std _ db) (λ _ db₁. tt))
      | inr (_, e) ↦ rw e refl
    ]

    fetch_page-OnlyStd :
        (enabled : Bool) (request : PageRequest) (key : String) (w : World P)
        → OnlyStd (UC.fetch_page P enabled true request key w)
    unfolding UC.fetch_page
    fetch_page-OnlyStd enabled request key w =
        continue-OnlyStd _ (on_db (list_users P request) w)
          (db_pair _ w (list_users-OnlyStd request w.db))
          (λ page w₁.
            let (_, sets, _, _) =
              cache-Returns P.redis enabled std key
                (P.json.write (page_to_json P.json P.int_overflow (to_public_json P) page)) "" 30
                w₁.redis in
            continue-OnlyStd _ _ (redis_pair _ w₁ sets) (λ _ w₂. tt))

    answer_or-OnlyStd :
        (enabled : Bool) (request : PageRequest) (cached : Option P.json.Value) (w : World P)
        → OnlyStd (
            UC.answer_or P enabled true cached
              (UC.fetch_page P enabled true request (cache_key request "users"))
              w)
    answer_or-OnlyStd enabled request none w = fetch_page-OnlyStd enabled request _ w
    answer_or-OnlyStd enabled request (some v) w = tt

    page-OnlyStd :
        (enabled : Bool) (page : Result PageRequest) (w : World P)
        → ((e : Exception) → page ≡ err e → is_invalid_argument e ≡ true)
        → OnlyStd (continue (UC.page_response P enabled true) (page, w))
    unfolding UC.page_response
    page-OnlyStd enabled (err e) w h = invalid-std e (h e refl)
    page-OnlyStd enabled (ok request) w h =
        let (gets, _, _, _) =
          cache-Returns P.redis enabled std (cache_key request "users") "" "" 0 w.redis in
        continue-OnlyStd _ _ (redis_pair _ w gets)
          (λ cached w₁. answer_or-OnlyStd enabled request (UC.cached_page P enabled true cached) w₁)

    invalidation-OnlyStd :
        {A : Type 0} (enabled : Bool) (answer : A) (w : World P)
        → OnlyStd (continue (λ _. done answer) (on_redis (erase_prefix P.redis enabled "users:") w))
    invalidation-OnlyStd enabled answer w =
        let (_, _, _, erases) = cache-Returns P.redis enabled std "" "" "users:" 0 w.redis in
        continue-OnlyStd _ _ (redis_pair _ w erases) (λ _ w₁. tt)

    -- getUsers, createUser and updateUserById of controllers/UserController.cc give a response to
    -- every request, with a database client or without, and whatever the queries and the cache
    -- throw, as long as that is below std::exception.
    pub user_handlers-Returns :
        (enabled client : Bool) (moment : Moment P) (parameters : List (String × String))
        (id : String) (body : Option P.json.Value) (w : World P)
        → Returns (UC.get_users P enabled client parameters w)
          × Returns (UC.create_user_handler P enabled client moment body w)
          × Returns (UC.update_user_by_id P enabled client moment id body w)
    unfolding UC.get_users UC.create_user_handler UC.update_user_by_id
    user_handlers-Returns enabled false moment parameters id body w =
        ((_, w, refl), (_, w, refl), (_, w, refl))
    user_handlers-Returns enabled true moment parameters id body w = (
      what_handlers _ _ _
          (page-OnlyStd enabled (from parameters) w (from-invalid_argument parameters)),
      two_handlers _ _ _ (
          continue-OnlyStd _ (on_db (create_user P moment (UC.body_or_null P enabled true body)) w)
            (db_pair _ w (create_user-OnlyStd moment _ w.db))
            (λ user w₁. invalidation-OnlyStd enabled _ w₁)),
      two_handlers _ _ _ (
          continue-OnlyStd _
            (on_db (update_user P moment id (UC.body_or_null P enabled true body)) w)
            (db_pair _ w (update_user-OnlyStd moment id _ w.db))
            (λ user w₁. invalidation-OnlyStd enabled _ w₁)),
    )

module _ (P : Platform) where
  -- A response of the handlers, with its JSON body.
  abbrev pub answered : ℕ → P.json.Value → Response P.json.Value
  answered status value = record {
    status = status;
    headers = ("Content-Type", "application/json") ∷ ("Access-Control-Allow-Origin", "*") ∷ [];
    body = some value;
  }

  -- `{"error": message}`
  abbrev pub error_json : String → P.json.Value
  error_json message = P.json.set "error" (P.json.of_string message) P.json.null

  abbrev reply : Users P.Date → Option String → Response P.json.Value
  reply user none = answered 404 (error_json "Record not found")
  reply user (some key) = answered 200 (to_public_json P user)

  -- What a request for the user with an id comes to, from the outcome of the query for the key.
  abbrev pub answer_for :
      Result (Users P.Date) × P.Db → World P → Result (Response P.json.Value) × World P
  answer_for (err e, db) w = (err e, record w { db = db })
  answer_for (ok user, db) w = (ok (reply user user.id.value), record w { db = db })

  user_answer :
      (enabled : Bool) (w : World P) (user : Users P.Date) (key : Option String)
      → UC.row_response P enabled true (with_key P user key) w ≡ (ok (reply user key), w)
  user_answer enabled w user none = refl
  user_answer enabled w user (some key) = refl

  query_answer :
      (enabled : Bool) (id : String) (w : World P) (m : Result (Users P.Date) × P.Db)
      → P.users.find_by_primary_key id w.db ≡ m
      → UC.get_user_by_id P enabled true id w ≡ answer_for m w
  unfolding UC.get_user_by_id find_by_id
  query_answer enabled id w (ok user, db) query =
      rw query (user_answer enabled (record w { db = db }) user user.id.value)
  query_answer enabled id w (err e, db) query = rw query refl

  -- getUserById of controllers/UserController.cc answers 500 without a database client. With one it
  -- answers 200 with the public JSON of a row that has an id, 404 for a row without one, and where
  -- the query throws, as a mapper does for a key that is not there, the exception leaves the
  -- handler and there is no response.
  pub get_user_by_id-cases :
      (enabled : Bool) (id : String) (w : World P)
      → (UC.get_user_by_id P enabled false id w
          ≡ (ok (answered 500 (error_json "Unable to connect to database")), w))
        × (UC.get_user_by_id P enabled true id w
            ≡ answer_for (P.users.find_by_primary_key id w.db) w)
  unfolding UC.get_user_by_id
  get_user_by_id-cases enabled id w =
      (refl, query_answer enabled id w (P.users.find_by_primary_key id w.db) refl)
