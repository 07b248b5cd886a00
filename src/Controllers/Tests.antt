-- ===== src/Controllers/Tests.antt =====
-- The handlers over the sample platforms: a page is read twice, and a write takes it out of the cache.
use drogon_api_starter.Prelude.{ℕ, ◌≡◌, refl, String, true, false, none, some, [], ◌∷◌}
use drogon_api_starter.Prelude.Dict.{lookup, insert}
use drogon_api_starter.Text.{strip_prefix}
use drogon_api_starter.Text.Number.{to_string}
use drogon_api_starter.Result.{std_exception, ok, err}
use drogon_api_starter.Cache.{client, get, set, erase, erase_all, erase_prefix}
use drogon_api_starter.Pagination.{PageRequest, from, cache_key}
use drogon_api_starter.Pagination.Response.{to_json}
use drogon_api_starter.Models.Users.{new_users, set_id}
use drogon_api_starter.Models.Roles.{Roles, to_json as role_to_json}
use drogon_api_starter.Services.UserService.{list_users, find_by_id, delete_user, to_public_json}
use drogon_api_starter.Services.RoleService.{create_role, validate_role_input, created_role}
use drogon_api_starter.Platform.{World}
use drogon_api_starter.Cache.Laws.{ThrowsStd, Returns}
use drogon_api_starter.Controllers.Answers.{
  QueriesStd, user_handlers-Returns, answered, error_json, answer_for, get_user_by_id-cases,
}
use drogon_api_starter.Controllers.Base.{Response, handle_response, no_content}
use drogon_api_starter.Controllers.UserController as UC
use drogon_api_starter.Controllers.UserController.Pages.{get_users-again}
use drogon_api_starter.Controllers.UserController.Writes as UW
use drogon_api_starter.Controllers.RoleController as RC
use drogon_api_starter.Controllers.RoleController.Writes as RW
use drogon_api_starter.Samples.SampleRedis.{redis, store, names, remove}
use drogon_api_starter.Samples.SampleJson.{
  Value, word, member, object, objects, objects-Laws, texts, texts-RoundTrip,
}
use drogon_api_starter.Samples.SamplePlatform.{platform, text_platform, no_rows, moment}

abbrev start : World text_platform
start = record { db = no_rows; redis = [] }

abbrev first_page : PageRequest
first_page = record { page = 1; page_size = 25 }

abbrev page : String
page =
    to_json texts text_platform.int_overflow (to_public_json text_platform)
      (record { items = []; total = 0; request = first_page })

abbrev answer : Response String
answer = handle_response texts page 200

abbrev after : World text_platform
after = record { db = no_rows; redis = (cache_key first_page "users", texts.write page) ∷ [] }

first_read : UC.get_users text_platform true true [] start ≡ (ok answer, after)
unfolding UC.get_users UC.page_response UC.fetch_page from lookup get set client insert list_users
first_read = refl

get_users-again_example : UC.get_users text_platform true true [] after ≡ (ok answer, after)
get_users-again_example =
    get_users-again text_platform store texts-RoundTrip [] start after answer first_read refl

abbrev cached : World platform
cached = record {
  db = no_rows;
  redis = (cache_key first_page "users", "[1]") ∷ (cache_key first_page "roles", "[2]") ∷ [];
}

abbrev one_user : World platform
one_user = record {
  db = record { users = set_id "u1" new_users ∷ []; roles = [] };
  redis = (cache_key first_page "users", "[1]") ∷ [];
}

abbrev no_user : World platform
no_user = record { db = no_rows; redis = [] }

user_deleted :
    UW.perform_user platform true true moment (UW.delete "u1") one_user
    ≡ (ok (no_content objects), no_user)
unfolding UC.delete_user_by_id delete_user erase_prefix erase_all erase client names remove
    strip_prefix cache_key to_string
user_deleted = refl

perform_user-invalidates_example :
    get redis true (cache_key first_page "users") no_user.redis ≡ (ok none, no_user.redis)
perform_user-invalidates_example =
    UW.perform_user-invalidates platform store moment (UW.delete "u1") one_user no_user
      (no_content objects) first_page user_deleted refl

abbrev role_body : Value
role_body = member "name" (word "admin") (member "description" (word "all") object)

abbrev role_write : RW.RoleWrite Value
role_write = RW.create (some role_body)

abbrev row : Roles ℕ
row = created_role platform moment "admin" "all"

abbrev role_answer : Response Value
role_answer = handle_response objects (role_to_json objects to_string row) 201

abbrev created : World platform
created = record {
  db = record { users = []; roles = row ∷ [] };
  redis = (cache_key first_page "users", "[1]") ∷ [];
}

role_written :
    RW.perform_role platform true true moment role_write cached ≡ (ok role_answer, created)
unfolding RC.create_role_handler create_role validate_role_input erase_prefix erase_all erase client
    names remove strip_prefix cache_key to_string
role_written = refl

perform_role-invalidates_example :
    get redis true (cache_key first_page "roles") created.redis ≡ (ok none, created.redis)
perform_role-invalidates_example =
    RW.perform_role-invalidates platform store moment role_write cached created role_answer
      first_page role_written refl

sample-ThrowsStd : ThrowsStd redis
sample-ThrowsStd = record {
  get_client-std = λ r. tt;
  get-std = λ key r. tt;
  setex-std = λ key seconds value r. tt;
  del-std = λ key r. tt;
  keys-std = λ prefix r. tt;
}

sample-QueriesStd : QueriesStd platform.users
sample-QueriesStd = record {
  count-std = λ db. tt;
  find_page-std = λ column n k db. tt;
  insert-std = λ row db. tt;
  update-std = λ row db. tt;
}

user_handlers-Returns_example :
    Returns (UC.get_users platform true true (("page", "x") ∷ []) cached)
    × Returns (UC.create_user_handler platform true true moment (some role_body) cached)
    × Returns (UC.update_user_by_id platform true true moment "u1" (some role_body) cached)
user_handlers-Returns_example =
    user_handlers-Returns platform objects-Laws sample-ThrowsStd sample-QueriesStd true true moment
      (("page", "x") ∷ []) "u1" (some role_body) cached

get_user_by_id-cases_example :
    (UC.get_user_by_id platform true false "u1" no_user
      ≡ (ok (answered platform 500 (error_json platform "Unable to connect to database")), no_user))
    × (UC.get_user_by_id platform true true "u1" no_user
        ≡ answer_for platform (platform.users.find_by_primary_key "u1" no_user.db) no_user)
get_user_by_id-cases_example = get_user_by_id-cases platform true "u1" no_user

-- A user that is not there is not answered 404: the exception of the query leaves the handler.
absent_user :
    UC.get_user_by_id platform true true "u1" no_user
    ≡ (err (std_exception "0 rows found"), no_user)
unfolding UC.get_user_by_id find_by_id
absent_user = refl
