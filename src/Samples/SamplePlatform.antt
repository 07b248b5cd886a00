-- ===== src/Samples/SamplePlatform.antt =====
-- A database that is two lists of rows, under the libraries of the other samples.
use drogon_api_starter.Prelude.{ℕ, ◌-◌, ◌^◌, List, [], ◌∷◌, length, str_eq}
use drogon_api_starter.Text.{◌++◌}
use drogon_api_starter.Text.Number.{negsuc, to_string}
use drogon_api_starter.Result.{std_exception, Result, ok, err}
use drogon_api_starter.Json.{JsonLib}
use drogon_api_starter.Platform.{Platform, Mapper, Moment}
use drogon_api_starter.Models.Roles.{Roles}
use drogon_api_starter.Models.Users.{Users}
use drogon_api_starter.Samples.SampleRedis.{redis}
use drogon_api_starter.Samples.SampleJson.{objects, texts}

pub record Tables : Type 0 where
  pub users : List (Users ℕ)
  pub roles : List (Roles ℕ)

module _ {Row : Type 0} (rows : Tables → List Row) (put : List Row → Tables → Tables) where
  abbrev first : List Row → Result Row
  first [] = err (std_exception "0 rows found")
  first (row ∷ rest) = ok row

  -- The rows of a table, the newest first; a key is looked for in no way but by being there.
  abbrev table : Mapper Tables Row
  table = record {
    count = λ db. (ok (length (rows db)), db);
    find_page = λ column limit offset db. (ok (rows db), db);
    find_by_primary_key = λ id db. (first (rows db), db);
    insert = λ row db. (ok row, put (row ∷ rows db) db);
    update = λ row db. (ok 1, put (row ∷ []) db);
    delete_by_primary_key = λ id db. (ok (length (rows db)), put [] db);
  }

abbrev platform_with : JsonLib → Platform
platform_with json = record {
  json = json;
  redis = redis;
  int_overflow = λ n. negsuc (2 ^ 32 - 1 - n);
  Date = ℕ;
  default_date = 0;
  to_db_string = to_string;
  to_db_string_local = to_string;
  Db = Tables;
  users = table (λ db. db.users) (λ rows db. record db { users = rows });
  roles = table (λ db. db.roles) (λ rows db. record db { roles = rows });
  find_users_by = λ column value db. (ok db.users, db);
  generate_hash = λ salt password. salt ++ password;
  validate_password = λ password hash. str_eq hash ("salt" ++ password);
}

abbrev pub platform : Platform
platform = platform_with objects

abbrev pub text_platform : Platform
text_platform = platform_with texts

abbrev pub no_rows : Tables
no_rows = record { users = []; roles = [] }

abbrev pub moment : Moment platform
moment = record { now = 1000; salt = "salt" }
