-- ===== src/Platform.antt =====
-- What services/ and controllers/ use of the libraries: drogon's mappers and requests, trantor's dates,
-- bcrypt and the JSON and Redis libraries, as one parameter.
use drogon_api_starter.Prelude.{ℕ, String, Bool, List}
use drogon_api_starter.Text.Number.{ℤ}
use drogon_api_starter.Action.{Action}
use drogon_api_starter.Json.{JsonLib}
use drogon_api_starter.Cache.{RedisLib}
use drogon_api_starter.Models.Roles.{Roles}
use drogon_api_starter.Models.Users.{Users}

-- drogon::orm::Mapper over a database, for one table. Every query may throw.
pub record Mapper (Db Row : Type 0) : Type 0 where
  pub count : Action Db ℕ
  -- `orderBy(column).limit(n).offset(k).findAll()`
  pub find_page : String → ℕ → ℕ → Action Db (List Row)
  -- `findByPrimaryKey`; throws UnexpectedRows where there is no row
  pub find_by_primary_key : String → Action Db Row
  -- `insertFuture(row).get()`: the row as the database has it
  pub insert : Row → Action Db Row
  -- `update(row)` and `deleteByPrimaryKey(key)`: how many rows were touched
  pub update : Row → Action Db ℕ
  pub delete_by_primary_key : String → Action Db ℕ

pub record Platform : Type 1 where
  pub json : JsonLib
  pub redis : RedisLib
  -- what the machine makes of an int above its range
  pub int_overflow : ℕ → ℤ
  pub Date : Type 0
  -- trantor::Date(), `toDbString` and `toDbStringLocal`
  pub default_date : Date
  pub to_db_string : Date → String
  pub to_db_string_local : Date → String
  pub Db : Type 0
  pub users : Mapper Db (Users Date)
  pub roles : Mapper Db (Roles Date)
  -- `findFutureBy(Criteria(column, value)).get()` on table users
  pub find_users_by : String → String → Action Db (List (Users Date))
  -- bcrypt::generateHash with the salt it draws, and bcrypt::validatePassword
  pub generate_hash : String → String → String
  pub validate_password : String → String → Bool

-- What one request draws from outside: Date::now() and the salt of a new hash.
pub record Moment (P : Platform) : Type 0 where
  pub now : P.Date
  pub salt : String

-- What the handlers share: the database and the cache.
pub record World (P : Platform) : Type 0 where
  pub db : P.Db
  pub redis : P.redis.Redis

abbrev pub on_db : {P : Platform} {A : Type 0} → Action P.Db A → Action (World P) A
on_db m w = let (a, db) = m w.db in (a, record w { db = db })

abbrev pub on_redis : {P : Platform} {A : Type 0} → Action P.redis.Redis A → Action (World P) A
on_redis m w = let (a, redis) = m w.redis in (a, record w { redis = redis })
