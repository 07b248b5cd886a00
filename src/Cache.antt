-- ===== src/Cache.antt =====
-- cache/RedisCache.cc: the cache in front of the database, which gives way when Redis does not answer.
-- `enabled_` is an argument of every operation; a Redis client is a parameter.
use drogon_api_starter.Prelude.{
  ℕ, String, Bool, true, false, Option, none, some, List, [], ◌∷◌, if◌then◌else◌,
}
use drogon_api_starter.Text.{is_empty}
use drogon_api_starter.Result.{Exception, Result, ok, err, is_std_exception}
use drogon_api_starter.Action.{Action, done, try_catch, on_std_exception, ◌>>=◌}
pub mod Laws
pub mod Pattern
pub mod Store
pub mod Tests

-- drogon's Redis client with the server behind it; every command may throw.
pub record RedisLib : Type 1 where
  pub Redis : Type 0
  -- `app().getRedisClient("default")`, which may also be null
  pub get_client : Redis → Result Bool
  -- GET, where nil is `none`
  pub get_command : String → Action Redis (Option String)
  -- SETEX with the key, the seconds and the value
  pub setex_command : String → ℕ → String → Action Redis (Unit {0})
  pub del_command : String → Action Redis (Unit {0})
  -- KEYS with a prefix and `*`
  pub keys_command : String → Action Redis (List String)

abbrev pub unless_empty : String → Option String
unless_empty s = if is_empty s then none else some s

abbrev pub text_of : Option String → String
text_of none = ""
text_of (some s) = s

module _ (lib : RedisLib) (enabled : Bool) where
  -- `client()`: whether there is one.
  unfoldable pub client : Action lib.Redis Bool
  client =
      if enabled
      then try_catch (λ r. (lib.get_client r, r)) (on_std_exception (done false))
      else done false

  unfoldable pub get : String → Action lib.Redis (Option String)
  get key = client >>= λ redis.
      if redis
      then try_catch (lib.get_command key >>= λ reply. done (unless_empty (text_of reply)))
          (on_std_exception (done none))
      else done none

  unfoldable pub set : String → String → ℕ → Action lib.Redis (Unit {0})
  set key value ttl_seconds = client >>= λ redis.
      if redis
      then try_catch (lib.setex_command key ttl_seconds value) (on_std_exception (done tt))
      else done tt

  unfoldable pub erase : String → Action lib.Redis (Unit {0})
  erase key = client >>= λ redis.
      if redis then try_catch (lib.del_command key) (on_std_exception (done tt)) else done tt

  -- `for (const auto& key : keys) erase(key);`
  unfoldable pub erase_all : List String → Action lib.Redis (Unit {0})
  erase_all [] = done tt
  erase_all (key ∷ keys) = erase key >>= λ _. erase_all keys

  unfoldable pub erase_prefix : String → Action lib.Redis (Unit {0})
  erase_prefix prefix = client >>= λ redis.
      if redis
      then try_catch (lib.keys_command prefix >>= erase_all) (on_std_exception (done tt))
      else done tt
