-- ===== src/Config.antt =====
-- config/AppConfig.h and .cc: the settings, read from a map of texts. A double and std::stod are
-- parameters; an int that is not negative is a number.
pub mod Floats
pub mod Readers
pub mod EnvFile
pub mod Ranges
pub mod Tests
use drogon_api_starter.Prelude.{
  ℕ, ◌≡◌, String, Bool, true, false, Option, none, some, List, [], ◌∷◌, ltb, leb, if◌then◌else◌,
}
use drogon_api_starter.Prelude.Dict.{lookup, or_else}
use drogon_api_starter.Text.{is_empty}
use drogon_api_starter.Text.Number.{ℤ, pos, negsuc, stoi}
use drogon_api_starter.Result.{Exception, std_exception, Result, ok, err, ◌>>=◌, ◌>>◌, throw_if}
use Floats.{Doubles}
use EnvFile.{Values, read_env_file, override_all}
use Readers.{present, required, number, seconds, non_negative_number, flag}

pub record AppConfig (Double : Type 0) : Type 0 where
  pub secret_key : String
  pub db_host : String
  pub db_port : ℕ
  pub db_connection_pool_size : ℕ
  pub db_query_timeout_seconds : Double
  pub db_name : String
  pub db_user : String
  pub db_password : String
  pub sentry_dsn : String
  pub error_tracking_provider : String
  pub otlp_endpoint : String
  pub observability_timeout_seconds : Double
  pub observability_batch_size : ℕ
  pub observability_batch_delay_seconds : Double
  pub observability_max_queue_size : ℕ
  pub observability_retry_max_attempts : ℕ
  pub observability_retry_base_delay_seconds : Double
  pub observability_circuit_failure_threshold : ℕ
  pub observability_circuit_open_seconds : Double
  pub http_host : String
  pub http_port : ℕ
  pub grpc_enabled : Bool
  pub grpc_host : String
  pub grpc_port : ℕ
  pub redis_enabled : Bool
  pub redis_host : String
  pub redis_port : ℕ
  pub redis_connection_pool_size : ℕ
  pub redis_command_timeout_seconds : Double
  pub redis_password : String
  pub redis_db : ℕ
  pub idle_connection_timeout_seconds : ℕ
  pub rate_limit_requests : ℕ
  pub rate_limit_window_seconds : ℕ

-- `values.count(key) ? values.at(key) : fallback`
abbrev pub text_or : List (String × String) → String → String → String
text_or values key fallback = or_else (lookup key values) fallback

abbrev not_negative : Option ℤ → Exception → Result ℕ
not_negative none e = err e
not_negative (some (negsuc n)) e = err e
not_negative (some (pos n)) e = ok n

-- The block of `fromValues` on REDIS_DB, which is 0 where the key is missing or empty.
unfoldable pub read_redis_db : List (String × String) → Result ℕ
read_redis_db values = elim (present values "REDIS_DB") [
  | none ↦ ok 0
  | some v ↦ not_negative (stoi v) (std_exception "Invalid numeric configuration: REDIS_DB")
]

-- The keys that `load` looks up in the environment.
abbrev pub config_keys : List String
config_keys =
    "SECRET_KEY" ∷ "DB_HOST" ∷ "DB_PORT" ∷ "DB_NAME" ∷ "DB_USER" ∷ "DB_PASSWORD" ∷ "SENTRY_DSN"
    ∷ "ERROR_TRACKING_PROVIDER" ∷ "OTLP_ENDPOINT" ∷ "OBSERVABILITY_TIMEOUT_SECONDS"
    ∷ "OBSERVABILITY_BATCH_SIZE" ∷ "OBSERVABILITY_BATCH_DELAY_SECONDS" ∷ "HTTP_HOST"
    ∷ "OBSERVABILITY_MAX_QUEUE_SIZE" ∷ "OBSERVABILITY_RETRY_MAX_ATTEMPTS"
    ∷ "OBSERVABILITY_RETRY_BASE_DELAY_SECONDS" ∷ "OBSERVABILITY_CIRCUIT_FAILURE_THRESHOLD"
    ∷ "OBSERVABILITY_CIRCUIT_OPEN_SECONDS" ∷ "HTTP_PORT" ∷ "GRPC_ENABLED" ∷ "GRPC_HOST"
    ∷ "GRPC_PORT" ∷ "HTTP_IDLE_CONNECTION_TIMEOUT_SECONDS" ∷ "RATE_LIMIT_REQUESTS"
    ∷ "RATE_LIMIT_WINDOW_SECONDS" ∷ "DB_CONNECTION_POOL_SIZE" ∷ "DB_QUERY_TIMEOUT_SECONDS"
    ∷ "REDIS_ENABLED" ∷ "REDIS_HOST" ∷ "REDIS_PORT" ∷ "REDIS_CONNECTION_POOL_SIZE"
    ∷ "REDIS_COMMAND_TIMEOUT_SECONDS" ∷ "REDIS_PASSWORD" ∷ "REDIS_DB" ∷ []

module _ (D : Doubles) where
  open D use {Double, tenths}

  unfoldable pub from_values : Values → Result (AppConfig Double)
  from_values values = do
    secret_key ← required values "SECRET_KEY"
    db_host ← required values "DB_HOST"
    db_port ← number values "DB_PORT" 5432
    db_pool ← number values "DB_CONNECTION_POOL_SIZE" 4
    db_timeout ← seconds D values "DB_QUERY_TIMEOUT_SECONDS" (tenths 100)
    db_name ← required values "DB_NAME"
    db_user ← required values "DB_USER"
    timeout ← seconds D values "OBSERVABILITY_TIMEOUT_SECONDS" (tenths 10)
    batch_size ← number values "OBSERVABILITY_BATCH_SIZE" 10
    batch_delay ← seconds D values "OBSERVABILITY_BATCH_DELAY_SECONDS" (tenths 1)
    max_queue ← number values "OBSERVABILITY_MAX_QUEUE_SIZE" 1024
    attempts ← number values "OBSERVABILITY_RETRY_MAX_ATTEMPTS" 3
    throw_if (ltb 10 attempts)
        (std_exception "Invalid numeric configuration: OBSERVABILITY_RETRY_MAX_ATTEMPTS")
    base_delay ← seconds D values "OBSERVABILITY_RETRY_BASE_DELAY_SECONDS" (tenths 1)
    threshold ← number values "OBSERVABILITY_CIRCUIT_FAILURE_THRESHOLD" 5
    circuit_open ← seconds D values "OBSERVABILITY_CIRCUIT_OPEN_SECONDS" (tenths 300)
    http_port ← number values "HTTP_PORT" 8000
    grpc_port ← number values "GRPC_PORT" 9000
    redis_port ← number values "REDIS_PORT" 6379
    redis_pool ← number values "REDIS_CONNECTION_POOL_SIZE" 2
    redis_timeout ← seconds D values "REDIS_COMMAND_TIMEOUT_SECONDS" (tenths 10)
    idle ← number values "HTTP_IDLE_CONNECTION_TIMEOUT_SECONDS" 60
    rate_limit ← non_negative_number values "RATE_LIMIT_REQUESTS" 0
    rate_window ← number values "RATE_LIMIT_WINDOW_SECONDS" 60
    redis_db ← read_redis_db values
    ok (record {
      secret_key = secret_key;
      db_host = db_host;
      db_port = db_port;
      db_connection_pool_size = db_pool;
      db_query_timeout_seconds = db_timeout;
      db_name = db_name;
      db_user = db_user;
      db_password = text_or values "DB_PASSWORD" "";
      sentry_dsn = text_or values "SENTRY_DSN" "";
      error_tracking_provider = text_or values "ERROR_TRACKING_PROVIDER" "none";
      otlp_endpoint = text_or values "OTLP_ENDPOINT" "";
      observability_timeout_seconds = timeout;
      observability_batch_size = batch_size;
      observability_batch_delay_seconds = batch_delay;
      observability_max_queue_size = max_queue;
      observability_retry_max_attempts = attempts;
      observability_retry_base_delay_seconds = base_delay;
      observability_circuit_failure_threshold = threshold;
      observability_circuit_open_seconds = circuit_open;
      http_host = text_or values "HTTP_HOST" "0.0.0.0";
      http_port = http_port;
      grpc_enabled = flag values "GRPC_ENABLED" false;
      grpc_host = text_or values "GRPC_HOST" "0.0.0.0";
      grpc_port = grpc_port;
      redis_enabled = flag values "REDIS_ENABLED" false;
      redis_host = text_or values "REDIS_HOST" "127.0.0.1";
      redis_port = redis_port;
      redis_connection_pool_size = redis_pool;
      redis_command_timeout_seconds = redis_timeout;
      redis_password = text_or values "REDIS_PASSWORD" "";
      redis_db = redis_db;
      idle_connection_timeout_seconds = idle;
      rate_limit_requests = rate_limit;
      rate_limit_window_seconds = rate_window;
    })

  -- `load`: the values of the file, with those of the environment over them.
  unfoldable pub load :
      (String → Option String) → String → Option (List String) → Result (AppConfig Double)
  load getenv path file = do
    values ← read_env_file path file
    from_values (override_all getenv values config_keys)
