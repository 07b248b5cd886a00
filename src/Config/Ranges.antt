-- ===== src/Config/Ranges.antt =====
-- What a configuration that is read may hold.
use mathlib.Core.Path.{subst}
use drogon_api_starter.Prelude.{
  ℕ, ◌≤◌, ◌≡◌, refl, String, Bool, true, false, List, arith, ltb, leb, ◌&&◌,
}
use drogon_api_starter.Text.{is_empty}
use drogon_api_starter.Result.{Exception, Result, ok, ◌>>=◌, throw_if, >>=-eq-ok}
use drogon_api_starter.Config.Floats.{Doubles}
use drogon_api_starter.Config.Readers.{required, number, seconds, non_negative_number}
use drogon_api_starter.Config.{AppConfig, from_values, read_redis_db}

-- A port or another number that `number` reads.
abbrev pub InRange : ℕ → Type 0
InRange n = (1 ≤ n) × (n ≤ 65535)

-- Every result that is no exception has the property.
record Ensures {ℓ κ} {A : Type ℓ} (P : A → Type κ) (m : Result A) : Type (ℓ ⊔ κ) where
  holds : (a : A) → m ≡ ok a → P a

-- A chain has it where its second part does, given what the first one ensures.
infixl 5 ◌⟫◌
◌⟫◌ {ℓ κ μ ν} :
    {A : Type ℓ} {B : Type κ} {Q : A → Type μ} {P : B → Type ν} {m : Result A} {f : A → Result B}
    → Ensures Q m
    → ((a : A) → Q a → Ensures P (f a))
    → Ensures P (m >>= f)
◌⟫◌ {m} {f} q k = record {
  holds = λ b e. let (a, first, rest) = >>=-eq-ok m f e in (k a (q.holds a first)).holds b rest;
}

ok-injective {ℓ} : {A : Type ℓ} {a b : A} → ok a ≡ ok b → a ≡ b
ok-injective e = cc

Ensures-ok {ℓ κ} : {A : Type ℓ} {P : A → Type κ} {a : A} → P a → Ensures P (ok a)
Ensures-ok {P} p = record { holds = λ b e. subst P (ok-injective e) p }

module _ (values : List (String × String)) (key : String) where
  required-Ensures : Ensures (λ v. is_empty v ≡ false) (required values key)
  unfolding required
  required-Ensures = record { holds = λ v e. ground arith }

  number-Ensures :
      (fallback : ℕ)
      → (leb 1 fallback && leb fallback 65535) ≡ true
      → Ensures InRange (number values key fallback)
  unfolding number
  number-Ensures fallback p = record { holds = λ n e. ground arith }

  non_negative_number-Ensures :
      (fallback : ℕ)
      → leb fallback 65535 ≡ true
      → Ensures (λ n. n ≤ 65535) (non_negative_number values key fallback)
  unfolding non_negative_number
  non_negative_number-Ensures fallback q = record { holds = λ n e. ground arith }

-- A reading that nothing is claimed of.
Ensures-any {ℓ} : {A : Type ℓ} (m : Result A) → Ensures (λ _. Unit {0}) m
Ensures-any m = record { holds = λ a e. tt }

throw_if-Ensures : (b : Bool) (e : Exception) → Ensures (λ _. b ≡ false) (throw_if b e)
throw_if-Ensures b e = record { holds = λ a h. ground arith }

attempts_range : (n : ℕ) → InRange n → ltb 10 n ≡ false → (1 ≤ n) × (n ≤ 10)
attempts_range n p h = ground arith

pub record IsChecked {Double : Type 0} (c : AppConfig Double) : Type 0 where
  pub secret_key : is_empty c.secret_key ≡ false
  pub db_host : is_empty c.db_host ≡ false
  pub db_name : is_empty c.db_name ≡ false
  pub db_user : is_empty c.db_user ≡ false
  pub db_port : InRange c.db_port
  pub db_connection_pool_size : InRange c.db_connection_pool_size
  pub batch_size : InRange c.observability_batch_size
  pub max_queue_size : InRange c.observability_max_queue_size
  pub retry_max_attempts :
      (1 ≤ c.observability_retry_max_attempts) × (c.observability_retry_max_attempts ≤ 10)
  pub circuit_failure_threshold : InRange c.observability_circuit_failure_threshold
  pub http_port : InRange c.http_port
  pub grpc_port : InRange c.grpc_port
  pub redis_port : InRange c.redis_port
  pub redis_connection_pool_size : InRange c.redis_connection_pool_size
  pub idle_connection_timeout_seconds : InRange c.idle_connection_timeout_seconds
  pub rate_limit_requests : c.rate_limit_requests ≤ 65535
  pub rate_limit_window_seconds : InRange c.rate_limit_window_seconds

module _ (D : Doubles) (values : List (String × String)) where
  any_seconds : (key : String) (d : D.Double) → Ensures (λ _. Unit {0}) (seconds D values key d)
  any_seconds key d = Ensures-any (seconds D values key d)

  from_values-Ensures : Ensures IsChecked (from_values D values)
  unfolding from_values
  from_values-Ensures = required-Ensures values _ ⟫ λ secret_key secret_key'.
      required-Ensures values _ ⟫ λ db_host db_host'.
      number-Ensures values _ 5432 refl ⟫ λ db_port db_port'.
      number-Ensures values _ 4 refl ⟫ λ db_pool db_pool'.
      any_seconds "DB_QUERY_TIMEOUT_SECONDS" (D.tenths 100) ⟫ λ db_timeout db_timeout'.
      required-Ensures values _ ⟫ λ db_name db_name'.
      required-Ensures values _ ⟫ λ db_user db_user'.
      any_seconds "OBSERVABILITY_TIMEOUT_SECONDS" (D.tenths 10) ⟫ λ timeout timeout'.
      number-Ensures values _ 10 refl ⟫ λ batch_size batch_size'.
      any_seconds "OBSERVABILITY_BATCH_DELAY_SECONDS" (D.tenths 1) ⟫ λ batch_delay batch_delay'.
      number-Ensures values _ 1024 refl ⟫ λ max_queue max_queue'.
      number-Ensures values _ 3 refl ⟫ λ attempts attempts'.
      throw_if-Ensures (ltb 10 attempts) _ ⟫ λ guard guard'.
      any_seconds "OBSERVABILITY_RETRY_BASE_DELAY_SECONDS" (D.tenths 1) ⟫ λ base_delay base_delay'.
      number-Ensures values _ 5 refl ⟫ λ threshold threshold'.
      any_seconds "OBSERVABILITY_CIRCUIT_OPEN_SECONDS" (D.tenths 300)
      ⟫ λ circuit_open circuit_open'. number-Ensures values _ 8000 refl ⟫ λ http_port http_port'.
          number-Ensures values _ 9000 refl ⟫ λ grpc_port grpc_port'.
          number-Ensures values _ 6379 refl ⟫ λ redis_port redis_port'.
          number-Ensures values _ 2 refl ⟫ λ redis_pool redis_pool'.
          any_seconds "REDIS_COMMAND_TIMEOUT_SECONDS" (D.tenths 10)
          ⟫ λ redis_timeout redis_timeout'. number-Ensures values _ 60 refl ⟫ λ idle idle'.
              non_negative_number-Ensures values _ 0 refl ⟫ λ rate_limit rate_limit'.
              number-Ensures values _ 60 refl ⟫ λ rate_window rate_window'.
              Ensures-any (read_redis_db values) ⟫ λ redis_db redis_db'. Ensures-ok (record {
                secret_key = secret_key';
                db_host = db_host';
                db_name = db_name';
                db_user = db_user';
                db_port = db_port';
                db_connection_pool_size = db_pool';
                batch_size = batch_size';
                max_queue_size = max_queue';
                retry_max_attempts = attempts_range attempts attempts' guard';
                circuit_failure_threshold = threshold';
                http_port = http_port';
                grpc_port = grpc_port';
                redis_port = redis_port';
                redis_connection_pool_size = redis_pool';
                idle_connection_timeout_seconds = idle';
                rate_limit_requests = rate_limit';
                rate_limit_window_seconds = rate_window';
              })

  -- Every configuration that `fromValues` returns has the four required texts, all its ports, sizes
  -- and intervals between 1 and 65535, one to ten attempts, and a rate limit of at most 65535.
  pub from_values-IsChecked : (c : AppConfig D.Double) → from_values D values ≡ ok c → IsChecked c
  from_values-IsChecked c e = from_values-Ensures.holds c e
