-- ===== src/Observability/Setup/Settings.antt =====
-- observability/Observability.cc and observability/ErrorReporter.cc: the numbers that `configure`
-- writes as texts are the ones that the constructor reads.
use Prim.Native.Char.{Char}
use drogon_api_starter.Prelude.{[], ◌^◌, ◌<◌, ◌≡◌, String, false, Option, none, some}
use drogon_api_starter.Config.Floats.{Doubles}
use drogon_api_starter.Observability.Setup.{stod, Limits, Reporter}
use drogon_api_starter.Observability.Setup.Providers.{Reporting}

module _ (D : Doubles) (getenv : String → Option String) (print : D.Double → String) where
  -- std::stod reads the text of each double as that double, and each count fits into 64 bits.
  pub record IsReadable (l : Limits D) : Type 0 where
    pub timeout : D.stod (print l.timeout_seconds) ≡ some l.timeout_seconds
    pub batch_delay : D.stod (print l.batch_delay_seconds) ≡ some l.batch_delay_seconds
    pub retry_delay : D.stod (print l.retry_base_delay_seconds) ≡ some l.retry_base_delay_seconds
    pub open_seconds : D.stod (print l.circuit_open_seconds) ≡ some l.circuit_open_seconds
    pub batch_size : l.batch_size < 2 ^ 64
    pub max_queue_size : l.max_queue_size < 2 ^ 64
    pub max_attempts : l.max_attempts < 2 ^ 64
    pub threshold : l.circuit_failure_threshold < 2 ^ 64

  -- No reporter and no factory before the first call.
  abbrev pub fresh : Reporting D getenv
  fresh = record { built_in = false; factories = []; configured = none }

  -- The reporter that the constructor makes of an endpoint with its path.
  abbrev reporter : String → String → Limits D → Reporter D
  reporter endpoint path l = record {
    provider = "otlp";
    endpoint = endpoint;
    request_path = path;
    limits = l;
  }
