-- ===== src/Observability/Setup/Providers.antt =====
-- observability/ErrorReporter.cc and observability/Observability.cc: the factories of the
-- providers, their registry, configureErrorReporter and configure. The environment is a parameter.
use drogon_api_starter.Prelude.{
  String, Bool, true, ◌||◌, Option, none, some, List, [], if◌then◌else◌, str_eq,
}
use drogon_api_starter.Prelude.Dict.{lookup, insert, or_else}
use drogon_api_starter.Text.{is_empty}
use drogon_api_starter.Text.Number.{to_string}
use drogon_api_starter.Result.{invalid_argument, Result, ok, err, ◌>>=◌}
use drogon_api_starter.Config.Floats.{Doubles}
use drogon_api_starter.Observability.Setup.{Settings, Limits, Reporter, construct}
use drogon_api_starter.Observability.Setup.Sentry.{sentry_endpoint}

pub record ErrorReporterConfig : Type 0 where
  pub provider : String
  pub dsn : String
  pub settings : Settings

module _ (D : Doubles) (getenv : String → Option String) where
  -- A factory gives a reporter, a null pointer, or throws.
  abbrev pub Factory : Type 0
  Factory = ErrorReporterConfig → Result (Option (Reporter D))

  -- `OtlpErrorReporter::endpoint`
  unfoldable pub otlp_endpoint : ErrorReporterConfig → String
  otlp_endpoint c =
      if is_empty c.dsn
      then elim (lookup "otlp_endpoint" c.settings) [
        | some endpoint ↦ endpoint
        | none ↦ or_else (getenv "OTLP_ENDPOINT") ""
      ]
      else c.dsn

  abbrev made : Result (Reporter D) → Result (Option (Reporter D))
  made (ok reporter) = ok (some reporter)
  made (err e) = err e

  abbrev if_empty : String → String → String
  if_empty text other = if is_empty text then other else text

  unfoldable pub otlp_factory : Factory
  unfolding otlp_endpoint
  otlp_factory c =
      let endpoint =
        if_empty (if_empty c.dsn (or_else (lookup "otlp_endpoint" c.settings) c.dsn))
          (or_else (getenv "OTLP_ENDPOINT") "") in
      if is_empty endpoint then ok none else made (construct D "otlp" (otlp_endpoint c) c.settings)

  unfoldable pub sentry_factory : Factory
  sentry_factory c =
      if is_empty c.dsn
      then ok none
      else made (sentry_endpoint c.dsn >>= λ endpoint. construct D "sentry" endpoint c.settings)

  -- The registry, with the flag of `std::call_once`, and the reporter in use, where `none` is the
  -- one that does nothing.
  pub record Reporting : Type 0 where
    pub built_in : Bool
    pub factories : List (String × Factory)
    pub configured : Option (Reporter D)

  unfoldable pub register_error_reporter_provider : String → Factory → Reporting → Result Reporting
  register_error_reporter_provider provider factory s =
      if is_empty provider
      then err (invalid_argument "error reporter provider and factory are required")
      else ok (record s { factories = insert provider factory s.factories })

  unfoldable pub register_built_in_providers : Reporting → Reporting
  register_built_in_providers s = if s.built_in then s else record s {
    built_in = true;
    factories = insert "sentry" sentry_factory (insert "otlp" otlp_factory s.factories);
  }

  -- The `try` around the factory, with its two handlers.
  abbrev given : Result (Option (Reporter D)) → Option (Reporter D)
  given (ok reporter) = reporter
  given (err e) = none

  abbrev ask : Option Factory → ErrorReporterConfig → Option (Reporter D)
  ask none c = none
  ask (some factory) c = given (factory c)

  abbrev with_timeout : Option String → Settings → Settings
  with_timeout none settings = settings
  with_timeout (some timeout) settings = insert "timeout_seconds" timeout settings

  unfoldable pub configure_error_reporter : String → String → Settings → Reporting → Reporting
  unfolding register_built_in_providers
  configure_error_reporter requested dsn settings s =
      let provider = if is_empty requested then "none" else requested in
      let registered = register_built_in_providers s in
      if str_eq provider "none" || str_eq provider "noop"
      then record registered { configured = none }
      else record registered {
        configured = ask (lookup provider registered.factories) (record {
          provider = provider;
          dsn = dsn;
          settings = with_timeout (getenv "OBSERVABILITY_TIMEOUT_SECONDS") settings;
        });
      }

  -- `configuredDsn.empty() && environmentDsn != nullptr ? environmentDsn : configuredDsn`
  abbrev pub or_environment : String → Option String → String
  or_environment text none = text
  or_environment text (some value) = if is_empty text then value else text

module _ (D : Doubles) (getenv : String → Option String) (print : D.Double → String) where
  -- The map that `configure` fills; `print` is std::to_string of a double.
  unfoldable pub settings_of : String → Limits D → Settings
  unfolding insert
  settings_of otlp l =
      let start : Settings = if is_empty otlp then [] else insert "otlp_endpoint" otlp [] in
      insert "circuit_open_seconds" (print l.circuit_open_seconds) (
        insert "circuit_failure_threshold" (to_string l.circuit_failure_threshold) (
          insert "retry_base_delay_seconds" (print l.retry_base_delay_seconds) (
            insert "retry_max_attempts" (to_string l.max_attempts) (
              insert "max_queue_size" (to_string l.max_queue_size) (
                insert "batch_delay_seconds" (print l.batch_delay_seconds) (
                  insert "batch_size" (to_string l.batch_size)
                    (insert "timeout_seconds" (print l.timeout_seconds) start)))))))

  unfoldable pub configure :
      String → String → String → Limits D → Reporting D getenv → Reporting D getenv
  unfolding settings_of configure_error_reporter
  configure provider dsn otlp limits s =
      configure_error_reporter D getenv
        (or_environment D getenv provider (getenv "ERROR_TRACKING_PROVIDER"))
        (or_environment D getenv dsn (getenv "SENTRY_DSN")) (settings_of otlp limits) s
