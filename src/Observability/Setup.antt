-- ===== src/Observability/Setup.antt =====
-- observability/ErrorReporter.cc: how a reporter is made. The constructor of HttpErrorReporter
-- reads its settings, the two reporters choose their endpoint, and configureErrorReporter asks the
-- factory that is registered for the provider. A double and std::stod are parameters.
use Prim.Native.String.{[], ◌∷◌}
use Prim.Native.Char.{code}
use drogon_api_starter.Prelude.{
  ℕ, suc, ◌+◌, ◌-◌, ◌%◌, ◌^◌, String, Bool, true, false, ◌&&◌, ◌||◌, not, Option, none, some, List,
  ◌==◌, ltb, leb, if◌then◌else◌, str_eq,
}
use drogon_api_starter.Prelude.Dict.{lookup, insert, or_else}
use drogon_api_starter.Text.{◌++◌, size, is_empty}
use drogon_api_starter.Text.Number.{is_digit, skip_spaces, read_digits}
use drogon_api_starter.Text.Slices.{take, drop, substr, find, find_from}
use drogon_api_starter.Result.{
  Exception, invalid_argument, std_exception, foreign, Result, ok, err, ◌>>=◌, ◌>>◌, throw_if,
  is_std_exception,
}
use drogon_api_starter.Config.Floats.{Doubles}
pub mod Checked
pub mod Sentry
pub mod Endpoint
pub mod Providers
pub mod Settings
pub mod Tests

-- std::stoul for a 64-bit unsigned long: the digits after spaces and a sign, `-` included; what is
-- out of range throws out_of_range, and a text without digits invalid_argument.
abbrev in_ulong : Bool → ℕ → Result ℕ
in_ulong negative n =
    if leb (2 ^ 64) n
    then err (std_exception "stoul")
    else if negative
    then ok ((2 ^ 64 - n) % 2 ^ 64)
    else ok n

abbrev digits_of : Bool → String → Result ℕ
digits_of negative [] = err (invalid_argument "stoul")
digits_of negative (c ∷ s) =
    if is_digit (code c)
    then in_ulong negative (read_digits 0 (c ∷ s))
    else err (invalid_argument "stoul")

abbrev signed_digits : String → Result ℕ
signed_digits [] = err (invalid_argument "stoul")
signed_digits (c ∷ s) =
    if code c == b'-'
    then digits_of true s
    else if code c == b'+'
    then digits_of false s
    else digits_of false (c ∷ s)

unfoldable pub stoul : String → Result ℕ
unfolding skip_spaces read_digits
stoul s = signed_digits (skip_spaces s)

abbrev pub Settings : Type 0
Settings = List (String × String)

-- `if (found != settings.end()) member = convert(found->second);`
abbrev pub read_setting : {A : Type 0} → (String → Result A) → Option String → A → Result A
read_setting convert none default = ok default
read_setting convert (some text) default = convert text

-- The part of the endpoint before the path, and the path.
abbrev path_from : String → Option ℕ → String × String
path_from endpoint none = (endpoint, "/")
path_from endpoint (some path_start) = (take path_start endpoint, drop path_start endpoint)

abbrev path_after : String → Option ℕ → String × String
path_after endpoint none = (endpoint, "/")
path_after endpoint (some scheme_end) = path_from endpoint (find_from "/" endpoint (scheme_end + 3))

unfoldable pub split_endpoint : String → String × String
split_endpoint endpoint = path_after endpoint (find "://" endpoint)

module _ (D : Doubles) where
  open D use {Double, tenths, gt, le}

  -- The members that the settings fill in; `tenths` writes the literals of a double.
  pub record Limits : Type 0 where
    pub timeout_seconds : Double
    pub batch_size : ℕ
    pub batch_delay_seconds : Double
    pub max_queue_size : ℕ
    pub max_attempts : ℕ
    pub retry_base_delay_seconds : Double
    pub circuit_failure_threshold : ℕ
    pub circuit_open_seconds : Double

  pub record Reporter : Type 0 where
    pub provider : String
    pub endpoint : String
    pub request_path : String
    pub limits : Limits

  abbrev pub stod : String → Result Double
  stod text = elim (D.stod text) [ none ↦ err (invalid_argument "stod") | some d ↦ ok d ]

  -- The settings that the constructor looks for, one after another.
  unfoldable pub read_limits : Settings → Result Limits
  unfolding stoul lookup
  read_limits settings = do
    timeout ← read_setting stod (lookup "timeout_seconds" settings) (tenths 10)
    batch_size ← read_setting stoul (lookup "batch_size" settings) 10
    batch_delay ← read_setting stod (lookup "batch_delay_seconds" settings) (tenths 1)
    max_queue_size ← read_setting stoul (lookup "max_queue_size" settings) 1024
    max_attempts ← read_setting stoul (lookup "retry_max_attempts" settings) 3
    retry_base_delay ← read_setting stod (lookup "retry_base_delay_seconds" settings) (tenths 1)
    threshold ← read_setting stoul (lookup "circuit_failure_threshold" settings) 5
    open_seconds ← read_setting stod (lookup "circuit_open_seconds" settings) (tenths 300)
    ok (record {
      timeout_seconds = timeout;
      batch_size = batch_size;
      batch_delay_seconds = batch_delay;
      max_queue_size = max_queue_size;
      max_attempts = max_attempts;
      retry_base_delay_seconds = retry_base_delay;
      circuit_failure_threshold = threshold;
      circuit_open_seconds = open_seconds;
    })

  -- The last test of the constructor.
  abbrev pub is_refused : Limits → Bool
  is_refused l =
      l.batch_size == 0
      || l.max_queue_size == 0
      || le l.batch_delay_seconds (tenths 0)
      || l.max_attempts == 0
      || ltb 10 l.max_attempts
      || le l.retry_base_delay_seconds (tenths 0)
      || l.circuit_failure_threshold == 0
      || le l.circuit_open_seconds (tenths 0)

  -- `HttpErrorReporter::HttpErrorReporter`
  unfoldable pub construct : String → String → Settings → Result Reporter
  unfolding split_endpoint
  construct provider endpoint settings = do
    let (host, path) = split_endpoint endpoint
    throw_if (is_empty host) (invalid_argument "observability endpoint is required")
    limits ← read_limits settings
    throw_if (is_refused limits) (invalid_argument "invalid observability batch settings")
    ok (record { provider = provider; endpoint = host; request_path = path; limits = limits })
