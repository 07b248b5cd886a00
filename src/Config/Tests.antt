-- ===== src/Config/Tests.antt =====
-- The configuration at concrete values, over doubles that are tenths or a NaN.
use drogon_api_starter.Prelude.{
  ℕ, ◌≡◌, refl, String, Bool, false, Option, none, some, List, [], ◌∷◌, map, arith, ltb, leb,
  str_eq, if◌then◌else◌,
}
use drogon_api_starter.Prelude.Dict.{lookup, insert}
use drogon_api_starter.Text.{split_at}
use drogon_api_starter.Text.Number.{stoi, to_string}
use drogon_api_starter.Result.{Result, ok, err}
use drogon_api_starter.Config.Floats.{Doubles}
use drogon_api_starter.Config.Readers.{
  required, number, number-insert, non_negative_number, flag, seconds,
}
use drogon_api_starter.Config.EnvFile.{
  Values, format, insert_all, read_line, read_lines, read_env_file, override_from_environment,
  override_all, read_lines-format, lookup-override_all, listed,
}
use drogon_api_starter.Config.{AppConfig, from_values, read_redis_db, load}
use drogon_api_starter.Config.Ranges.{IsChecked, from_values-IsChecked}

data Tenths : Type 0 where
  nan : Tenths
  tenths : ℕ → Tenths

abbrev le_tenths : Tenths → Tenths → Bool
le_tenths (tenths a) (tenths b) = leb a b
le_tenths _ _ = false

abbrev gt_tenths : Tenths → Tenths → Bool
gt_tenths (tenths a) (tenths b) = ltb b a
gt_tenths _ _ = false

abbrev read_tenths : String → Option Tenths
read_tenths s =
    if str_eq s "nan" then some nan else if str_eq s "2.5" then some (tenths 25) else none

abbrev doubles : Doubles
doubles = record {
  Double = Tenths;
  tenths = tenths;
  stod = read_tenths;
  le = le_tenths;
  gt = gt_tenths;
}

abbrev lines : List String
lines =
    "# local settings" ∷ "SECRET_KEY=s3cret" ∷ "DB_HOST=localhost" ∷ "DB_NAME=app" ∷ ""
    ∷ "DB_USER=me" ∷ "HTTP_PORT=8080" ∷ "DB_QUERY_TIMEOUT_SECONDS=2.5" ∷ []

abbrev values : Values
values =
    ("SECRET_KEY", "s3cret")
    ∷ ("DB_HOST", "localhost")
    ∷ ("DB_NAME", "app")
    ∷ ("DB_USER", "me")
    ∷ ("HTTP_PORT", "8080")
    ∷ ("DB_QUERY_TIMEOUT_SECONDS", "2.5")
    ∷ []

abbrev environment : String → Option String
environment key = if str_eq key "HTTP_PORT" then some "9090" else none

lines_read : read_lines [] lines ≡ values
unfolding read_lines read_line split_at insert
lines_read = refl

port_of : Result (AppConfig Tenths) → ℕ
port_of (ok c) = c.http_port
port_of (err e) = 0

loaded : port_of (load doubles environment ".env" (some lines)) ≡ 9090
unfolding port_of load from_values read_env_file read_lines read_line split_at insert override_all
    override_from_environment lookup required number non_negative_number flag seconds read_redis_db
    stoi
loaded = refl

-- A duration that is not a number passes the range check.
nan_passes :
    seconds doubles
      (("DB_QUERY_TIMEOUT_SECONDS", "nan") ∷ [])
      "DB_QUERY_TIMEOUT_SECONDS"
      (tenths 100)
    ≡ ok nan
unfolding seconds lookup
nan_passes = refl

abbrev config_of : Result (AppConfig Tenths) → AppConfig Tenths → AppConfig Tenths
config_of (ok c) d = c
config_of (err e) d = d

from_values_runs : (c : AppConfig Tenths) × (from_values doubles values ≡ ok c)
unfolding from_values lookup required number non_negative_number flag seconds read_redis_db stoi
from_values_runs = (_, refl)

from_values-IsChecked_example : IsChecked from_values_runs.0
from_values-IsChecked_example =
    from_values-IsChecked doubles values from_values_runs.0 from_values_runs.1

read_lines-format_example :
    read_lines [] (map format (("A", "1=2") ∷ ("B", "") ∷ []))
    ≡ insert_all [] (("A", "1=2") ∷ ("B", "") ∷ [])
read_lines-format_example =
    read_lines-format [] (("A", "1=2") ∷ ("B", "") ∷ [])
      ((refl, refl, omega arith), ((refl, refl, omega arith), tt))

lookup-override_all_example :
    lookup "HTTP_PORT" (override_all environment values ("DB_HOST" ∷ "HTTP_PORT" ∷ []))
    ≡ elim (if listed "HTTP_PORT" ("DB_HOST" ∷ "HTTP_PORT" ∷ [])
        then environment "HTTP_PORT"
        else none) [ none ↦ lookup "HTTP_PORT" values | some v ↦ some v ]
lookup-override_all_example =
    lookup-override_all environment values ("DB_HOST" ∷ "HTTP_PORT" ∷ []) "HTTP_PORT"

number-insert_example :
    number (insert "HTTP_PORT" (to_string 8081) values) "HTTP_PORT" 3000 ≡ ok 8081
number-insert_example = number-insert values "HTTP_PORT" 3000 8081 (omega arith) (omega arith)
