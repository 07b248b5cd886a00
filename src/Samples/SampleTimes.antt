-- ===== src/Samples/SampleTimes.antt =====
-- Dates that are counts of microseconds, written after a `t`, and rows of a result as lists of
-- fields.
use drogon_api_starter.Prelude.{
  ℕ, String, Option, none, some, List, [], ◌∷◌, length, get_elem?, map, str_eq, if◌then◌else◌,
}
use drogon_api_starter.Text.{◌++◌, strip_prefix}
use drogon_api_starter.Text.Number.{to_string}
use drogon_api_starter.Result.{std_exception, Result, ok, err}
use drogon_api_starter.Models.Dates.{DateLib}
use drogon_api_starter.Models.Reading.{RowLib}

abbrev pub dates : DateLib
dates = record {
  Date = ℕ;
  of_micros = λ n. n;
  to_db_string_local = λ d. "t." ++ to_string d;
  Tm = Unit {0};
  strptime = λ s. elim (strip_prefix "t" s) [ none ↦ none | some rest ↦ some (tt, rest) ];
  mktime = λ tm. 0;
}

abbrev present : Option (Option String) → Result (Option String)
present none = err (std_exception "no such column")
present (some field) = ok field

abbrev field_named : String → List (String × Option String) → Option (Option String)
field_named key [] = none
field_named key ((k, field) ∷ rest) = if str_eq k key then some field else field_named key rest

abbrev field_of : String × Option String → Option String
field_of (k, field) = field

abbrev pub rows : RowLib
rows = record {
  Row = List (String × Option String);
  size = length;
  named = λ row key. present (field_named key row);
  at = λ row i. present (get_elem? (map field_of row) i);
  bool_of = λ s. ok (str_eq s "t");
}
