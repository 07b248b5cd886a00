-- ===== src/Models/Reading.antt =====
-- What the constructors from JSON and from a row, updateByJson and the masqueraded variants of
-- models/ have in common: how one column is read, and how the steps for the columns follow one
-- another.
use drogon_api_starter.Prelude.{
  ℕ, String, Bool, true, false, Option, none, some, List, get_elem?, if◌then◌else◌,
}
use drogon_api_starter.Text.{is_empty}
use drogon_api_starter.Result.{
  Exception, std_exception, invalid_argument, foreign, Result, ok, err, ◌>>=◌,
}
use drogon_api_starter.Action.{Action, done}
use drogon_api_starter.Json.{JsonLib}
use drogon_api_starter.Models.Column.{Column}
use drogon_api_starter.Models.Dates.{DateLib, read_date}
use drogon_api_starter.Models.Fields.{Check, accepted, refused}
pub mod Given
pub mod Written

-- A column's place in an object of type `R`.
pub record Place (R A : Type 0) : Type 0 where
  pub get : R → Column A
  pub put : Column A → R → R

abbrev putting :
    {R A : Type 0} → Place R A → R → Result (Unit {0}) × Column A → Result (Unit {0}) × R
putting p r (res, c) = (res, p.put c r)

-- A step that touches one column; an exception leaves in it what the step had come to.
abbrev pub on_column :
    {R A : Type 0} → Place R A → Action (Column A) (Unit {0}) → Action R (Unit {0})
on_column p act r = putting p r (act (p.get r))

abbrev continue : {R : Type 0} → Action R (Unit {0}) → Result (Unit {0}) × R → Result (Unit {0}) × R
continue rest (ok done, r) = rest r
continue rest (err e, r) = (err e, r)

-- One statement after another.
infixr 5 ◌>>◌
abbrev pub ◌>>◌ : {R : Type 0} → Action R (Unit {0}) → Action R (Unit {0}) → Action R (Unit {0})
first >> rest = λ r. continue rest (first r)

-- A constructor's body, run on the new object: an exception leaves no object.
abbrev pub constructed : {R : Type 0} → Result (Unit {0}) × R → Result R
constructed (ok done, r) = ok r
constructed (err e, r) = err e

-- `pMasqueradingVector[i]`, where the vector has been found long enough.
abbrev pub mask : List String → ℕ → String
mask names i = elim (get_elem? names i) [ none ↦ "" | some name ↦ name ]

-- `dirtyFlag_[i] = true`, where the function has that statement for the column
abbrev pub touch : {A : Type 0} → Bool → Column A → Column A
touch marks c = record c { dirty = if marks then true else c.dirty }

-- `name_ = make_shared(...)` with a value that was read; `none` assigns nothing.
abbrev pub assign : {A : Type 0} → Result (Option A) → Action (Column A) (Unit {0})
assign (err e) c = (err e, c)
assign (ok none) c = (ok tt, c)
assign (ok (some a)) c = (ok tt, record c { value = some a })

-- `catch(const Json::LogicError &e) { err = e.what(); return false; }`; what jsoncpp throws is that.
abbrev pub catch_logic_error : Result Check → Result Check
catch_logic_error (ok check) = ok check
catch_logic_error (err (std_exception what)) = ok (refused what)
catch_logic_error (err (invalid_argument what)) = err (invalid_argument what)
catch_logic_error (err foreign) = err foreign

module _ (json : JsonLib) {A : Type 0} (convert : json.Value → Result (Option A))
    (marks : Bool) where
  -- `if(!pJson[name].isNull()) { name_ = ...; }`
  abbrev pub assign_unless_null : Result json.Value → Action (Column A) (Unit {0})
  assign_unless_null (err e) c = (err e, c)
  assign_unless_null (ok w) c = if json.is_null w then (ok tt, c) else assign (convert w) c

  abbrev pub read_found : json.Value → String → Result Bool → Action (Column A) (Unit {0})
  read_found v name (err e) c = (err e, c)
  read_found v name (ok false) c = (ok tt, c)
  read_found v name (ok true) c = assign_unless_null (json.index v name) (touch marks c)

  -- `if(pJson.isMember(name)) { dirtyFlag_[i] = true; if(!pJson[name].isNull()) { ... } }`
  unfoldable pub read_column : String → json.Value → Action (Column A) (Unit {0})
  read_column name v c = read_found v name (json.is_member v name) c

  -- The same after `!name.empty() &&`.
  unfoldable pub read_masked : String → json.Value → Action (Column A) (Unit {0})
  read_masked name v c = if is_empty name then (ok tt, c) else read_column name v c

module _ (json : JsonLib) where
  -- `std::make_shared<std::string>(pJson[name].asString())`, and the like for a bool and for a date
  abbrev pub text_value : json.Value → Result (Option String)
  text_value w = json.as_string w >>= λ s. ok (some s)

  abbrev pub bool_value : json.Value → Result (Option Bool)
  bool_value w = json.as_bool w >>= λ b. ok (some b)

  abbrev pub date_value : (dates : DateLib) → json.Value → Result (Option dates.Date)
  date_value dates w = json.as_string w >>= λ s. ok (read_date dates s)

-- What the models use of a drogon::orm::Row, as a parameter: a column's field is null or has a text,
-- which is what `as<std::string>` gives. A name or an index that is not there throws.
pub record RowLib : Type 1 where
  pub Row : Type 0
  pub size : Row → ℕ
  pub named : Row → String → Result (Option String)
  pub at : Row → ℕ → Result (Option String)
  -- `as<bool>()` of a text
  pub bool_of : String → Result Bool

-- `if(!r[...].isNull()) { name_ = std::make_shared<...>(r[...].as<...>()); }`
abbrev pub read_field :
    {A : Type 0}
    → (String → Result (Option A))
    → Result (Option String)
    → Action (Column A) (Unit {0})
read_field convert (err e) c = (err e, c)
read_field convert (ok none) c = (ok tt, c)
read_field convert (ok (some s)) c = assign (convert s) c

abbrev pub text_field : String → Result (Option String)
text_field s = ok (some s)

abbrev pub bool_field : (rows : RowLib) → String → Result (Option Bool)
bool_field rows s = rows.bool_of s >>= λ b. ok (some b)

abbrev pub date_field : (dates : DateLib) → String → Result (Option dates.Date)
date_field dates s = ok (read_date dates s)
