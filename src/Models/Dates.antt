-- ===== src/Models/Dates.antt =====
-- models/: how a constructor reads a timestamp's text, as it is written out once for every date
-- column: `strptime`, `mktime`, then the decimals after a point, padded to microseconds.
use Prim.Native.Char.{code}
use Prim.Native.String.{[], ◌∷◌}
use drogon_api_starter.Prelude.{
  ℕ, zero, suc, ◌+◌, ◌-◌, ◌*◌, ◌%◌, ◌^◌, String, Option, none, some, ltb, ◌==◌, if◌then◌else◌,
}
use drogon_api_starter.Text.{◌++◌, size}
use drogon_api_starter.Text.Number.{skip_spaces, read_digits}
pub mod Laws

-- What the models use of the C library and of trantor, as a parameter. `time_t` and `int64_t` are
-- 64-bit patterns.
pub record DateLib : Type 1 where
  -- trantor::Date, its constructor from microseconds and its `toDbStringLocal`
  pub Date : Type 0
  pub of_micros : ℕ → Date
  pub to_db_string_local : Date → String
  -- `strptime(s, "%Y-%m-%d %H:%M:%S", &stm)`: the fields and the text after them, or `none` for the
  -- null pointer; and `mktime(&stm)`
  pub Tm : Type 0
  pub strptime : String → Option (Tm × String)
  pub mktime : Tm → ℕ

abbrev pub long_max : ℕ
long_max = 9223372036854775807

-- `(size_t)n` for a `long` that is read with or without a minus sign, kept in the range of `long`.
abbrev positive : ℕ → ℕ
positive n = if ltb long_max n then long_max else n

abbrev negative : ℕ → ℕ
negative n =
    if ltb (suc long_max) n then suc long_max else (18446744073709551616 - n) % 18446744073709551616

abbrev with_sign : String → ℕ
with_sign [] = 0
with_sign (c ∷ s) =
    if code c == b'-'
    then negative (read_digits 0 s)
    else if code c == b'+'
    then positive (read_digits 0 s)
    else positive (read_digits 0 (c ∷ s))

-- `(size_t)atol(s)`
unfoldable pub atol : String → ℕ
unfolding skip_spaces read_digits
atol s = with_sign (skip_spaces s)

-- `while (decimals.length() < 6) { decimals += "0"; }`, with the rounds that are left.
unfoldable pub pad : ℕ → String → String
pad zero s = s
pad (suc n) s = pad n (s ++ "0")

unfoldable pub decimal_num : String → ℕ
unfolding pad atol
decimal_num decimals = atol (pad (6 - size decimals) decimals)

-- What stands at `p`: decimals after a point, or nothing that counts.
unfoldable pub fraction : String → ℕ
unfolding decimal_num
fraction [] = 0
fraction (c ∷ s) = if code c == b'.' then decimal_num s else 0

module _ (dates : DateLib) where
  abbrev dated : Option (dates.Tm × String) → Option dates.Date
  dated none = none
  dated (some (tm, rest)) =
      some (dates.of_micros ((dates.mktime tm * 1000000 + fraction rest) % 18446744073709551616))

  -- From `auto timeStr = ...` to the `make_shared<::trantor::Date>`; `none` leaves the pointer as it
  -- is.
  unfoldable pub read_date : String → Option dates.Date
  unfolding fraction
  read_date time_str = dated (dates.strptime time_str)
