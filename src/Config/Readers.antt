-- ===== src/Config/Readers.antt =====
-- config/AppConfig.cc: the functions that read one setting.
use drogon_api_starter.Prelude.{
  ℕ, ◌≤◌, ◌≡◌, String, Bool, false, ◌||◌, Option, none, some, List, arith, ltb, str_eq, eq_refl,
  if◌then◌else◌,
}
use drogon_api_starter.Prelude.Dict.{lookup, insert, lookup-insert}
use drogon_api_starter.Text.{is_empty, ◌++◌}
use drogon_api_starter.Text.Number.{
  ℤ, pos, negsuc, stoi, to_string, stoi-to_string, to_string-ne-empty,
}
use drogon_api_starter.Result.{Exception, std_exception, Result, ok, err}
use drogon_api_starter.Config.Floats.{Doubles}

-- A value that is there and not empty.
abbrev pub present : List (String × String) → String → Option String
present values key = elim (lookup key values) [
  | none ↦ none
  | some v ↦ if is_empty v then none else some v
]

unfoldable pub required : List (String × String) → String → Result String
required values key = elim (present values key) [
  | none ↦ err (std_exception ("Missing required configuration: " ++ key))
  | some v ↦ ok v
]

abbrev in_port_range : Option ℤ → Exception → Result ℕ
in_port_range none e = err e
in_port_range (some (negsuc n)) e = err e
in_port_range (some (pos n)) e = if ltb n 1 || ltb 65535 n then err e else ok n

unfoldable pub number : List (String × String) → String → ℕ → Result ℕ
number values key fallback = elim (present values key) [
  | none ↦ ok fallback
  | some v ↦ in_port_range (stoi v) (std_exception ("Invalid numeric configuration: " ++ key))
]

abbrev in_number_range : Option ℤ → Exception → Result ℕ
in_number_range none e = err e
in_number_range (some (negsuc n)) e = err e
in_number_range (some (pos n)) e = if ltb 65535 n then err e else ok n

unfoldable pub non_negative_number : List (String × String) → String → ℕ → Result ℕ
non_negative_number values key fallback = elim (present values key) [
  | none ↦ ok fallback
  | some v ↦ in_number_range (stoi v) (std_exception ("Invalid numeric configuration: " ++ key))
]

unfoldable pub flag : List (String × String) → String → Bool → Bool
flag values key fallback = elim (present values key) [
  | none ↦ fallback
  | some v ↦ str_eq v "1" || str_eq v "true" || str_eq v "TRUE"
]

module _ (D : Doubles) where
  open D use {Double, tenths, stod, le, gt}

  abbrev in_second_range : Option Double → Exception → Result Double
  in_second_range none e = err e
  in_second_range (some parsed) e =
      if le parsed (tenths 0) || gt parsed (tenths 36000) then err e else ok parsed

  unfoldable pub seconds : List (String × String) → String → Double → Result Double
  seconds values key fallback = elim (present values key) [
    | none ↦ ok fallback
    | some v ↦ in_second_range (stod v) (std_exception ("Invalid duration configuration: " ++ key))
  ]

-- A number that is read is a port: 1 to 65535.
pub number_range :
    (values : List (String × String)) (key : String) (fallback n : ℕ)
    → 1 ≤ fallback
    → fallback ≤ 65535
    → number values key fallback ≡ ok n
    → (1 ≤ n) × (n ≤ 65535)
unfolding number
number_range values key fallback n p q h = ground arith

pub non_negative_number-le :
    (values : List (String × String)) (key : String) (fallback n : ℕ)
    → fallback ≤ 65535
    → non_negative_number values key fallback ≡ ok n
    → n ≤ 65535
unfolding non_negative_number
non_negative_number-le values key fallback n q h = ground arith

pub required-ne-empty :
    (values : List (String × String)) (key v : String)
    → required values key ≡ ok v
    → is_empty v ≡ false
unfolding required
required-ne-empty values key v h = ground arith

number_of_text :
    (values : List (String × String)) (key v : String) (fallback n : ℕ)
    → lookup key values ≡ some v
    → is_empty v ≡ false
    → stoi v ≡ some (pos n)
    → 1 ≤ n
    → n ≤ 65535
    → number values key fallback ≡ ok n
unfolding number
number_of_text values key v fallback n found full read p q = ground arith

-- A port that is printed into a setting is read back, whatever the other settings.
pub number-insert :
    (values : List (String × String)) (key : String) (fallback n : ℕ)
    → 1 ≤ n
    → n ≤ 65535
    → number (insert key (to_string n) values) key fallback ≡ ok n
number-insert values key fallback n p q =
    number_of_text (insert key (to_string n) values) key (to_string n) fallback n
      (ground (arith, lookup-insert key key (to_string n) values, eq_refl key))
      (to_string-ne-empty n) (stoi-to_string n (omega arith)) p q
