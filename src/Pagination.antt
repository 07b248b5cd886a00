-- ===== src/Pagination.antt =====
-- pagination/: the page that a request asks for. The parameters of the request are a map of texts.
pub mod Laws
pub mod Keys
pub mod Response
pub mod Tests
use drogon_api_starter.Prelude.{
  ℕ, ◌+◌, ◌-◌, ◌*◌, ◌%◌, ◌^◌, String, Bool, true, false, ◌||◌, Option, none, some, List, ltb, leb,
  if◌then◌else◌,
}
use drogon_api_starter.Prelude.Dict.{lookup}
use drogon_api_starter.Text.{◌++◌}
use drogon_api_starter.Text.Number.{ℤ, pos, negsuc, stoi, to_string}
use drogon_api_starter.Result.{Exception, invalid_argument, Result, ok, err, ◌>>=◌}

-- `from` lets only positive values through, so the two ints are numbers.
pub record PageRequest : Type 0 where
  pub page : ℕ
  pub page_size : ℕ

abbrev pub default_page : ℕ
default_page = 1

abbrev pub default_page_size : ℕ
default_page_size = 25

abbrev pub max_page_size : ℕ
max_page_size = 100

abbrev parsed : Option ℤ → Result ℤ
parsed none = err (invalid_argument "page and page_size must be integers")
parsed (some n) = ok n

abbrev parameter : Option String → ℕ → Result ℤ
parameter none fallback = ok (pos fallback)
parameter (some text) fallback = parsed (stoi text)

abbrev out_of_range : Exception
out_of_range = invalid_argument "page must be positive and page_size must be between 1 and 100"

abbrev checked : ℤ → ℤ → Result PageRequest
checked (pos page) (pos page_size) =
    if ltb page 1 || ltb page_size 1 || ltb max_page_size page_size
    then err out_of_range
    else ok (record { page = page; page_size = page_size })
checked (pos page) (negsuc n) = err out_of_range
checked (negsuc n) page_size = err out_of_range

unfoldable pub from : List (String × String) → Result PageRequest
from parameters = do
  page ← parameter (lookup "page" parameters) default_page
  page_size ← parameter (lookup "page_size" parameters) default_page_size
  checked page page_size

-- An int from the number that the source's arithmetic comes to. Above the range of int C++ defines no
-- result: what comes of it then is a parameter.
abbrev pub in_int : (ℕ → ℤ) → ℕ → ℤ
in_int overflow n = if ltb n (2 ^ 31) then pos n else overflow n

unfoldable pub offset : (ℕ → ℤ) → PageRequest → ℤ
offset overflow r = in_int overflow ((r.page - 1) * r.page_size)

-- The sum of an int and a positive one.
abbrev sum : (ℕ → ℤ) → ℤ → ℕ → ℤ
sum overflow (pos m) k = in_int overflow (m + k)
sum overflow (negsuc m) k = if ltb m k then pos (k - m - 1) else negsuc (m - k)

unfoldable pub cache_key : PageRequest → String → String
cache_key r resource = resource ++ ":page=" ++ to_string r.page ++ ":size=" ++ to_string r.page_size

pub record PageResult {ℓ} (T : Type ℓ) : Type ℓ where
  pub items : List T
  pub total : ℕ
  pub request : PageRequest

-- `static_cast<std::size_t>`
abbrev pub to_size_t : ℤ → ℕ
to_size_t (pos n) = n
to_size_t (negsuc n) = 2 ^ 64 - 1 - n

unfoldable pub has_next {ℓ} : {T : Type ℓ} → (ℕ → ℤ) → PageResult T → Bool
unfolding offset
has_next overflow p =
    ltb (to_size_t (sum overflow (offset overflow p.request) p.request.page_size)) p.total
