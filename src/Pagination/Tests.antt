-- ===== src/Pagination/Tests.antt =====
-- Pages at concrete parameters.
use drogon_api_starter.Prelude.{ℕ, ◌≡◌, ◌↔◌, ◌<◌, refl, String, true, List, [], ◌∷◌, arith}
use drogon_api_starter.Prelude.Dict.{lookup}
use drogon_api_starter.Text.Number.{pos, negsuc, stoi}
use drogon_api_starter.Result.{Exception, invalid_argument, is_invalid_argument, ok, err}
use drogon_api_starter.Pagination.{PageRequest, PageResult, from, offset, has_next}
use drogon_api_starter.Pagination.Laws.{
  IsValid, from-IsValid, from-invalid_argument, accepted-offset,
}
use drogon_api_starter.Pagination.Keys.{cache_key-injective}

abbrev parameters : List (String × String)
parameters = ("page", "3") ∷ ("page_size", "50") ∷ []

abbrev third : PageRequest
third = record { page = 3; page_size = 50 }

abbrev rows : PageResult ℕ
rows = record { items = []; total = 151; request = third }

parameters_read : from parameters ≡ ok third
unfolding from lookup stoi
parameters_read = refl

from-IsValid_example : IsValid third
from-IsValid_example = from-IsValid parameters third parameters_read

abbrev too_large : Exception
too_large = invalid_argument "page must be positive and page_size must be between 1 and 100"

too_large_refused : from (("page_size", "101") ∷ []) ≡ err too_large
unfolding from lookup stoi
too_large_refused = refl

from-invalid_argument_example : is_invalid_argument too_large ≡ true
from-invalid_argument_example =
    from-invalid_argument (("page_size", "101") ∷ []) too_large too_large_refused

accepted-offset_example :
    (offset negsuc third ≡ pos 100) × ((has_next negsuc rows ≡ true) ↔ (150 < 151))
accepted-offset_example =
    accepted-offset negsuc parameters third [] 151 parameters_read (omega arith)

cache_key-injective_example : (third.page ≡ third.page) × (third.page_size ≡ third.page_size)
cache_key-injective_example = cache_key-injective "users" third third refl
