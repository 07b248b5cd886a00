-- ===== src/Pagination/Laws.antt =====
-- The pages of a list of rows: what `from` lets through, and how the pages follow one another.
use drogon_api_starter.Prelude.{
  ℕ, zero, suc, ◌+◌, ◌-◌, ◌*◌, ◌^◌, ◌≤◌, ◌<◌, ◌≡◌, ◌↔◌, String, true, List, arith,
}
use drogon_api_starter.Text.Number.{ℤ, pos}
use drogon_api_starter.Result.{Exception, is_invalid_argument, ok, err}
use drogon_api_starter.Pagination.{PageRequest, from, offset, has_next}

-- A page from 1 on that an int holds, of 1 to 100 rows.
pub record IsValid (r : PageRequest) : Type 0 where
  pub page : 1 ≤ r.page
  pub page_size : (1 ≤ r.page_size) × (r.page_size ≤ 100)

pub from-IsValid :
    (parameters : List (String × String)) (r : PageRequest) → from parameters ≡ ok r → IsValid r
unfolding from
from-IsValid parameters r h = ground arith

-- A request is refused by an std::invalid_argument, never by another exception.
pub from-invalid_argument :
    (parameters : List (String × String)) (e : Exception)
    → from parameters ≡ err e
    → is_invalid_argument e ≡ true
unfolding from
from-invalid_argument parameters e h = ground arith

bounded : (page size : ℕ) → 1 ≤ page → page ≤ 21474836 → size ≤ 100 → page * size < 2 ^ 31
bounded page size one small h = grind arith

row_end : (page size : ℕ) → 1 ≤ page → (page - 1) * size + size ≡ page * size
row_end zero size one = absurd (omega (arith, one))
row_end (suc page) size one = let less : suc page - 1 ≡ page = omega arith in rw less (omega arith)

-- For every request that `from` accepts, up to page 21,474,836, no int overflows: the offset is the
-- number of rows before the page, and hasNext holds exactly if there are more rows than those up to
-- the end of the page.
pub accepted-offset {ℓ} :
    {T : Type ℓ} (overflow : ℕ → ℤ) (parameters : List (String × String)) (r : PageRequest)
    (items : List T) (total : ℕ)
    → from parameters ≡ ok r
    → r.page ≤ 21474836
    → (offset overflow r ≡ pos ((r.page - 1) * r.page_size))
      × ((has_next overflow (record { items = items; total = total; request = r }) ≡ true)
          ↔ (r.page * r.page_size < total))
unfolding offset has_next
accepted-offset overflow parameters r items total h small =
    let valid = from-IsValid parameters r h in
    let (_, at_most) = valid.page_size in
    let fits = bounded r.page r.page_size valid.page small at_most in
    let end = row_end r.page r.page_size valid.page in
    (ground (arith, fits, end), ground (arith, fits, end))
