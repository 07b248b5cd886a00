-- ===== src/Pagination/Response.antt =====
-- pagination/PageResponse.h: a page of rows as JSON.
use drogon_api_starter.Prelude.{ℕ, List, [], ◌∷◌}
use drogon_api_starter.Text.Number.{ℤ}
use drogon_api_starter.Json.{JsonLib}
use drogon_api_starter.Pagination.{PageResult, has_next}

module _ (json : JsonLib) (overflow : ℕ → ℤ) {T : Type 0} (project : T → json.Value) where
  -- `for (const auto& item : page.items) response["results"].append(project(item));`
  abbrev append_all : List T → json.Value → json.Value
  append_all [] results = results
  append_all (item ∷ items) results = append_all items (json.append results (project item))

  unfoldable pub to_json : PageResult T → json.Value
  to_json page = json.set "has_next" (json.of_bool (has_next overflow page)) (
      json.set "total" (json.of_number page.total) (
        json.set "page_size" (json.of_number page.request.page_size) (
          json.set "page" (json.of_number page.request.page)
            (json.set "results" (append_all page.items json.empty_array) json.null))))
