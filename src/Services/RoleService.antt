-- ===== src/Services/RoleService.antt =====
-- services/RoleService.cc: the roles in the database, their input and their public JSON.
use drogon_api_starter.Prelude.{
  ℕ, String, Bool, true, false, not, Option, none, some, List, [], ◌∷◌, if◌then◌else◌, ◌==◌,
}
use drogon_api_starter.Result.{Exception, invalid_argument, Result, ok, err}
use drogon_api_starter.Action.{Action, done, raise, lift, ◌>>=◌}
use drogon_api_starter.Pagination.{PageRequest, PageResult, offset, to_size_t}
use drogon_api_starter.Services.Input.{string_at, text_at}
use drogon_api_starter.Platform.{Platform, Mapper, Moment}
use drogon_api_starter.Models.Roles.{
  Roles, new_roles, get_value_of_id, get_value_of_name, get_value_of_description,
  get_value_of_created_at, get_value_of_updated_at, set_id, set_name, set_description,
  set_is_deleted, set_created_at, set_updated_at,
}
pub mod Laws

module _ (P : Platform) where
  unfoldable pub list_roles : PageRequest → Action P.Db (PageResult (Roles P.Date))
  list_roles request = P.roles.count >>= λ total.
      P.roles.find_page "created_at" request.page_size (to_size_t (offset P.int_overflow request))
      >>= λ items. done (record { items = items; total = total; request = request })

  -- `if (!role.getId()) return std::nullopt;`
  abbrev pub with_key : Roles P.Date → Option String → Option (Roles P.Date)
  with_key row none = none
  with_key row (some key) = some row

  unfoldable pub find_by_id : String → Action P.Db (Option (Roles P.Date))
  find_by_id id = P.roles.find_by_primary_key id >>= λ row. done (with_key row row.id.value)

  abbrev pub missing : Exception
  missing = invalid_argument "Request body must contain name and description"

  unfoldable pub validate_role_input : P.json.Value → Result (Unit {0})
  validate_role_input input =
      if P.json.is_object input
      then string_at P.json missing input "name"
          (string_at P.json missing input "description" (ok tt))
      else err missing

  -- The row that an insert is given.
  abbrev pub created_role : Moment P → String → String → Roles P.Date
  created_role moment name description = set_updated_at moment.now (
      set_created_at moment.now
        (set_is_deleted true (set_description description (set_name name new_roles))))

  unfoldable pub create_role : Moment P → P.json.Value → Action P.Db (Roles P.Date)
  create_role moment input = lift (validate_role_input input) >>= λ _.
      lift (text_at P.json input "name") >>= λ name.
      lift (text_at P.json input "description") >>= λ description.
      P.roles.insert (created_role moment name description)

  -- The row that an update is given, which is also what is answered.
  abbrev pub updated_role : Moment P → String → String → String → Roles P.Date
  updated_role moment id name description =
      set_updated_at moment.now (set_description description (set_name name (set_id id new_roles)))

  unfoldable pub update_role : Moment P → String → P.json.Value → Action P.Db (Roles P.Date)
  update_role moment id input = lift (validate_role_input input) >>= λ _.
      lift (text_at P.json input "name") >>= λ name.
      lift (text_at P.json input "description") >>= λ description.
      let row : Roles P.Date = updated_role moment id name description in
      P.roles.update row >>= λ touched. done row

  -- The count of deleted rows, as a bool.
  unfoldable pub delete_role : String → Action P.Db Bool
  delete_role id = P.roles.delete_by_primary_key id >>= λ deleted. done (not (deleted == 0))

  unfoldable pub to_public_json : Roles P.Date → P.json.Value
  to_public_json row =
      P.json.set "updated_at"
        (P.json.of_string (P.to_db_string (get_value_of_updated_at P.default_date row)))
        (P.json.set "created_at"
          (P.json.of_string (P.to_db_string (get_value_of_created_at P.default_date row)))
          (P.json.set "description" (P.json.of_string (get_value_of_description row)) (
            P.json.set "name" (P.json.of_string (get_value_of_name row))
              (P.json.set "id" (P.json.of_string (get_value_of_id row)) P.json.null))))
