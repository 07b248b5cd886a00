-- ===== src/Services/UserService.antt =====
-- services/UserService.cc: the users in the database, their input and their public JSON.
use drogon_api_starter.Prelude.{
  ℕ, String, Bool, true, false, not, Option, none, some, List, [], ◌∷◌, if◌then◌else◌, ◌==◌,
}
use drogon_api_starter.Result.{Exception, invalid_argument, Result, ok, err}
use drogon_api_starter.Action.{Action, done, raise, lift, ◌>>=◌}
use drogon_api_starter.Pagination.{PageRequest, PageResult, offset, to_size_t}
use drogon_api_starter.Services.Input.{string_at, text_at}
use drogon_api_starter.Platform.{Platform, Mapper, Moment}
use drogon_api_starter.Models.Users.{
  Users, new_users, get_value_of_id, get_value_of_first_name, get_value_of_last_name,
  get_value_of_email, get_value_of_created_at, get_value_of_updated_at, set_id, set_first_name,
  set_last_name, set_email, set_password, set_is_deleted, set_created_at, set_updated_at,
}
pub mod Laws

module _ (P : Platform) where
  unfoldable pub list_users : PageRequest → Action P.Db (PageResult (Users P.Date))
  list_users request = P.users.count >>= λ total.
      P.users.find_page "created_at" request.page_size (to_size_t (offset P.int_overflow request))
      >>= λ items. done (record { items = items; total = total; request = request })

  -- `if (!user.getId()) return std::nullopt;`
  abbrev pub with_key : Users P.Date → Option String → Option (Users P.Date)
  with_key row none = none
  with_key row (some key) = some row

  unfoldable pub find_by_id : String → Action P.Db (Option (Users P.Date))
  find_by_id id = P.users.find_by_primary_key id >>= λ row. done (with_key row row.id.value)

  abbrev pub missing : Exception
  missing = invalid_argument "Request body must contain first_name, last_name, email and password"

  unfoldable pub validate_user_input : P.json.Value → Result (Unit {0})
  validate_user_input input =
      if P.json.is_object input
      then string_at P.json missing input "first_name" (
          string_at P.json missing input "last_name" (
            string_at P.json missing input "email"
              (string_at P.json missing input "password" (ok tt))))
      else err missing

  -- The row that an insert is given.
  abbrev pub created_user : Moment P → String → String → String → String → Users P.Date
  created_user moment first_name last_name email password = set_updated_at moment.now (
      set_created_at moment.now (
        set_password (P.generate_hash moment.salt password) (
          set_is_deleted true
            (set_email email (set_last_name last_name (set_first_name first_name new_users))))))

  unfoldable pub create_user : Moment P → P.json.Value → Action P.Db (Users P.Date)
  create_user moment input = lift (validate_user_input input) >>= λ _.
      lift (text_at P.json input "first_name") >>= λ first_name.
      lift (text_at P.json input "last_name") >>= λ last_name.
      lift (text_at P.json input "email") >>= λ email.
      lift (text_at P.json input "password") >>= λ password.
      P.users.insert (created_user moment first_name last_name email password)

  -- The row that an update is given, which is also what is answered.
  abbrev pub updated_user : Moment P → String → String → String → String → String → Users P.Date
  updated_user moment id first_name last_name email password = set_updated_at moment.now (
      set_password (P.generate_hash moment.salt password) (
        set_email email
          (set_last_name last_name (set_first_name first_name (set_id id new_users)))))

  unfoldable pub update_user : Moment P → String → P.json.Value → Action P.Db (Users P.Date)
  update_user moment id input = lift (validate_user_input input) >>= λ _.
      lift (text_at P.json input "first_name") >>= λ first_name.
      lift (text_at P.json input "last_name") >>= λ last_name.
      lift (text_at P.json input "email") >>= λ email.
      lift (text_at P.json input "password") >>= λ password.
      let row : Users P.Date = updated_user moment id first_name last_name email password in
      P.users.update row >>= λ touched. done row

  -- The count of deleted rows, as a bool.
  unfoldable pub delete_user : String → Action P.Db Bool
  delete_user id = P.users.delete_by_primary_key id >>= λ deleted. done (not (deleted == 0))

  unfoldable pub to_public_json : Users P.Date → P.json.Value
  to_public_json row =
      P.json.set "updated_at"
        (P.json.of_string (P.to_db_string (get_value_of_updated_at P.default_date row)))
        (P.json.set "created_at"
          (P.json.of_string (P.to_db_string (get_value_of_created_at P.default_date row)))
          (P.json.set "email" (P.json.of_string (get_value_of_email row)) (
            P.json.set "last_name" (P.json.of_string (get_value_of_last_name row)) (
              P.json.set "first_name" (P.json.of_string (get_value_of_first_name row))
                (P.json.set "id" (P.json.of_string (get_value_of_id row)) P.json.null)))))
