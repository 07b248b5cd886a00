-- ===== src/Models/RolePermissions/Reading.antt =====
-- models/RolePermissions.cc: a row of table role_permissions as it is made from a result of the
-- database and from JSON, and as JSON changes it. The constructor from a result is noexcept: an
-- exception in it ends the process.
use drogon_api_starter.Prelude.{◌+◌, String, true, false, ltb, if◌then◌else◌}
use drogon_api_starter.Text.Number.{ℤ, pos, negsuc}
use drogon_api_starter.Result.{Result, ok}
use drogon_api_starter.Action.{Action}
use drogon_api_starter.Json.{JsonLib}
use drogon_api_starter.Models.Dates.{DateLib}
use drogon_api_starter.Models.Reading.{
  Place, on_column, ◌>>◌, constructed, read_column, read_field, date_value, text_value, date_field,
  text_field, RowLib,
}
use drogon_api_starter.Models.RolePermissions.{RolePermissions, new_role_permissions}

module _ {Date : Type 0} where
  abbrev pub user_id_place : Place (RolePermissions Date) String
  user_id_place = record { get = λ r. r.user_id; put = λ c r. record r { user_id = c } }

  abbrev pub role_id_place : Place (RolePermissions Date) String
  role_id_place = record { get = λ r. r.role_id; put = λ c r. record r { role_id = c } }

  abbrev pub created_at_place : Place (RolePermissions Date) Date
  created_at_place = record { get = λ r. r.created_at; put = λ c r. record r { created_at = c } }

  abbrev pub updated_at_place : Place (RolePermissions Date) Date
  updated_at_place = record { get = λ r. r.updated_at; put = λ c r. record r { updated_at = c } }

module _ (dates : DateLib) (rows : RowLib) where
  -- A negative offset reads by name, another one by position.
  unfoldable pub from_row : rows.Row → ℤ → Result (RolePermissions dates.Date)
  from_row row (negsuc k) = constructed (
      (on_column user_id_place (read_field text_field (rows.named row "user_id"))
          >> on_column role_id_place (read_field text_field (rows.named row "role_id"))
          >> on_column created_at_place
              (read_field (date_field dates) (rows.named row "created_at"))
          >> on_column updated_at_place
              (read_field (date_field dates) (rows.named row "updated_at")))
        new_role_permissions)
  from_row row (pos offset) =
      if ltb (rows.size row) (offset + 4)
      then ok new_role_permissions
      else constructed (
          (on_column user_id_place (read_field text_field (rows.at row (offset + 0)))
              >> on_column role_id_place (read_field text_field (rows.at row (offset + 1)))
              >> on_column created_at_place
                  (read_field (date_field dates) (rows.at row (offset + 2)))
              >> on_column updated_at_place
                  (read_field (date_field dates) (rows.at row (offset + 3))))
            new_role_permissions)

module _ (json : JsonLib) (dates : DateLib) where
  unfoldable pub from_json : json.Value → Result (RolePermissions dates.Date)
  from_json v = constructed (
      (on_column user_id_place (read_column json (text_value json) true "user_id" v)
          >> on_column role_id_place (read_column json (text_value json) true "role_id" v)
          >> on_column created_at_place
              (read_column json (date_value json dates) true "created_at" v)
          >> on_column updated_at_place
              (read_column json (date_value json dates) true "updated_at" v))
        new_role_permissions)

  unfoldable pub update_by_json : json.Value → Action (RolePermissions dates.Date) (Unit {0})
  update_by_json v =
      on_column user_id_place (read_column json (text_value json) false "user_id" v)
      >> on_column role_id_place (read_column json (text_value json) false "role_id" v)
      >> on_column created_at_place (read_column json (date_value json dates) true "created_at" v)
      >> on_column updated_at_place (read_column json (date_value json dates) true "updated_at" v)
