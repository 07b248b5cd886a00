-- ===== src/Models/UserPermissions/Reading.antt =====
-- models/UserPermissions.cc: a row of table user_permissions as it is made from a result of the
-- database and from JSON, and as JSON changes it. The constructor from a result is noexcept: an
-- exception in it ends the process.
use drogon_api_starter.Prelude.{◌+◌, String, true, ltb, if◌then◌else◌}
use drogon_api_starter.Text.Number.{ℤ, pos, negsuc}
use drogon_api_starter.Result.{Result, ok}
use drogon_api_starter.Action.{Action}
use drogon_api_starter.Json.{JsonLib}
use drogon_api_starter.Models.Dates.{DateLib}
use drogon_api_starter.Models.Reading.{
  Place, on_column, ◌>>◌, constructed, read_column, read_field, date_value, text_value, date_field,
  text_field, RowLib,
}
use drogon_api_starter.Models.UserPermissions.{UserPermissions, new_user_permissions}

module _ {Date : Type 0} where
  abbrev pub user_id_place : Place (UserPermissions Date) String
  user_id_place = record { get = λ r. r.user_id; put = λ c r. record r { user_id = c } }

  abbrev pub permission_id_place : Place (UserPermissions Date) String
  permission_id_place = record {
    get = λ r. r.permission_id;
    put = λ c r. record r { permission_id = c };
  }

  abbrev pub created_at_place : Place (UserPermissions Date) Date
  created_at_place = record { get = λ r. r.created_at; put = λ c r. record r { created_at = c } }

  abbrev pub updated_at_place : Place (UserPermissions Date) Date
  updated_at_place = record { get = λ r. r.updated_at; put = λ c r. record r { updated_at = c } }

module _ (dates : DateLib) (rows : RowLib) where
  -- A negative offset reads by name, another one by position.
  unfoldable pub from_row : rows.Row → ℤ → Result (UserPermissions dates.Date)
  from_row row (negsuc k) = constructed (
      (on_column user_id_place (read_field text_field (rows.named row "user_id"))
          >> on_column permission_id_place (read_field text_field (rows.named row "permission_id"))
          >> on_column created_at_place
              (read_field (date_field dates) (rows.named row "created_at"))
          >> on_column updated_at_place
              (read_field (date_field dates) (rows.named row "updated_at")))
        new_user_permissions)
  from_row row (pos offset) =
      if ltb (rows.size row) (offset + 4)
      then ok new_user_permissions
      else constructed (
          (on_column user_id_place (read_field text_field (rows.at row (offset + 0)))
              >> on_column permission_id_place (read_field text_field (rows.at row (offset + 1)))
              >> on_column created_at_place
                  (read_field (date_field dates) (rows.at row (offset + 2)))
              >> on_column updated_at_place
                  (read_field (date_field dates) (rows.at row (offset + 3))))
            new_user_permissions)

module _ (json : JsonLib) (dates : DateLib) where
  unfoldable pub from_json : json.Value → Result (UserPermissions dates.Date)
  from_json v = constructed (
      (on_column user_id_place (read_column json (text_value json) true "user_id" v)
          >> on_column permission_id_place
              (read_column json (text_value json) true "permission_id" v)
          >> on_column created_at_place
              (read_column json (date_value json dates) true "created_at" v)
          >> on_column updated_at_place
              (read_column json (date_value json dates) true "updated_at" v))
        new_user_permissions)

  unfoldable pub update_by_json : json.Value → Action (UserPermissions dates.Date) (Unit {0})
  update_by_json v =
      on_column user_id_place (read_column json (text_value json) true "user_id" v)
      >> on_column permission_id_place (read_column json (text_value json) true "permission_id" v)
      >> on_column created_at_place (read_column json (date_value json dates) true "created_at" v)
      >> on_column updated_at_place (read_column json (date_value json dates) true "updated_at" v)
