-- ===== src/Models/Users/Reading.antt =====
-- models/Users.cc: a row of table users as it is made from a result of the database and from JSON, and as
-- JSON changes it. The constructor from a result is noexcept: an exception in it ends the process.
use drogon_api_starter.Prelude.{◌+◌, String, Bool, true, false, ltb, if◌then◌else◌}
use drogon_api_starter.Text.Number.{ℤ, pos, negsuc}
use drogon_api_starter.Result.{Result, ok}
use drogon_api_starter.Action.{Action}
use drogon_api_starter.Json.{JsonLib}
use drogon_api_starter.Models.Dates.{DateLib}
use drogon_api_starter.Models.Reading.{
  Place, on_column, ◌>>◌, constructed, read_column, read_field, bool_value, date_value, text_value,
  bool_field, date_field, text_field, RowLib,
}
use drogon_api_starter.Models.Users.{Users, new_users}

module _ {Date : Type 0} where
  abbrev pub id_place : Place (Users Date) String
  id_place = record { get = λ r. r.id; put = λ c r. record r { id = c } }

  abbrev pub first_name_place : Place (Users Date) String
  first_name_place = record { get = λ r. r.first_name; put = λ c r. record r { first_name = c } }

  abbrev pub last_name_place : Place (Users Date) String
  last_name_place = record { get = λ r. r.last_name; put = λ c r. record r { last_name = c } }

  abbrev pub email_place : Place (Users Date) String
  email_place = record { get = λ r. r.email; put = λ c r. record r { email = c } }

  abbrev pub password_place : Place (Users Date) String
  password_place = record { get = λ r. r.password; put = λ c r. record r { password = c } }

  abbrev pub is_deleted_place : Place (Users Date) Bool
  is_deleted_place = record { get = λ r. r.is_deleted; put = λ c r. record r { is_deleted = c } }

  abbrev pub created_at_place : Place (Users Date) Date
  created_at_place = record { get = λ r. r.created_at; put = λ c r. record r { created_at = c } }

  abbrev pub updated_at_place : Place (Users Date) Date
  updated_at_place = record { get = λ r. r.updated_at; put = λ c r. record r { updated_at = c } }

  abbrev pub deleted_at_place : Place (Users Date) Date
  deleted_at_place = record { get = λ r. r.deleted_at; put = λ c r. record r { deleted_at = c } }

module _ (dates : DateLib) (rows : RowLib) where
  -- A negative offset reads by name, another one by position.
  unfoldable pub from_row : rows.Row → ℤ → Result (Users dates.Date)
  from_row row (negsuc k) = constructed (
      (on_column id_place (read_field text_field (rows.named row "id"))
          >> on_column first_name_place (read_field text_field (rows.named row "first_name"))
          >> on_column last_name_place (read_field text_field (rows.named row "last_name"))
          >> on_column email_place (read_field text_field (rows.named row "email"))
          >> on_column password_place (read_field text_field (rows.named row "password"))
          >> on_column is_deleted_place (read_field (bool_field rows) (rows.named row "is_deleted"))
          >> on_column created_at_place
              (read_field (date_field dates) (rows.named row "created_at"))
          >> on_column updated_at_place
              (read_field (date_field dates) (rows.named row "updated_at"))
          >> on_column deleted_at_place
              (read_field (date_field dates) (rows.named row "deleted_at")))
        new_users)
  from_row row (pos offset) =
      if ltb (rows.size row) (offset + 9)
      then ok new_users
      else constructed (
          (on_column id_place (read_field text_field (rows.at row (offset + 0)))
              >> on_column first_name_place (read_field text_field (rows.at row (offset + 1)))
              >> on_column last_name_place (read_field text_field (rows.at row (offset + 2)))
              >> on_column email_place (read_field text_field (rows.at row (offset + 3)))
              >> on_column password_place (read_field text_field (rows.at row (offset + 4)))
              >> on_column is_deleted_place
                  (read_field (bool_field rows) (rows.at row (offset + 5)))
              >> on_column created_at_place
                  (read_field (date_field dates) (rows.at row (offset + 6)))
              >> on_column updated_at_place
                  (read_field (date_field dates) (rows.at row (offset + 7)))
              >> on_column deleted_at_place
                  (read_field (date_field dates) (rows.at row (offset + 8))))
            new_users)

module _ (json : JsonLib) (dates : DateLib) where
  unfoldable pub from_json : json.Value → Result (Users dates.Date)
  from_json v = constructed (
      (on_column id_place (read_column json (text_value json) true "id" v)
          >> on_column first_name_place (read_column json (text_value json) true "first_name" v)
          >> on_column last_name_place (read_column json (text_value json) true "last_name" v)
          >> on_column email_place (read_column json (text_value json) true "email" v)
          >> on_column password_place (read_column json (text_value json) true "password" v)
          >> on_column is_deleted_place (read_column json (bool_value json) true "is_deleted" v)
          >> on_column created_at_place
              (read_column json (date_value json dates) true "created_at" v)
          >> on_column updated_at_place
              (read_column json (date_value json dates) true "updated_at" v)
          >> on_column deleted_at_place
              (read_column json (date_value json dates) true "deleted_at" v))
        new_users)

  unfoldable pub update_by_json : json.Value → Action (Users dates.Date) (Unit {0})
  update_by_json v =
      on_column id_place (read_column json (text_value json) false "id" v)
      >> on_column first_name_place (read_column json (text_value json) true "first_name" v)
      >> on_column last_name_place (read_column json (text_value json) true "last_name" v)
      >> on_column email_place (read_column json (text_value json) true "email" v)
      >> on_column password_place (read_column json (text_value json) true "password" v)
      >> on_column is_deleted_place (read_column json (bool_value json) true "is_deleted" v)
      >> on_column created_at_place (read_column json (date_value json dates) true "created_at" v)
      >> on_column updated_at_place (read_column json (date_value json dates) true "updated_at" v)
      >> on_column deleted_at_place (read_column json (date_value json dates) true "deleted_at" v)
