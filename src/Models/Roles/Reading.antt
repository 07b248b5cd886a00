-- ===== src/Models/Roles/Reading.antt =====
-- models/Roles.cc: a row of table roles as it is made from a result of the database and from JSON, and as
-- JSON changes it. The constructor from a result is noexcept: an exception in it ends the process.
use drogon_api_starter.Prelude.{◌+◌, String, Bool, true, false, ltb, if◌then◌else◌}
use drogon_api_starter.Text.Number.{ℤ, pos, negsuc}
use drogon_api_starter.Result.{Result, ok}
use drogon_api_starter.Action.{Action}
use drogon_api_starter.Json.{JsonLib}
use drogon_api_starter.Models.Dates.{DateLib}
use drogon_api_starter.Models.Reading.{
  Place, on_column, ◌>>◌, constructed, read_column, read_field, bool_value, date_value, text_value,
  bool_field, date_field, text_field, RowLib,
}
use drogon_api_starter.Models.Roles.{Roles, new_roles}

module _ {Date : Type 0} where
  abbrev pub id_place : Place (Roles Date) String
  id_place = record { get = λ r. r.id; put = λ c r. record r { id = c } }

  abbrev pub name_place : Place (Roles Date) String
  name_place = record { get = λ r. r.name; put = λ c r. record r { name = c } }

  abbrev pub description_place : Place (Roles Date) String
  description_place = record { get = λ r. r.description; put = λ c r. record r { description = c } }

  abbrev pub meta_place : Place (Roles Date) String
  meta_place = record { get = λ r. r.meta; put = λ c r. record r { meta = c } }

  abbrev pub is_deleted_place : Place (Roles Date) Bool
  is_deleted_place = record { get = λ r. r.is_deleted; put = λ c r. record r { is_deleted = c } }

  abbrev pub created_at_place : Place (Roles Date) Date
  created_at_place = record { get = λ r. r.created_at; put = λ c r. record r { created_at = c } }

  abbrev pub updated_at_place : Place (Roles Date) Date
  updated_at_place = record { get = λ r. r.updated_at; put = λ c r. record r { updated_at = c } }

  abbrev pub deleted_at_place : Place (Roles Date) Date
  deleted_at_place = record { get = λ r. r.deleted_at; put = λ c r. record r { deleted_at = c } }

module _ (dates : DateLib) (rows : RowLib) where
  -- A negative offset reads by name, another one by position.
  unfoldable pub from_row : rows.Row → ℤ → Result (Roles dates.Date)
  from_row row (negsuc k) = constructed (
      (on_column id_place (read_field text_field (rows.named row "id"))
          >> on_column name_place (read_field text_field (rows.named row "name"))
          >> on_column description_place (read_field text_field (rows.named row "description"))
          >> on_column meta_place (read_field text_field (rows.named row "meta"))
          >> on_column is_deleted_place (read_field (bool_field rows) (rows.named row "is_deleted"))
          >> on_column created_at_place
              (read_field (date_field dates) (rows.named row "created_at"))
          >> on_column updated_at_place
              (read_field (date_field dates) (rows.named row "updated_at"))
          >> on_column deleted_at_place
              (read_field (date_field dates) (rows.named row "deleted_at")))
        new_roles)
  from_row row (pos offset) =
      if ltb (rows.size row) (offset + 8)
      then ok new_roles
      else constructed (
          (on_column id_place (read_field text_field (rows.at row (offset + 0)))
              >> on_column name_place (read_field text_field (rows.at row (offset + 1)))
              >> on_column description_place (read_field text_field (rows.at row (offset + 2)))
              >> on_column meta_place (read_field text_field (rows.at row (offset + 3)))
              >> on_column is_deleted_place
                  (read_field (bool_field rows) (rows.at row (offset + 4)))
              >> on_column created_at_place
                  (read_field (date_field dates) (rows.at row (offset + 5)))
              >> on_column updated_at_place
                  (read_field (date_field dates) (rows.at row (offset + 6)))
              >> on_column deleted_at_place
                  (read_field (date_field dates) (rows.at row (offset + 7))))
            new_roles)

module _ (json : JsonLib) (dates : DateLib) where
  unfoldable pub from_json : json.Value → Result (Roles dates.Date)
  from_json v = constructed (
      (on_column id_place (read_column json (text_value json) true "id" v)
          >> on_column name_place (read_column json (text_value json) true "name" v)
          >> on_column description_place (read_column json (text_value json) true "description" v)
          >> on_column meta_place (read_column json (text_value json) true "meta" v)
          >> on_column is_deleted_place (read_column json (bool_value json) true "is_deleted" v)
          >> on_column created_at_place
              (read_column json (date_value json dates) true "created_at" v)
          >> on_column updated_at_place
              (read_column json (date_value json dates) true "updated_at" v)
          >> on_column deleted_at_place
              (read_column json (date_value json dates) true "deleted_at" v))
        new_roles)

  unfoldable pub update_by_json : json.Value → Action (Roles dates.Date) (Unit {0})
  update_by_json v =
      on_column id_place (read_column json (text_value json) false "id" v)
      >> on_column name_place (read_column json (text_value json) true "name" v)
      >> on_column description_place (read_column json (text_value json) true "description" v)
      >> on_column meta_place (read_column json (text_value json) true "meta" v)
      >> on_column is_deleted_place (read_column json (bool_value json) true "is_deleted" v)
      >> on_column created_at_place (read_column json (date_value json dates) true "created_at" v)
      >> on_column updated_at_place (read_column json (date_value json dates) true "updated_at" v)
      >> on_column deleted_at_place (read_column json (date_value json dates) true "deleted_at" v)
