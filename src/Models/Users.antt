-- ===== src/Models/Users.antt =====
-- models/Users.h and .cc: the row of table users. trantor::Date is a type parameter, with its
-- default value and its `toDbStringLocal`.
use drogon_api_starter.Prelude.{ℕ, String, Bool, true, false, List, [], ◌∷◌, ◌++◌}
use drogon_api_starter.Json.{JsonLib}
use drogon_api_starter.Models.Column.{
  Column, unset, set_value, set_null, value_or, Sql, text, truth, date, bind, write_column,
  MetaData, name_if,
}
pub mod Validation
pub mod Laws
pub mod Statement
pub mod Reading
pub mod Masks
pub mod Read

pub record Users (Date : Type 0) : Type 0 where
  pub id : Column String
  pub first_name : Column String
  pub last_name : Column String
  pub email : Column String
  pub password : Column String
  pub is_deleted : Column Bool
  pub created_at : Column Date
  pub updated_at : Column Date
  pub deleted_at : Column Date

-- `primaryKeyName` and `tableName`
abbrev pub primary_key_name : String
primary_key_name = "id"

abbrev pub table_name : String
table_name = "users"

-- A row of `metaData_`; no column of this table is filled in by itself.
abbrev row : String → String → String → ℕ → Bool → Bool → MetaData
row name type database_type len primary not_null = record {
  col_name = name;
  col_type = type;
  col_database_type = database_type;
  col_length = len;
  is_auto_val = false;
  is_primary_key = primary;
  not_null = not_null;
}

abbrev pub meta_data : List MetaData
meta_data =
    row "id" "std::string" "uuid" 0 true true
    ∷ row "first_name" "std::string" "character varying" 255 false true
    ∷ row "last_name" "std::string" "character varying" 255 false true
    ∷ row "email" "std::string" "character varying" 255 false true
    ∷ row "password" "std::string" "character varying" 255 false true
    ∷ row "is_deleted" "bool" "boolean" 1 false false
    ∷ row "created_at" "::trantor::Date" "timestamp with time zone" 0 false true
    ∷ row "updated_at" "::trantor::Date" "timestamp with time zone" 0 false false
    ∷ row "deleted_at" "::trantor::Date" "timestamp with time zone" 0 false false
    ∷ []

abbrev pub insert_columns : List String
insert_columns =
    "id" ∷ "first_name" ∷ "last_name" ∷ "email" ∷ "password" ∷ "is_deleted" ∷ "created_at"
    ∷ "updated_at" ∷ "deleted_at" ∷ []

module _ {Date : Type 0} where
  abbrev pub new_users : Users Date
  new_users = record {
    id = unset;
    first_name = unset;
    last_name = unset;
    email = unset;
    password = unset;
    is_deleted = unset;
    created_at = unset;
    updated_at = unset;
    deleted_at = unset;
  }

  abbrev pub get_value_of_id : Users Date → String
  get_value_of_id r = value_or r.id ""

  abbrev pub get_value_of_first_name : Users Date → String
  get_value_of_first_name r = value_or r.first_name ""

  abbrev pub get_value_of_last_name : Users Date → String
  get_value_of_last_name r = value_or r.last_name ""

  abbrev pub get_value_of_email : Users Date → String
  get_value_of_email r = value_or r.email ""

  abbrev pub get_value_of_password : Users Date → String
  get_value_of_password r = value_or r.password ""

  abbrev pub get_value_of_created_at : Date → Users Date → Date
  get_value_of_created_at default r = value_or r.created_at default

  abbrev pub get_value_of_updated_at : Date → Users Date → Date
  get_value_of_updated_at default r = value_or r.updated_at default

  abbrev pub set_id : String → Users Date → Users Date
  set_id v r = record r { id = set_value v }

  abbrev pub set_first_name : String → Users Date → Users Date
  set_first_name v r = record r { first_name = set_value v }

  abbrev pub set_last_name : String → Users Date → Users Date
  set_last_name v r = record r { last_name = set_value v }

  abbrev pub set_email : String → Users Date → Users Date
  set_email v r = record r { email = set_value v }

  abbrev pub set_password : String → Users Date → Users Date
  set_password v r = record r { password = set_value v }

  abbrev pub set_is_deleted : Bool → Users Date → Users Date
  set_is_deleted v r = record r { is_deleted = set_value v }

  abbrev pub set_is_deleted_to_null : Users Date → Users Date
  set_is_deleted_to_null r = record r { is_deleted = set_null }

  abbrev pub set_created_at : Date → Users Date → Users Date
  set_created_at v r = record r { created_at = set_value v }

  abbrev pub set_updated_at : Date → Users Date → Users Date
  set_updated_at v r = record r { updated_at = set_value v }

  abbrev pub set_updated_at_to_null : Users Date → Users Date
  set_updated_at_to_null r = record r { updated_at = set_null }

  abbrev pub set_deleted_at : Date → Users Date → Users Date
  set_deleted_at v r = record r { deleted_at = set_value v }

  abbrev pub set_deleted_at_to_null : Users Date → Users Date
  set_deleted_at_to_null r = record r { deleted_at = set_null }

  -- outputArgs, for an insert
  unfoldable pub output_args : Users Date → List (Sql Date)
  output_args r =
      bind text r.id
      ++ bind text r.first_name
      ++ bind text r.last_name
      ++ bind text r.email
      ++ bind text r.password
      ++ bind truth r.is_deleted
      ++ bind date r.created_at
      ++ bind date r.updated_at
      ++ bind date r.deleted_at

  -- updateArgs, for an update
  unfoldable pub update_args : Users Date → List (Sql Date)
  update_args r =
      bind text r.id
      ++ bind text r.first_name
      ++ bind text r.last_name
      ++ bind text r.email
      ++ bind text r.password
      ++ bind truth r.is_deleted
      ++ bind date r.created_at
      ++ bind date r.updated_at
      ++ bind date r.deleted_at

  unfoldable pub update_columns : Users Date → List String
  update_columns r =
      name_if meta_data r.id.dirty 0
      ++ name_if meta_data r.first_name.dirty 1
      ++ name_if meta_data r.last_name.dirty 2
      ++ name_if meta_data r.email.dirty 3
      ++ name_if meta_data r.password.dirty 4
      ++ name_if meta_data r.is_deleted.dirty 5
      ++ name_if meta_data r.created_at.dirty 6
      ++ name_if meta_data r.updated_at.dirty 7
      ++ name_if meta_data r.deleted_at.dirty 8

  unfoldable pub to_json : (json : JsonLib) → (Date → String) → Users Date → json.Value
  to_json json to_db_string_local r =
      let of_date = λ (d : Date). json.of_string (to_db_string_local d) in
      write_column json "deleted_at" of_date r.deleted_at (
        write_column json "updated_at" of_date r.updated_at (
          write_column json "created_at" of_date r.created_at (
            write_column json "is_deleted" json.of_bool r.is_deleted (
              write_column json "password" json.of_string r.password (
                write_column json "email" json.of_string r.email (
                  write_column json "last_name" json.of_string r.last_name (
                    write_column json "first_name" json.of_string r.first_name
                      (write_column json "id" json.of_string r.id json.null))))))))
