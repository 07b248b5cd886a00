-- ===== src/Models/UserPermissions.antt =====
-- models/UserPermissions.h and .cc: the row of table user_permissions. trantor::Date is a type
-- parameter, with its `toDbStringLocal`.
use drogon_api_starter.Prelude.{ℕ, String, Bool, true, false, List, [], ◌∷◌, ◌++◌}
use drogon_api_starter.Json.{JsonLib}
use drogon_api_starter.Models.Column.{
  Column, unset, set_value, set_null, value_or, Sql, text, date, bind, write_column, MetaData,
  name_if,
}
pub mod Validation
pub mod Laws
pub mod Statement
pub mod Reading
pub mod Masks
pub mod Read

pub record UserPermissions (Date : Type 0) : Type 0 where
  pub user_id : Column String
  pub permission_id : Column String
  pub created_at : Column Date
  pub updated_at : Column Date

-- `primaryKeyName` and `tableName`
abbrev pub primary_key_name : String
primary_key_name = ""

abbrev pub table_name : String
table_name = "user_permissions"

-- A row of `metaData_`; no column of this table is filled in by itself.
abbrev row : String → String → String → ℕ → Bool → Bool → MetaData
row name type database_type len primary not_null = record {
  col_name = name;
  col_type = type;
  col_database_type = database_type;
  col_length = len;
  is_auto_val = false;
  is_primary_key = primary;
  not_null = not_null;
}

abbrev pub meta_data : List MetaData
meta_data =
    row "user_id" "std::string" "uuid" 0 false false
    ∷ row "permission_id" "std::string" "uuid" 0 false false
    ∷ row "created_at" "::trantor::Date" "timestamp with time zone" 0 false true
    ∷ row "updated_at" "::trantor::Date" "timestamp with time zone" 0 false false
    ∷ []

abbrev pub insert_columns : List String
insert_columns = "user_id" ∷ "permission_id" ∷ "created_at" ∷ "updated_at" ∷ []

module _ {Date : Type 0} where
  abbrev pub new_user_permissions : UserPermissions Date
  new_user_permissions = record {
    user_id = unset;
    permission_id = unset;
    created_at = unset;
    updated_at = unset;
  }

  abbrev pub get_value_of_user_id : UserPermissions Date → String
  get_value_of_user_id r = value_or r.user_id ""

  abbrev pub get_value_of_permission_id : UserPermissions Date → String
  get_value_of_permission_id r = value_or r.permission_id ""

  abbrev pub get_value_of_created_at : Date → UserPermissions Date → Date
  get_value_of_created_at default r = value_or r.created_at default

  abbrev pub get_value_of_updated_at : Date → UserPermissions Date → Date
  get_value_of_updated_at default r = value_or r.updated_at default

  abbrev pub set_user_id : String → UserPermissions Date → UserPermissions Date
  set_user_id v r = record r { user_id = set_value v }

  abbrev pub set_user_id_to_null : UserPermissions Date → UserPermissions Date
  set_user_id_to_null r = record r { user_id = set_null }

  abbrev pub set_permission_id : String → UserPermissions Date → UserPermissions Date
  set_permission_id v r = record r { permission_id = set_value v }

  abbrev pub set_permission_id_to_null : UserPermissions Date → UserPermissions Date
  set_permission_id_to_null r = record r { permission_id = set_null }

  abbrev pub set_created_at : Date → UserPermissions Date → UserPermissions Date
  set_created_at v r = record r { created_at = set_value v }

  abbrev pub set_updated_at : Date → UserPermissions Date → UserPermissions Date
  set_updated_at v r = record r { updated_at = set_value v }

  abbrev pub set_updated_at_to_null : UserPermissions Date → UserPermissions Date
  set_updated_at_to_null r = record r { updated_at = set_null }

  -- outputArgs, for an insert
  unfoldable pub output_args : UserPermissions Date → List (Sql Date)
  output_args r =
      bind text r.user_id
      ++ bind text r.permission_id
      ++ bind date r.created_at
      ++ bind date r.updated_at

  -- updateArgs, for an update
  unfoldable pub update_args : UserPermissions Date → List (Sql Date)
  update_args r =
      bind text r.user_id
      ++ bind text r.permission_id
      ++ bind date r.created_at
      ++ bind date r.updated_at

  unfoldable pub update_columns : UserPermissions Date → List String
  update_columns r =
      name_if meta_data r.user_id.dirty 0
      ++ name_if meta_data r.permission_id.dirty 1
      ++ name_if meta_data r.created_at.dirty 2
      ++ name_if meta_data r.updated_at.dirty 3

  unfoldable pub to_json : (json : JsonLib) → (Date → String) → UserPermissions Date → json.Value
  to_json json to_db_string_local r =
      let of_date = λ (d : Date). json.of_string (to_db_string_local d) in
      write_column json "updated_at" of_date r.updated_at (
        write_column json "created_at" of_date r.created_at (
          write_column json "permission_id" json.of_string r.permission_id
            (write_column json "user_id" json.of_string r.user_id json.null)))
