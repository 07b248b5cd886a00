-- ===== src/Models/Roles.antt =====
-- models/Roles.h and .cc: the row of table roles. trantor::Date is a type parameter, with its
-- default value and its `toDbStringLocal`.
use drogon_api_starter.Prelude.{ℕ, String, Bool, true, false, List, [], ◌∷◌, ◌++◌}
use drogon_api_starter.Json.{JsonLib}
use drogon_api_starter.Models.Column.{
  Column, unset, set_value, set_null, value_or, Sql, text, truth, date, bind, write_column,
  MetaData, name_if,
}
pub mod Validation
pub mod Laws
pub mod Statement
pub mod Reading
pub mod Masks
pub mod Read

pub record Roles (Date : Type 0) : Type 0 where
  pub id : Column String
  pub name : Column String
  pub description : Column String
  pub meta : Column String
  pub is_deleted : Column Bool
  pub created_at : Column Date
  pub updated_at : Column Date
  pub deleted_at : Column Date

-- `primaryKeyName` and `tableName`
abbrev pub primary_key_name : String
primary_key_name = "id"

abbrev pub table_name : String
table_name = "roles"

-- A row of `metaData_`; no column of this table is filled in by itself.
abbrev row : String → String → String → ℕ → Bool → Bool → MetaData
row name type database_type len primary not_null = record {
  col_name = name;
  col_type = type;
  col_database_type = database_type;
  col_length = len;
  is_auto_val = false;
  is_primary_key = primary;
  not_null = not_null;
}

abbrev pub meta_data : List MetaData
meta_data =
    row "id" "std::string" "uuid" 0 true true
    ∷ row "name" "std::string" "character varying" 255 false true
    ∷ row "description" "std::string" "character varying" 255 false false
    ∷ row "meta" "std::string" "json" 0 false false
    ∷ row "is_deleted" "bool" "boolean" 1 false false
    ∷ row "created_at" "::trantor::Date" "timestamp with time zone" 0 false true
    ∷ row "updated_at" "::trantor::Date" "timestamp with time zone" 0 false false
    ∷ row "deleted_at" "::trantor::Date" "timestamp with time zone" 0 false false
    ∷ []

abbrev pub insert_columns : List String
insert_columns =
    "id" ∷ "name" ∷ "description" ∷ "meta" ∷ "is_deleted" ∷ "created_at" ∷ "updated_at"
    ∷ "deleted_at" ∷ []

module _ {Date : Type 0} where
  abbrev pub new_roles : Roles Date
  new_roles = record {
    id = unset;
    name = unset;
    description = unset;
    meta = unset;
    is_deleted = unset;
    created_at = unset;
    updated_at = unset;
    deleted_at = unset;
  }

  abbrev pub get_value_of_id : Roles Date → String
  get_value_of_id r = value_or r.id ""

  abbrev pub get_value_of_name : Roles Date → String
  get_value_of_name r = value_or r.name ""

  abbrev pub get_value_of_description : Roles Date → String
  get_value_of_description r = value_or r.description ""

  abbrev pub get_value_of_created_at : Date → Roles Date → Date
  get_value_of_created_at default r = value_or r.created_at default

  abbrev pub get_value_of_updated_at : Date → Roles Date → Date
  get_value_of_updated_at default r = value_or r.updated_at default

  abbrev pub set_id : String → Roles Date → Roles Date
  set_id v r = record r { id = set_value v }

  abbrev pub set_name : String → Roles Date → Roles Date
  set_name v r = record r { name = set_value v }

  abbrev pub set_description : String → Roles Date → Roles Date
  set_description v r = record r { description = set_value v }

  abbrev pub set_description_to_null : Roles Date → Roles Date
  set_description_to_null r = record r { description = set_null }

  abbrev pub set_meta : String → Roles Date → Roles Date
  set_meta v r = record r { meta = set_value v }

  abbrev pub set_meta_to_null : Roles Date → Roles Date
  set_meta_to_null r = record r { meta = set_null }

  abbrev pub set_is_deleted : Bool → Roles Date → Roles Date
  set_is_deleted v r = record r { is_deleted = set_value v }

  abbrev pub set_is_deleted_to_null : Roles Date → Roles Date
  set_is_deleted_to_null r = record r { is_deleted = set_null }

  abbrev pub set_created_at : Date → Roles Date → Roles Date
  set_created_at v r = record r { created_at = set_value v }

  abbrev pub set_updated_at : Date → Roles Date → Roles Date
  set_updated_at v r = record r { updated_at = set_value v }

  abbrev pub set_updated_at_to_null : Roles Date → Roles Date
  set_updated_at_to_null r = record r { updated_at = set_null }

  abbrev pub set_deleted_at : Date → Roles Date → Roles Date
  set_deleted_at v r = record r { deleted_at = set_value v }

  abbrev pub set_deleted_at_to_null : Roles Date → Roles Date
  set_deleted_at_to_null r = record r { deleted_at = set_null }

  -- outputArgs, for an insert
  unfoldable pub output_args : Roles Date → List (Sql Date)
  output_args r =
      bind text r.id
      ++ bind text r.name
      ++ bind text r.description
      ++ bind text r.meta
      ++ bind truth r.is_deleted
      ++ bind date r.created_at
      ++ bind date r.updated_at
      ++ bind date r.deleted_at

  -- updateArgs, for an update
  unfoldable pub update_args : Roles Date → List (Sql Date)
  update_args r =
      bind text r.id
      ++ bind text r.name
      ++ bind text r.description
      ++ bind text r.meta
      ++ bind truth r.is_deleted
      ++ bind date r.created_at
      ++ bind date r.updated_at
      ++ bind date r.deleted_at

  unfoldable pub update_columns : Roles Date → List String
  update_columns r =
      name_if meta_data r.id.dirty 0
      ++ name_if meta_data r.name.dirty 1
      ++ name_if meta_data r.description.dirty 2
      ++ name_if meta_data r.meta.dirty 3
      ++ name_if meta_data r.is_deleted.dirty 4
      ++ name_if meta_data r.created_at.dirty 5
      ++ name_if meta_data r.updated_at.dirty 6
      ++ name_if meta_data r.deleted_at.dirty 7

  unfoldable pub to_json : (json : JsonLib) → (Date → String) → Roles Date → json.Value
  to_json json to_db_string_local r =
      let of_date = λ (d : Date). json.of_string (to_db_string_local d) in
      write_column json "deleted_at" of_date r.deleted_at (
        write_column json "updated_at" of_date r.updated_at (
          write_column json "created_at" of_date r.created_at (
            write_column json "is_deleted" json.of_bool r.is_deleted (
              write_column json "meta" json.of_string r.meta (
                write_column json "description" json.of_string r.description (
                  write_column json "name" json.of_string r.name
                    (write_column json "id" json.of_string r.id json.null)))))))
