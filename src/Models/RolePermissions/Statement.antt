-- ===== src/Models/RolePermissions/Statement.antt =====
-- models/RolePermissions.h, sqlForInserting: the statement for a new row of table role_permissions.
use drogon_api_starter.Prelude.{◌≡◌, String, Bool, true, false, List, [], ◌∷◌}
use drogon_api_starter.Text.{◌++◌}
use drogon_api_starter.Models.Insertion.{
  Statement, column_if, placeholder_if, open_values, close_values,
}
use drogon_api_starter.Models.Keyed.{keyed_text, keyed_statement-eq}
use drogon_api_starter.Models.RolePermissions.{RolePermissions, table_name}

module _ {Date : Type 0} where
  -- The statement with `needSelection`, which stays false.
  unfoldable pub sql_for_inserting : RolePermissions Date → String × Bool
  sql_for_inserting r =
      let start : Statement = record { sql = "insert into " ++ (table_name ++ " ("); number = 0 } in
      let columns = column_if r.updated_at.dirty "updated_at" (
        column_if r.created_at.dirty "created_at"
          (column_if r.role_id.dirty "role_id" (column_if r.user_id.dirty "user_id" (start)))) in
      let opened : Statement = record { sql = open_values columns; number = 1 } in
      let places = placeholder_if r.updated_at.dirty (
        placeholder_if r.created_at.dirty
          (placeholder_if r.role_id.dirty (placeholder_if r.user_id.dirty (opened)))) in
      close_values columns true places.sql

  -- The columns with their flags.
  abbrev pub flags : RolePermissions Date → List (Bool × String)
  flags r =
      (r.user_id.dirty, "user_id")
      ∷ (r.role_id.dirty, "role_id")
      ∷ (r.created_at.dirty, "created_at")
      ∷ (r.updated_at.dirty, "updated_at")
      ∷ []

  -- sqlForInserting of models/RolePermissions.h lists the columns whose flag is on and a numbered
  -- placeholder for each of them, `$1`, `$2` and so on in that order, and never asks for the row
  -- back.
  pub role_permission_sql_for_inserting-eq :
      (r : RolePermissions Date)
      → sql_for_inserting r ≡ (keyed_text "insert into role_permissions (" (flags r), false)
  unfolding sql_for_inserting
  role_permission_sql_for_inserting-eq r =
      keyed_statement-eq "insert into role_permissions (" (flags r)
