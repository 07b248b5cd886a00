-- ===== src/Models/UserPermissions/Statement.antt =====
-- models/UserPermissions.h, sqlForInserting: the statement for a new row of table user_permissions.
use drogon_api_starter.Prelude.{◌≡◌, String, Bool, true, false, List, [], ◌∷◌}
use drogon_api_starter.Text.{◌++◌}
use drogon_api_starter.Models.Insertion.{
  Statement, column_if, placeholder_if, open_values, close_values,
}
use drogon_api_starter.Models.Keyed.{keyed_text, keyed_statement-eq}
use drogon_api_starter.Models.UserPermissions.{UserPermissions, table_name}

module _ {Date : Type 0} where
  -- The statement with `needSelection`, which stays false.
  unfoldable pub sql_for_inserting : UserPermissions Date → String × Bool
  sql_for_inserting r =
      let start : Statement = record { sql = "insert into " ++ (table_name ++ " ("); number = 0 } in
      let columns = column_if r.updated_at.dirty "updated_at" (
        column_if r.created_at.dirty "created_at" (
          column_if r.permission_id.dirty "permission_id"
            (column_if r.user_id.dirty "user_id" (start)))) in
      let opened : Statement = record { sql = open_values columns; number = 1 } in
      let places = placeholder_if r.updated_at.dirty (
        placeholder_if r.created_at.dirty
          (placeholder_if r.permission_id.dirty (placeholder_if r.user_id.dirty (opened)))) in
      close_values columns true places.sql

  -- The columns with their flags.
  abbrev pub flags : UserPermissions Date → List (Bool × String)
  flags r =
      (r.user_id.dirty, "user_id")
      ∷ (r.permission_id.dirty, "permission_id")
      ∷ (r.created_at.dirty, "created_at")
      ∷ (r.updated_at.dirty, "updated_at")
      ∷ []

  -- sqlForInserting of models/UserPermissions.h lists the columns whose flag is on and a numbered
  -- placeholder for each of them, `$1`, `$2` and so on in that order, and never asks for the row
  -- back.
  pub user_permission_sql_for_inserting-eq :
      (r : UserPermissions Date)
      → sql_for_inserting r ≡ (keyed_text "insert into user_permissions (" (flags r), false)
  unfolding sql_for_inserting
  user_permission_sql_for_inserting-eq r =
      keyed_statement-eq "insert into user_permissions (" (flags r)
