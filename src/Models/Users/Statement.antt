-- ===== src/Models/Users/Statement.antt =====
-- models/Users.h, sqlForInserting: the statement for a new row of table users, as prepared with the
-- arguments of outputArgs.
use drogon_api_starter.Prelude.{
  ◌+◌, ◌≡◌, refl, ap, ◌∙◌, String, Bool, true, false, List, [], ◌∷◌, length, if◌then◌else◌,
}
use drogon_api_starter.Text.{◌++◌}
use drogon_api_starter.Models.Placeholders.{placeholders_bound}
use drogon_api_starter.Models.Insertion.{
  Statement, column_if, placeholder_if, open_values, first_placeholder, close_values, numbered,
  statement_text, insert_statement-eq,
}
use drogon_api_starter.Models.Users.{Users, table_name, meta_data, output_args}
use drogon_api_starter.Models.Users.Laws.{columns, user_args-dirty_entries}

module _ {Date : Type 0} where
  unfoldable pub sql_for_inserting : Users Date → String × Bool
  sql_for_inserting r =
      let start : Statement = record {
        sql = ("insert into " ++ (table_name ++ " (")) ++ "id,";
        number = 1;
      } in
      let columns = column_if r.deleted_at.dirty "deleted_at" (
        column_if r.updated_at.dirty "updated_at" (
          column_if r.created_at.dirty "created_at" (
            column_if r.is_deleted.dirty "is_deleted" (
              column_if r.password.dirty "password" (
                column_if r.email.dirty "email" (
                  column_if r.last_name.dirty "last_name"
                    (column_if r.first_name.dirty "first_name" (start)))))))) in
      let places = placeholder_if r.deleted_at.dirty (
        placeholder_if r.updated_at.dirty (
          placeholder_if r.created_at.dirty (
            placeholder_if r.is_deleted.dirty (
              placeholder_if r.password.dirty (
                placeholder_if r.email.dirty (
                  placeholder_if r.last_name.dirty (
                    placeholder_if r.first_name.dirty
                      (first_placeholder r.id.dirty (open_values columns))))))))) in
      close_values columns r.id.dirty places.sql

  -- The columns after the primary key, with their flags.
  abbrev pub others : Users Date → List (Bool × String)
  others r =
      (r.first_name.dirty, "first_name")
      ∷ (r.last_name.dirty, "last_name")
      ∷ (r.email.dirty, "email")
      ∷ (r.password.dirty, "password")
      ∷ (r.is_deleted.dirty, "is_deleted")
      ∷ (r.created_at.dirty, "created_at")
      ∷ (r.updated_at.dirty, "updated_at")
      ∷ (r.deleted_at.dirty, "deleted_at")
      ∷ []

  output_args-numbered :
      (r : Users Date)
      → length (output_args r)
        ≡ (if r.id.dirty then 1 else 0) + length (numbered (if r.id.dirty then 2 else 1) (others r))
  output_args-numbered r =
      let (_, _, bound) = user_args-dirty_entries r in
      ap length bound
      ∙ placeholders_bound meta_data r.id.dirty (columns r) (if r.id.dirty then 2 else 1) (others r)
          refl refl

  -- sqlForInserting of models/Users.h gives `insert into users (id,...) values (...)`: after the
  -- primary key, which is `default` unless it is set, come the names of the columns whose flag is
  -- on, and for each a placeholder, `$1`, `$2` and so on in that order. Only where the key is not
  -- set does it ask for the row back. The insert binds one argument for each numbered placeholder.
  pub user_sql_for_inserting-eq :
      (r : Users Date)
      → (sql_for_inserting r ≡ (
          if r.id.dirty
          then (statement_text "insert into users (" r.id.dirty (others r) ++ ")", false)
          else (
            statement_text "insert into users (" r.id.dirty (others r) ++ ") returning *",
            true,
          )))
        × (length (output_args r)
            ≡ (if r.id.dirty then 1 else 0)
              + length (numbered (if r.id.dirty then 2 else 1) (others r)))
  unfolding sql_for_inserting
  user_sql_for_inserting-eq r =
      (insert_statement-eq "insert into users (" r.id.dirty (others r), output_args-numbered r)
