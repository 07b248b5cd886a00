-- ===== src/Models/RolePermissions/Laws.antt =====
-- models/RolePermissions.cc: what an insert and an update bind, column by column.
use mathlib.Core.List.{append-nil, append_assoc}
use drogon_api_starter.Prelude.{◌≡◌, Bool, List, [], ◌∷◌, map}
use drogon_api_starter.Models.Column.{
  Sql, text, date, argument, dirty_entries, name_of, argument_of, map-names, map-arguments,
}
use drogon_api_starter.Models.RolePermissions.{
  RolePermissions, meta_data, output_args, update_columns, update_args,
}

module _ {Date : Type 0} where
  -- The columns of a row with their flags and the arguments they stand for.
  abbrev pub columns : RolePermissions Date → List (Bool × Sql Date)
  columns r =
      (r.user_id.dirty, argument text r.user_id)
      ∷ (r.role_id.dirty, argument text r.role_id)
      ∷ (r.created_at.dirty, argument date r.created_at)
      ∷ (r.updated_at.dirty, argument date r.updated_at)
      ∷ []

  -- An update of table role_permissions names exactly the columns whose flag is on, in the table's
  -- order, and it and an insert bind their values in that order, null where a column has none.
  pub role_permission_args-dirty_entries :
      (r : RolePermissions Date)
      → (update_columns r ≡ map name_of (dirty_entries meta_data (columns r)))
        × (update_args r ≡ map argument_of (dirty_entries meta_data (columns r)))
        × (output_args r ≡ map argument_of (dirty_entries meta_data (columns r)))
  unfolding update_columns update_args output_args
  role_permission_args-dirty_entries r = (
    rw (map-names meta_data (columns r), append-nil) (simp append_assoc),
    rw (map-arguments meta_data (columns r), append-nil) (simp append_assoc),
    rw (map-arguments meta_data (columns r), append-nil) (simp append_assoc),
  )
