-- ===== src/Models/Permissions/Laws.antt =====
-- models/Permissions.cc: what an insert and an update bind, column by column.
use mathlib.Core.List.{append-nil, append_assoc}
use drogon_api_starter.Prelude.{◌≡◌, Bool, List, [], ◌∷◌, map}
use drogon_api_starter.Models.Column.{
  Sql, text, truth, date, argument, dirty_entries, name_of, argument_of, map-names, map-arguments,
}
use drogon_api_starter.Models.Permissions.{
  Permissions, meta_data, output_args, update_columns, update_args,
}

module _ {Date : Type 0} where
  -- The columns of a row with their flags and the arguments they stand for.
  abbrev pub columns : Permissions Date → List (Bool × Sql Date)
  columns r =
      (r.id.dirty, argument text r.id)
      ∷ (r.name.dirty, argument text r.name)
      ∷ (r.description.dirty, argument text r.description)
      ∷ (r.meta.dirty, argument text r.meta)
      ∷ (r.is_deleted.dirty, argument truth r.is_deleted)
      ∷ (r.created_at.dirty, argument date r.created_at)
      ∷ (r.updated_at.dirty, argument date r.updated_at)
      ∷ (r.deleted_at.dirty, argument date r.deleted_at)
      ∷ []

  -- An update of table permissions names exactly the columns whose flag is on, in the table's
  -- order, and it and an insert bind their values in that order, null where a column has none: the
  -- i-th argument belongs to the i-th column named.
  pub permission_args-dirty_entries :
      (r : Permissions Date)
      → (update_columns r ≡ map name_of (dirty_entries meta_data (columns r)))
        × (update_args r ≡ map argument_of (dirty_entries meta_data (columns r)))
        × (output_args r ≡ map argument_of (dirty_entries meta_data (columns r)))
  unfolding update_columns update_args output_args
  permission_args-dirty_entries r = (
    rw (map-names meta_data (columns r), append-nil) (simp append_assoc),
    rw (map-arguments meta_data (columns r), append-nil) (simp append_assoc),
    rw (map-arguments meta_data (columns r), append-nil) (simp append_assoc),
  )
