-- ===== src/Models/UserPermissions/Read.antt =====
-- models/UserPermissions.cc: what the constructor from JSON and updateByJson make of a body, and
-- what the constructor makes of an object that toJson wrote.
use drogon_api_starter.Prelude.{
  ℕ, ◌+◌, ◌≡◌, refl, ap, sym, ◌∙◌, String, Bool, true, false, List, [], ◌∷◌, some, get_elem?, ltb,
  All,
}
use drogon_api_starter.Text.Number.{pos, negsuc}
use drogon_api_starter.Result.{ok}
use drogon_api_starter.Action.{Action}
use drogon_api_starter.Json.{JsonLib, Laws, Objects}
use drogon_api_starter.Models.Dates.{DateLib}
use drogon_api_starter.Models.Fields.{accepted, check_update-accepted}
use drogon_api_starter.Models.Keyed.{check_required-accepted}
use drogon_api_starter.Models.Reading.{
  on_column, ◌>>◌, constructed, read_column, date_value, text_value, RowLib,
}
use drogon_api_starter.Models.Reading.Given.{
  IsRead, All-map, fitting-Reads, IsFitting, IsUpdated-IsFitting, date-Converts, text-Converts,
}
use drogon_api_starter.Models.Reading.Written.{dirtied, IsWrittenOut, written, date-read, text-read}
use drogon_api_starter.Models.UserPermissions.{
  UserPermissions, new_user_permissions, meta_data, insert_columns, to_json,
}
use drogon_api_starter.Models.UserPermissions.Reading.{
  user_id_place, permission_id_place, created_at_place, updated_at_place, from_json, update_by_json,
  from_row,
}
use drogon_api_starter.Models.UserPermissions.Validation.{
  validate_json_for_creation, validate_json_for_update, validate_user_permission-eq,
}

module _ (json : JsonLib) (dates : DateLib) where
  -- Every column of `after` is what reading its member makes of the one of `before`.
  abbrev pub IsReadFrom :
      json.Value → Bool → UserPermissions dates.Date → UserPermissions dates.Date → Type 0
  IsReadFrom v key before after =
      IsRead json (text_value json) true v "user_id" before.user_id after.user_id
      × IsRead json (text_value json) true v "permission_id" before.permission_id
          after.permission_id
      × IsRead json (date_value json dates) true v "created_at" before.created_at after.created_at
      × IsRead json (date_value json dates) true v "updated_at" before.updated_at after.updated_at

  module _ (laws : Laws json) where
    abbrev steps : Bool → json.Value → Action (UserPermissions dates.Date) (Unit {0})
    steps key v =
        on_column user_id_place (read_column json (text_value json) true "user_id" v)
        >> on_column permission_id_place (read_column json (text_value json) true "permission_id" v)
        >> on_column created_at_place (read_column json (date_value json dates) true "created_at" v)
        >> on_column updated_at_place (read_column json (date_value json dates) true "updated_at" v)

    -- The steps of both, on a body whose members the columns take.
    read_fitting :
        (key : Bool) (v : json.Value) (r : UserPermissions dates.Date)
        → All (IsFitting json v) meta_data
        → (after : UserPermissions dates.Date) × (steps key v r ≡ (ok tt, after))
          × IsReadFrom v key r after
    read_fitting key v r (f0, (f1, (f2, (f3, _)))) =
        let (c0, e0, i0) =
          fitting-Reads json (text_value json) true v _ r.user_id (text-Converts json laws _ refl)
            f0 in
        let (c1, e1, i1) =
          fitting-Reads json (text_value json) true v _ r.permission_id
            (text-Converts json laws _ refl) f1 in
        let (c2, e2, i2) =
          fitting-Reads json (date_value json dates) true v _ r.created_at
            (date-Converts json laws _ dates refl) f2 in
        let (c3, e3, i3) =
          fitting-Reads json (date_value json dates) true v _ r.updated_at
            (date-Converts json laws _ dates refl) f3 in
        (
          record { user_id = c0; permission_id = c1; created_at = c2; updated_at = c3 },
          rw (e0, e1, e2, e3) refl,
          (i0, i1, i2, i3),
        )

    -- A body that validateJsonForCreation of models/UserPermissions.cc accepts makes a row without
    -- an exception: each column whose member is there has its flag on and its value, none for a
    -- null or a date that cannot be read, and every other column is as in a new row.
    pub user_permission_from_json-accepted :
        (v : json.Value)
        → validate_json_for_creation json v ≡ ok accepted
        → (after : UserPermissions dates.Date) × (from_json json dates v ≡ ok after)
          × IsReadFrom v true new_user_permissions after
    unfolding from_json
    user_permission_from_json-accepted v h =
        let (created, _) = validate_user_permission-eq json v in
        let fitting = check_required-accepted json meta_data v (sym created ∙ h) in
        let (after, e, read) = read_fitting true v new_user_permissions fitting in
        (after, ap constructed e, read)

    -- A body that validateJsonForUpdate of models/UserPermissions.cc accepts is taken over without
    -- an exception: each column whose member is there gets its flag and the member's value, a null
    -- or a date that cannot be read leaves the value that was there, every other column stays, and
    -- so does the flag of the primary key.
    pub user_permission_update_by_json-accepted :
        (v : json.Value) (r : UserPermissions dates.Date)
        → validate_json_for_update json v ≡ ok accepted
        → (after : UserPermissions dates.Date) × (update_by_json json dates v r ≡ (ok tt, after))
          × IsReadFrom v false r after
    unfolding update_by_json
    user_permission_update_by_json-accepted v r h =
        let (_, updated) = validate_user_permission-eq json v in
        read_fitting false v r (
          All-map (IsUpdated-IsFitting json v) meta_data
            (check_update-accepted json meta_data v (sym updated ∙ h)))

  -- Where toDbStringLocal writes a row's dates in full, what toJson of models/UserPermissions.cc
  -- makes of the row gives the constructor the same row, with every flag on.
  pub user_permission_from_json-to_json :
      (laws : Objects json) (r : UserPermissions dates.Date)
      → IsWrittenOut dates r.created_at
      → IsWrittenOut dates r.updated_at
      → from_json json dates (to_json json dates.to_db_string_local r)
        ≡ ok (record {
          user_id = dirtied r.user_id;
          permission_id = dirtied r.permission_id;
          created_at = dirtied r.created_at;
          updated_at = dirtied r.updated_at;
        })
  unfolding from_json to_json
  user_permission_from_json-to_json laws r d2 d3 =
      let ws : List (String × json.Value) =
        (
          "updated_at",
          written json (λ (d : dates.Date). json.of_string (dates.to_db_string_local d))
              r.updated_at.value,
        )
        ∷ (
          "created_at",
          written json (λ (d : dates.Date). json.of_string (dates.to_db_string_local d))
              r.created_at.value,
        )
        ∷ ("permission_id", written json json.of_string r.permission_id.value)
        ∷ ("user_id", written json json.of_string r.user_id.value)
        ∷ [] in
      rw
        (
          text-read json laws r.user_id "user_id" ws refl,
          text-read json laws r.permission_id "permission_id" ws refl,
          date-read json laws dates r.created_at "created_at" ws d2 refl,
          date-read json laws dates r.updated_at "updated_at" ws d3 refl,
        )
        refl

module _ (dates : DateLib) (rows : RowLib) where
  -- Reading a row of table user_permissions by position is reading it by name, where the columns of
  -- the table stand at the offset in the table's order.
  pub user_permission_from_row-eq :
      (row : rows.Row) (k offset : ℕ)
      → ltb (rows.size row) (offset + 4) ≡ false
      → ((i : ℕ) (name : String)
          → get_elem? insert_columns i ≡ some name
          → rows.named row name ≡ rows.at row (offset + i))
      → from_row dates rows row (pos offset) ≡ from_row dates rows row (negsuc k)
  unfolding from_row
  user_permission_from_row-eq row k offset h same =
      rw
        (
          h,
          same 0 "user_id" refl,
          same 1 "permission_id" refl,
          same 2 "created_at" refl,
          same 3 "updated_at" refl,
        )
        refl
