-- ===== src/Models/Roles/Read.antt =====
-- models/Roles.cc: what the constructor from JSON and updateByJson make of a body, and what the
-- constructor makes of an object that toJson wrote.
use drogon_api_starter.Prelude.{
  ℕ, ◌+◌, ◌≡◌, refl, ap, sym, ◌∙◌, String, Bool, true, false, List, [], ◌∷◌, some, get_elem?, ltb,
  All,
}
use drogon_api_starter.Text.Number.{pos, negsuc}
use drogon_api_starter.Result.{ok}
use drogon_api_starter.Action.{Action}
use drogon_api_starter.Json.{JsonLib, Laws, Objects}
use drogon_api_starter.Models.Dates.{DateLib}
use drogon_api_starter.Models.Fields.{accepted, check_creation-accepted, check_update-accepted}
use drogon_api_starter.Models.Reading.{
  on_column, ◌>>◌, constructed, read_column, bool_value, date_value, text_value, RowLib,
}
use drogon_api_starter.Models.Reading.Given.{
  IsRead, All-map, fitting-Reads, IsFitting, IsGiven-IsFitting, IsUpdated-IsFitting, bool-Converts,
  date-Converts, text-Converts,
}
use drogon_api_starter.Models.Reading.Written.{
  dirtied, IsWrittenOut, written, bool-read, date-read, text-read,
}
use drogon_api_starter.Models.Roles.{Roles, new_roles, meta_data, insert_columns, to_json}
use drogon_api_starter.Models.Roles.Reading.{
  id_place, name_place, description_place, meta_place, is_deleted_place, created_at_place,
  updated_at_place, deleted_at_place, from_json, update_by_json, from_row,
}
use drogon_api_starter.Models.Roles.Validation.{
  validate_json_for_creation, validate_json_for_update, validate_role-eq,
}

module _ (json : JsonLib) (dates : DateLib) where
  -- Every column of `after` is what reading its member makes of the one of `before`.
  abbrev pub IsReadFrom : json.Value → Bool → Roles dates.Date → Roles dates.Date → Type 0
  IsReadFrom v key before after =
      IsRead json (text_value json) key v "id" before.id after.id
      × IsRead json (text_value json) true v "name" before.name after.name
      × IsRead json (text_value json) true v "description" before.description after.description
      × IsRead json (text_value json) true v "meta" before.meta after.meta
      × IsRead json (bool_value json) true v "is_deleted" before.is_deleted after.is_deleted
      × IsRead json (date_value json dates) true v "created_at" before.created_at after.created_at
      × IsRead json (date_value json dates) true v "updated_at" before.updated_at after.updated_at
      × IsRead json (date_value json dates) true v "deleted_at" before.deleted_at after.deleted_at

  module _ (laws : Laws json) where
    abbrev steps : Bool → json.Value → Action (Roles dates.Date) (Unit {0})
    steps key v =
        on_column id_place (read_column json (text_value json) key "id" v)
        >> on_column name_place (read_column json (text_value json) true "name" v)
        >> on_column description_place (read_column json (text_value json) true "description" v)
        >> on_column meta_place (read_column json (text_value json) true "meta" v)
        >> on_column is_deleted_place (read_column json (bool_value json) true "is_deleted" v)
        >> on_column created_at_place (read_column json (date_value json dates) true "created_at" v)
        >> on_column updated_at_place (read_column json (date_value json dates) true "updated_at" v)
        >> on_column deleted_at_place (read_column json (date_value json dates) true "deleted_at" v)

    -- The steps of both, on a body whose members the columns take.
    read_fitting :
        (key : Bool) (v : json.Value) (r : Roles dates.Date)
        → All (IsFitting json v) meta_data
        → (after : Roles dates.Date) × (steps key v r ≡ (ok tt, after)) × IsReadFrom v key r after
    read_fitting key v r (f0, (f1, (f2, (f3, (f4, (f5, (f6, (f7, _)))))))) =
        let (c0, e0, i0) =
          fitting-Reads json (text_value json) key v _ r.id (text-Converts json laws _ refl) f0 in
        let (c1, e1, i1) =
          fitting-Reads json (text_value json) true v _ r.name (text-Converts json laws _ refl)
            f1 in
        let (c2, e2, i2) =
          fitting-Reads json (text_value json) true v _ r.description
            (text-Converts json laws _ refl) f2 in
        let (c3, e3, i3) =
          fitting-Reads json (text_value json) true v _ r.meta (text-Converts json laws _ refl)
            f3 in
        let (c4, e4, i4) =
          fitting-Reads json (bool_value json) true v _ r.is_deleted
            (bool-Converts json laws _ refl) f4 in
        let (c5, e5, i5) =
          fitting-Reads json (date_value json dates) true v _ r.created_at
            (date-Converts json laws _ dates refl) f5 in
        let (c6, e6, i6) =
          fitting-Reads json (date_value json dates) true v _ r.updated_at
            (date-Converts json laws _ dates refl) f6 in
        let (c7, e7, i7) =
          fitting-Reads json (date_value json dates) true v _ r.deleted_at
            (date-Converts json laws _ dates refl) f7 in
        (
          record {
            id = c0;
            name = c1;
            description = c2;
            meta = c3;
            is_deleted = c4;
            created_at = c5;
            updated_at = c6;
            deleted_at = c7;
          },
          rw (e0, e1, e2, e3, e4, e5, e6, e7) refl,
          (i0, i1, i2, i3, i4, i5, i6, i7),
        )

    -- A body that validateJsonForCreation of models/Roles.cc accepts makes a row without an
    -- exception: each column whose member is there has its flag on and its value, none for a null
    -- or a date that cannot be read, and every other column is as in a new row.
    pub role_from_json-accepted :
        (v : json.Value)
        → validate_json_for_creation json v ≡ ok accepted
        → (after : Roles dates.Date) × (from_json json dates v ≡ ok after)
          × IsReadFrom v true new_roles after
    unfolding from_json
    role_from_json-accepted v h =
        let (created, _) = validate_role-eq json v in
        let fitting =
          All-map (IsGiven-IsFitting json v) meta_data
            (check_creation-accepted json meta_data v (sym created ∙ h)) in
        let (after, e, read) = read_fitting true v new_roles fitting in
        (after, ap constructed e, read)

    -- A body that validateJsonForUpdate of models/Roles.cc accepts is taken over without an
    -- exception: each column whose member is there gets its flag and the member's value, a null or
    -- a date that cannot be read leaves the value that was there, every other column stays, and so
    -- does the flag of the primary key.
    pub role_update_by_json-accepted :
        (v : json.Value) (r : Roles dates.Date)
        → validate_json_for_update json v ≡ ok accepted
        → (after : Roles dates.Date) × (update_by_json json dates v r ≡ (ok tt, after))
          × IsReadFrom v false r after
    unfolding update_by_json
    role_update_by_json-accepted v r h =
        let (_, updated) = validate_role-eq json v in
        read_fitting false v r (
          All-map (IsUpdated-IsFitting json v) meta_data
            (check_update-accepted json meta_data v (sym updated ∙ h)))

  -- Where toDbStringLocal writes a row's dates in full, what toJson of models/Roles.cc makes of the
  -- row gives the constructor the same row, with every flag on.
  pub role_from_json-to_json :
      (laws : Objects json) (r : Roles dates.Date)
      → IsWrittenOut dates r.created_at
      → IsWrittenOut dates r.updated_at
      → IsWrittenOut dates r.deleted_at
      → from_json json dates (to_json json dates.to_db_string_local r)
        ≡ ok (record {
          id = dirtied r.id;
          name = dirtied r.name;
          description = dirtied r.description;
          meta = dirtied r.meta;
          is_deleted = dirtied r.is_deleted;
          created_at = dirtied r.created_at;
          updated_at = dirtied r.updated_at;
          deleted_at = dirtied r.deleted_at;
        })
  unfolding from_json to_json
  role_from_json-to_json laws r d5 d6 d7 =
      let ws : List (String × json.Value) =
        (
          "deleted_at",
          written json (λ (d : dates.Date). json.of_string (dates.to_db_string_local d))
              r.deleted_at.value,
        )
        ∷ (
          "updated_at",
          written json (λ (d : dates.Date). json.of_string (dates.to_db_string_local d))
              r.updated_at.value,
        )
        ∷ (
          "created_at",
          written json (λ (d : dates.Date). json.of_string (dates.to_db_string_local d))
              r.created_at.value,
        )
        ∷ ("is_deleted", written json json.of_bool r.is_deleted.value)
        ∷ ("meta", written json json.of_string r.meta.value)
        ∷ ("description", written json json.of_string r.description.value)
        ∷ ("name", written json json.of_string r.name.value)
        ∷ ("id", written json json.of_string r.id.value)
        ∷ [] in
      rw
        (
          text-read json laws r.id "id" ws refl,
          text-read json laws r.name "name" ws refl,
          text-read json laws r.description "description" ws refl,
          text-read json laws r.meta "meta" ws refl,
          bool-read json laws r.is_deleted "is_deleted" ws refl,
          date-read json laws dates r.created_at "created_at" ws d5 refl,
          date-read json laws dates r.updated_at "updated_at" ws d6 refl,
          date-read json laws dates r.deleted_at "deleted_at" ws d7 refl,
        )
        refl

module _ (dates : DateLib) (rows : RowLib) where
  -- Reading a row of table roles by position is reading it by name, where the columns of the table
  -- stand at the offset in the table's order.
  pub role_from_row-eq :
      (row : rows.Row) (k offset : ℕ)
      → ltb (rows.size row) (offset + 8) ≡ false
      → ((i : ℕ) (name : String)
          → get_elem? insert_columns i ≡ some name
          → rows.named row name ≡ rows.at row (offset + i))
      → from_row dates rows row (pos offset) ≡ from_row dates rows row (negsuc k)
  unfolding from_row
  role_from_row-eq row k offset h same =
      rw
        (
          h,
          same 0 "id" refl,
          same 1 "name" refl,
          same 2 "description" refl,
          same 3 "meta" refl,
          same 4 "is_deleted" refl,
          same 5 "created_at" refl,
          same 6 "updated_at" refl,
          same 7 "deleted_at" refl,
        )
        refl
