-- ===== src/Models/Permissions/Masks.antt =====
-- models/Permissions.cc: the masqueraded variants, which take the columns under the names of a
-- vector.
use drogon_api_starter.Prelude.{
  ℕ, String, true, false, ◌≡◌, refl, List, length, ◌==◌, if◌then◌else◌,
}
use drogon_api_starter.Text.{is_empty}
use drogon_api_starter.Result.{Result, ok}
use drogon_api_starter.Action.{Action}
use drogon_api_starter.Json.{JsonLib}
use drogon_api_starter.Models.Column.{write_masked}
use drogon_api_starter.Models.Dates.{DateLib}
use drogon_api_starter.Models.Fields.{Check, accepted, refused, cannot_be_null, and_then}
use drogon_api_starter.Models.Reading.{
  on_column, ◌>>◌, constructed, mask, read_masked, catch_logic_error, bool_value, date_value,
  text_value,
}
use drogon_api_starter.Models.Permissions.{Permissions, new_permissions, insert_columns, to_json}
use drogon_api_starter.Models.Permissions.Reading.{
  id_place, name_place, description_place, meta_place, is_deleted_place, created_at_place,
  updated_at_place, deleted_at_place, from_json, update_by_json,
}
use drogon_api_starter.Models.Permissions.Validation.{
  member, validate_json_for_creation, validate_json_for_update,
}

module _ (json : JsonLib) (dates : DateLib) where
  unfoldable pub from_masqueraded_json : List String → json.Value → Result (Permissions dates.Date)
  from_masqueraded_json names v =
      if length names == 8
      then constructed (
          (on_column id_place (read_masked json (text_value json) true (mask names 0) v)
              >> on_column name_place (read_masked json (text_value json) true (mask names 1) v)
              >> on_column description_place
                  (read_masked json (text_value json) true (mask names 2) v)
              >> on_column meta_place (read_masked json (text_value json) true (mask names 3) v)
              >> on_column is_deleted_place
                  (read_masked json (bool_value json) true (mask names 4) v)
              >> on_column created_at_place
                  (read_masked json (date_value json dates) true (mask names 5) v)
              >> on_column updated_at_place
                  (read_masked json (date_value json dates) true (mask names 6) v)
              >> on_column deleted_at_place
                  (read_masked json (date_value json dates) true (mask names 7) v))
            new_permissions)
      else ok new_permissions

  unfoldable pub update_by_masqueraded_json :
      List String → json.Value → Action (Permissions dates.Date) (Unit {0})
  update_by_masqueraded_json names v =
      if length names == 8
      then (on_column id_place (read_masked json (text_value json) false (mask names 0) v)
          >> on_column name_place (read_masked json (text_value json) true (mask names 1) v)
          >> on_column description_place (read_masked json (text_value json) true (mask names 2) v)
          >> on_column meta_place (read_masked json (text_value json) true (mask names 3) v)
          >> on_column is_deleted_place (read_masked json (bool_value json) true (mask names 4) v)
          >> on_column created_at_place
              (read_masked json (date_value json dates) true (mask names 5) v)
          >> on_column updated_at_place
              (read_masked json (date_value json dates) true (mask names 6) v)
          >> on_column deleted_at_place
              (read_masked json (date_value json dates) true (mask names 7) v))
      else (λ r. (ok tt, r))

module _ (json : JsonLib) {Date : Type 0} (to_db_string_local : Date → String) where
  unfoldable pub to_masqueraded_json : List String → Permissions Date → json.Value
  to_masqueraded_json names r =
      let of_date = λ (d : Date). json.of_string (to_db_string_local d) in
      if length names == 8
      then write_masked json (mask names 7) of_date r.deleted_at (
          write_masked json (mask names 6) of_date r.updated_at (
            write_masked json (mask names 5) of_date r.created_at (
              write_masked json (mask names 4) json.of_bool r.is_deleted (
                write_masked json (mask names 3) json.of_string r.meta (
                  write_masked json (mask names 2) json.of_string r.description (
                    write_masked json (mask names 1) json.of_string r.name
                      (write_masked json (mask names 0) json.of_string r.id json.null)))))))
      else to_json json to_db_string_local r

module _ (json : JsonLib) where
  -- `if(!name.empty()) { if(pJson.isMember(name)) { ... } else { ... } }`
  abbrev created : ℕ → String → json.Value → Result Check → Result Check
  created i name v missing =
      if is_empty name then ok accepted else member json i true name v missing

  -- `if(!name.empty() && pJson.isMember(name)) { ... } else { ... }`
  abbrev changed : ℕ → String → json.Value → Result Check → Result Check
  changed i name v missing = if is_empty name then missing else member json i false name v missing

  unfoldable pub validate_masqueraded_json_for_creation : List String → json.Value → Result Check
  validate_masqueraded_json_for_creation names v =
      if length names == 8
      then catch_logic_error (
          and_then (created 0 (mask names 0) v (ok accepted)) (
            and_then (created 1 (mask names 1) v (ok (refused (cannot_be_null (mask names 1))))) (
              and_then (created 2 (mask names 2) v (ok accepted)) (
                and_then (created 3 (mask names 3) v (ok accepted)) (
                  and_then (created 4 (mask names 4) v (ok accepted)) (
                    and_then
                      (created 5 (mask names 5) v (ok (refused (cannot_be_null (mask names 5)))))
                      (and_then (created 6 (mask names 6) v (ok accepted))
                        (and_then (created 7 (mask names 7) v (ok accepted)) (ok accepted)))))))))
      else ok (refused "Bad masquerading vector")

  unfoldable pub validate_masqueraded_json_for_update : List String → json.Value → Result Check
  validate_masqueraded_json_for_update names v =
      if length names == 8
      then catch_logic_error (
          and_then
            (changed 0 (mask names 0) v
              (ok (refused "The value of primary key must be set in the json object for update")))
            (and_then (changed 1 (mask names 1) v (ok accepted)) (
              and_then (changed 2 (mask names 2) v (ok accepted)) (
                and_then (changed 3 (mask names 3) v (ok accepted)) (
                  and_then (changed 4 (mask names 4) v (ok accepted)) (
                    and_then (changed 5 (mask names 5) v (ok accepted)) (
                      and_then (changed 6 (mask names 6) v (ok accepted))
                        (and_then (changed 7 (mask names 7) v (ok accepted)) (ok accepted)))))))))
      else ok (refused "Bad masquerading vector")

module _ (json : JsonLib) (dates : DateLib) where
  -- With the columns' own names the masqueraded variants of models/Permissions.cc are the plain
  -- functions, but for the LogicError of a validation, which they give as a message. With a vector
  -- of another length the constructor leaves the row empty, updateByMasqueradedJson changes
  -- nothing, toMasqueradedJson gives what toJson gives, and both validations refuse.
  pub permission_masqueraded-cases :
      (names : List String) (v : json.Value) (r : Permissions dates.Date)
      → ((from_masqueraded_json json dates insert_columns v ≡ from_json json dates v)
          × (update_by_masqueraded_json json dates insert_columns v r
              ≡ update_by_json json dates v r)
          × (to_masqueraded_json json dates.to_db_string_local insert_columns r
              ≡ to_json json dates.to_db_string_local r)
          × (validate_masqueraded_json_for_creation json insert_columns v
              ≡ catch_logic_error (validate_json_for_creation json v))
          × (validate_masqueraded_json_for_update json insert_columns v
              ≡ catch_logic_error (validate_json_for_update json v)))
        × ((length names == 8) ≡ false
            → (from_masqueraded_json json dates names v ≡ ok new_permissions)
              × (update_by_masqueraded_json json dates names v r ≡ (ok tt, r))
              × (to_masqueraded_json json dates.to_db_string_local names r
                  ≡ to_json json dates.to_db_string_local r)
              × (validate_masqueraded_json_for_creation json names v
                  ≡ ok (refused "Bad masquerading vector"))
              × (validate_masqueraded_json_for_update json names v
                  ≡ ok (refused "Bad masquerading vector")))
  unfolding from_masqueraded_json update_by_masqueraded_json to_masqueraded_json
      validate_masqueraded_json_for_creation validate_masqueraded_json_for_update from_json
      update_by_json to_json validate_json_for_creation validate_json_for_update read_masked
  permission_masqueraded-cases names v r =
      ((refl, refl, refl, refl, refl), λ h. (rw h refl, rw h refl, rw h refl, rw h refl, rw h refl))
