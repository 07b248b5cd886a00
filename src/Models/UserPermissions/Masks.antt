-- ===== src/Models/UserPermissions/Masks.antt =====
-- models/UserPermissions.cc: the masqueraded variants, which take the columns under the names of a
-- vector.
use drogon_api_starter.Prelude.{
  ℕ, String, true, false, ◌≡◌, refl, List, length, ◌==◌, if◌then◌else◌,
}
use drogon_api_starter.Text.{is_empty}
use drogon_api_starter.Result.{Result, ok}
use drogon_api_starter.Action.{Action}
use drogon_api_starter.Json.{JsonLib}
use drogon_api_starter.Models.Column.{write_masked}
use drogon_api_starter.Models.Dates.{DateLib}
use drogon_api_starter.Models.Fields.{Check, accepted, refused, cannot_be_null, and_then}
use drogon_api_starter.Models.Reading.{
  on_column, ◌>>◌, constructed, mask, read_masked, catch_logic_error, date_value, text_value,
}
use drogon_api_starter.Models.UserPermissions.{
  UserPermissions, new_user_permissions, insert_columns, to_json,
}
use drogon_api_starter.Models.UserPermissions.Reading.{
  user_id_place, permission_id_place, created_at_place, updated_at_place, from_json, update_by_json,
}
use drogon_api_starter.Models.UserPermissions.Validation.{
  member, validate_json_for_creation, validate_json_for_update,
}

module _ (json : JsonLib) (dates : DateLib) where
  unfoldable pub from_masqueraded_json :
      List String → json.Value → Result (UserPermissions dates.Date)
  from_masqueraded_json names v =
      if length names == 4
      then constructed (
          (on_column user_id_place (read_masked json (text_value json) true (mask names 0) v)
              >> on_column permission_id_place
                  (read_masked json (text_value json) true (mask names 1) v)
              >> on_column created_at_place
                  (read_masked json (date_value json dates) true (mask names 2) v)
              >> on_column updated_at_place
                  (read_masked json (date_value json dates) true (mask names 3) v))
            new_user_permissions)
      else ok new_user_permissions

  unfoldable pub update_by_masqueraded_json :
      List String → json.Value → Action (UserPermissions dates.Date) (Unit {0})
  update_by_masqueraded_json names v =
      if length names == 4
      then (on_column user_id_place (read_masked json (text_value json) true (mask names 0) v)
          >> on_column permission_id_place
              (read_masked json (text_value json) true (mask names 1) v)
          >> on_column created_at_place
              (read_masked json (date_value json dates) true (mask names 2) v)
          >> on_column updated_at_place
              (read_masked json (date_value json dates) true (mask names 3) v))
      else (λ r. (ok tt, r))

module _ (json : JsonLib) {Date : Type 0} (to_db_string_local : Date → String) where
  unfoldable pub to_masqueraded_json : List String → UserPermissions Date → json.Value
  to_masqueraded_json names r =
      let of_date = λ (d : Date). json.of_string (to_db_string_local d) in
      if length names == 4
      then write_masked json (mask names 3) of_date r.updated_at (
          write_masked json (mask names 2) of_date r.created_at (
            write_masked json (mask names 1) json.of_string r.permission_id
              (write_masked json (mask names 0) json.of_string r.user_id json.null)))
      else to_json json to_db_string_local r

module _ (json : JsonLib) where
  -- `if(!name.empty()) { if(pJson.isMember(name)) { ... } else { ... } }`
  abbrev created : ℕ → String → json.Value → Result Check → Result Check
  created i name v missing =
      if is_empty name then ok accepted else member json i true name v missing

  -- `if(!name.empty() && pJson.isMember(name)) { ... } else { ... }`
  abbrev changed : ℕ → String → json.Value → Result Check → Result Check
  changed i name v missing = if is_empty name then missing else member json i false name v missing

  unfoldable pub validate_masqueraded_json_for_creation : List String → json.Value → Result Check
  validate_masqueraded_json_for_creation names v =
      if length names == 4
      then catch_logic_error (
          and_then (created 0 (mask names 0) v (ok accepted)) (
            and_then (created 1 (mask names 1) v (ok accepted)) (
              and_then (created 2 (mask names 2) v (ok (refused (cannot_be_null (mask names 2)))))
                (and_then (created 3 (mask names 3) v (ok accepted)) (ok accepted)))))
      else ok (refused "Bad masquerading vector")

  unfoldable pub validate_masqueraded_json_for_update : List String → json.Value → Result Check
  validate_masqueraded_json_for_update names v =
      if length names == 4
      then catch_logic_error (
          and_then (changed 0 (mask names 0) v (ok accepted)) (
            and_then (changed 1 (mask names 1) v (ok accepted)) (
              and_then (changed 2 (mask names 2) v (ok accepted))
                (and_then (changed 3 (mask names 3) v (ok accepted)) (ok accepted)))))
      else ok (refused "Bad masquerading vector")

module _ (json : JsonLib) (dates : DateLib) where
  -- With the columns' own names the masqueraded variants of models/UserPermissions.cc are the plain
  -- functions, but for the LogicError of a validation, which they give as a message. With a vector
  -- of another length the constructor leaves the row empty, updateByMasqueradedJson changes
  -- nothing, toMasqueradedJson gives what toJson gives, and both validations refuse.
  pub user_permission_masqueraded-cases :
      (names : List String) (v : json.Value) (r : UserPermissions dates.Date)
      → ((from_masqueraded_json json dates insert_columns v ≡ from_json json dates v)
          × (update_by_masqueraded_json json dates insert_columns v r
              ≡ update_by_json json dates v r)
          × (to_masqueraded_json json dates.to_db_string_local insert_columns r
              ≡ to_json json dates.to_db_string_local r)
          × (validate_masqueraded_json_for_creation json insert_columns v
              ≡ catch_logic_error (validate_json_for_creation json v))
          × (validate_masqueraded_json_for_update json insert_columns v
              ≡ catch_logic_error (validate_json_for_update json v)))
        × ((length names == 4) ≡ false
            → (from_masqueraded_json json dates names v ≡ ok new_user_permissions)
              × (update_by_masqueraded_json json dates names v r ≡ (ok tt, r))
              × (to_masqueraded_json json dates.to_db_string_local names r
                  ≡ to_json json dates.to_db_string_local r)
              × (validate_masqueraded_json_for_creation json names v
                  ≡ ok (refused "Bad masquerading vector"))
              × (validate_masqueraded_json_for_update json names v
                  ≡ ok (refused "Bad masquerading vector")))
  unfolding from_masqueraded_json update_by_masqueraded_json to_masqueraded_json
      validate_masqueraded_json_for_creation validate_masqueraded_json_for_update from_json
      update_by_json to_json validate_json_for_creation validate_json_for_update read_masked
  user_permission_masqueraded-cases names v r =
      ((refl, refl, refl, refl, refl), λ h. (rw h refl, rw h refl, rw h refl, rw h refl, rw h refl))
