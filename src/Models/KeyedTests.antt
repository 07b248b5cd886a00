-- ===== src/Models/KeyedTests.antt =====
-- models/RolePermissions and models/UserPermissions at concrete rows and bodies.
use drogon_api_starter.Prelude.{ℕ, ◌≡◌, refl, some, false}
use drogon_api_starter.Text.Number.{to_string}
use drogon_api_starter.Text.{drop_last}
use drogon_api_starter.Result.{ok}
use drogon_api_starter.Models.Fields.{accepted, refused, check_update}
use drogon_api_starter.Models.Insertion.{column_if, placeholder_if, open_values, close_values}
use drogon_api_starter.Models.Keyed.{check_required}
use drogon_api_starter.Models.RolePermissions as R
use drogon_api_starter.Models.RolePermissions.Reading as RR
use drogon_api_starter.Models.RolePermissions.Statement as RS
use drogon_api_starter.Models.RolePermissions.Validation as RV
use drogon_api_starter.Models.UserPermissions as U
use drogon_api_starter.Models.UserPermissions.Statement as US
use drogon_api_starter.Models.UserPermissions.Validation as UV
use drogon_api_starter.Models.Reading.{read_column}
use drogon_api_starter.Samples.SampleJson.{objects, Value, word, member, object}
use drogon_api_starter.Samples.SampleTimes.{dates}

abbrev grant : Value
grant = member "user_id" (word "u1") (member "role_id" (word "r1") object)

abbrev dated_grant : Value
dated_grant = member "created_at" (word "t.5") grant

validate_role_permission-eq_example :
    (RV.validate_json_for_creation objects grant ≡ check_required objects R.meta_data grant)
    × (RV.validate_json_for_update objects grant ≡ check_update objects R.meta_data grant)
validate_role_permission-eq_example = RV.validate_role_permission-eq objects grant

-- A grant without a date can be used for an update only, one with a date for both.
grant_tests :
    (RV.validate_json_for_creation objects grant
      ≡ ok (refused "The created_at column cannot be null"))
    × (RV.validate_json_for_update objects grant ≡ ok accepted)
    × (RV.validate_json_for_creation objects dated_grant ≡ ok accepted)
    × (UV.validate_json_for_update objects object ≡ ok accepted)
unfolding RV.validate_json_for_creation RV.validate_json_for_update RV.valid_json_of_field
    UV.validate_json_for_update UV.valid_json_of_field
grant_tests = (refl, refl, refl, refl)

-- An update does not turn on the flags of the keys.
grant_update : RR.update_by_json objects dates grant R.new_role_permissions ≡ (
  ok tt,
  record R.new_role_permissions {
    user_id = record { value = some "u1"; dirty = false };
    role_id = record { value = some "r1"; dirty = false };
  },
)
unfolding RR.update_by_json read_column
grant_update = refl

abbrev granted : R.RolePermissions ℕ
granted = R.set_created_at 7 (R.set_user_id "u1" R.new_role_permissions)

insert_tests :
    (RS.sql_for_inserting granted
      ≡ ("insert into role_permissions (user_id,created_at) values ($1,$2)", false))
    × (US.sql_for_inserting {Date = ℕ} U.new_user_permissions
        ≡ ("insert into user_permissions () values ()", false))
unfolding RS.sql_for_inserting US.sql_for_inserting column_if placeholder_if open_values
    close_values drop_last to_string
insert_tests = (refl, refl)
