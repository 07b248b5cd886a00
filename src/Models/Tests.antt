-- ===== src/Models/Tests.antt =====
-- The models at concrete rows and bodies.
use drogon_api_starter.Prelude.{ℕ, ◌+◌, ◌≡◌, refl, true, false, [], ◌∷◌, length}
use drogon_api_starter.Text.{◌++◌}
use drogon_api_starter.Result.{ok}
use drogon_api_starter.Models.Column.{text, truth, nullptr}
use drogon_api_starter.Models.Fields.{accepted, check_creation, check_update}
use drogon_api_starter.Models.Insertion.{statement_text, numbered}
use drogon_api_starter.Models.Roles as R
use drogon_api_starter.Models.Roles.Statement as RS
use drogon_api_starter.Models.Roles.Validation as RV
use drogon_api_starter.Models.Users as U
use drogon_api_starter.Models.Users.Validation as UV
use drogon_api_starter.Samples.SampleJson.{objects, Value, word, member, object}

abbrev pub role : R.Roles ℕ
role = R.set_description_to_null (R.set_is_deleted true (R.set_name "admin" R.new_roles))

abbrev pub user : U.Users ℕ
user = U.set_updated_at 7 (U.set_email "a@b.c" (U.set_id "u1" U.new_users))

abbrev pub role_body : Value
role_body = member "name" (word "admin") (member "created_at" (word "2024-01-01 00:00:00") object)

abbrev pub user_body : Value
user_body = member "first_name" (word "Ada") (
    member "last_name" (word "L") (
      member "email" (word "a@b.c")
        (member "password" (word "pw") (member "created_at" (word "2024-01-01 00:00:00") object))))

role_columns : R.update_columns role ≡ "name" ∷ "description" ∷ "is_deleted" ∷ []
unfolding R.update_columns
role_columns = refl

role_arguments : R.update_args role ≡ text "admin" ∷ nullptr ∷ truth true ∷ []
unfolding R.update_args
role_arguments = refl

role_sql_for_inserting-eq_example :
    (RS.sql_for_inserting role
      ≡ (statement_text "insert into roles (" false (RS.others role) ++ ") returning *", true))
    × (length (R.output_args role) ≡ 0 + length (numbered 1 (RS.others role)))
role_sql_for_inserting-eq_example = RS.role_sql_for_inserting-eq role

validate_role-eq_example :
    (RV.validate_json_for_creation objects role_body ≡ check_creation objects R.meta_data role_body)
    × (RV.validate_json_for_update objects role_body ≡ check_update objects R.meta_data role_body)
validate_role-eq_example = RV.validate_role-eq objects role_body

pub role_body-accepted : RV.validate_json_for_creation objects role_body ≡ ok accepted
unfolding RV.validate_json_for_creation RV.valid_json_of_field
role_body-accepted = refl

user_body-accepted : UV.validate_json_for_creation objects user_body ≡ ok accepted
unfolding UV.validate_json_for_creation UV.valid_json_of_field
user_body-accepted = refl
