-- ===== src/Models/ReadTests.antt =====
-- The constructors and the updates of the models at concrete bodies and rows.
use Prim.Native.Char.{Char, code}
use Prim.Native.String.{◌∷◌ as str_cons}
use drogon_api_starter.Prelude.{
  ℕ, zero, suc, ◌+◌, ◌*◌, ◌^◌, ◌-◌, ◌≡◌, refl, String, true, false, none, some, List, [], ◌∷◌,
  length, ◌==◌, get_elem?, Option, arith,
}
use drogon_api_starter.Text.{◌++◌, size, strip_prefix}
use drogon_api_starter.Text.Number.{pos, negsuc, read_digits, is_digit, to_string}
use drogon_api_starter.Result.{ok}
use drogon_api_starter.Models.Column.{unset, set_value}
use drogon_api_starter.Models.Dates.{decimal_num}
use drogon_api_starter.Models.Dates.Laws.{decimal_num-cases, IsWritten}
use drogon_api_starter.Models.Fields.{accepted, refused, check_creation, check_update}
use drogon_api_starter.Models.Reading.{read_column, catch_logic_error}
use drogon_api_starter.Models.Reading.Written.{dirtied, some-injective}
use drogon_api_starter.Models.Roles as R
use drogon_api_starter.Models.Roles.Reading as RR
use drogon_api_starter.Models.Roles.Masks as RM
use drogon_api_starter.Models.Roles.Read as RA
use drogon_api_starter.Models.Roles.Validation as RV
use drogon_api_starter.Models.Users as U
use drogon_api_starter.Models.Users.Reading as UR
use drogon_api_starter.Models.Users.Read as UA
use drogon_api_starter.Models.Users.Validation as UV
use drogon_api_starter.Models.Permissions as P
use drogon_api_starter.Models.Permissions.Reading as PR
use drogon_api_starter.Models.Permissions.Read as PA
use drogon_api_starter.Models.Permissions.Validation as PV
use drogon_api_starter.Models.Tests.{role_body, role_body-accepted}
use drogon_api_starter.Samples.SampleJson.{
  objects, objects-Laws, objects-Objects, Value, nothing, word, member, object,
}
use drogon_api_starter.Samples.SampleTimes.{dates, rows}

decimal_tests :
    (decimal_num "5" ≡ 500000)
    × (decimal_num "123456" ≡ 123456)
    × (decimal_num "5+00" ≡ 5)
    × (decimal_num "1234567" ≡ 1234567)
unfolding decimal_num
decimal_tests = (refl, refl, refl, refl)

decimal_num-cases_example :
    (decimal_num "25" ≡ read_digits 0 "25" * 10 ^ (6 - size "25"))
    × ((c : Char) (t : String)
        → is_digit (code c) ≡ false
        → decimal_num ("25" ++ str_cons c t) ≡ read_digits 0 "25")
decimal_num-cases_example = decimal_num-cases "25" (refl, (refl, tt)) (omega arith) (omega arith)

role_from_json-accepted_example :
    (after : R.Roles ℕ) × (RR.from_json objects dates role_body ≡ ok after)
    × RA.IsReadFrom objects dates role_body true R.new_roles after
role_from_json-accepted_example =
    RA.role_from_json-accepted objects dates objects-Laws role_body role_body-accepted

abbrev user_change : Value
user_change =
    member "id" (word "u1") (member "updated_at" nothing (member "email" (word "x@y.z") object))

abbrev stored_user : U.Users ℕ
stored_user = record U.new_users {
  id = record { value = some "u1"; dirty = false };
  updated_at = record { value = some 250000; dirty = false };
}

user_change-accepted : UV.validate_json_for_update objects user_change ≡ ok accepted
unfolding UV.validate_json_for_update UV.valid_json_of_field
user_change-accepted = refl

user_update_by_json-accepted_example :
    (after : U.Users ℕ) × (UR.update_by_json objects dates user_change stored_user ≡ (ok tt, after))
    × UA.IsReadFrom objects dates user_change false stored_user after
user_update_by_json-accepted_example =
    UA.user_update_by_json-accepted objects dates objects-Laws user_change stored_user
      user_change-accepted

-- A null leaves the value that was there, with the flag on.
null_keeps :
    UR.update_by_json objects dates user_change stored_user
    ≡ (ok tt, record stored_user { email = set_value "x@y.z"; updated_at = set_value 250000 })
unfolding UR.update_by_json read_column
null_keeps = refl

quarter_second-IsWritten : IsWritten dates 250000
unfolding to_string strip_prefix read_digits
quarter_second-IsWritten =
    (tt, "250000", refl, (refl, (refl, (refl, (refl, (refl, (refl, tt)))))), refl, refl)

user_from_json-to_json_example :
    UR.from_json objects dates (U.to_json objects dates.to_db_string_local stored_user)
    ≡ ok (record U.new_users {
      id = dirtied stored_user.id;
      first_name = dirtied unset;
      last_name = dirtied unset;
      email = dirtied unset;
      password = dirtied unset;
      is_deleted = dirtied unset;
      created_at = dirtied unset;
      updated_at = dirtied stored_user.updated_at;
      deleted_at = dirtied unset;
    })
user_from_json-to_json_example =
    UA.user_from_json-to_json objects dates objects-Objects stored_user tt quarter_second-IsWritten
      tt

role_masqueraded-cases_example :
    ((RM.from_masqueraded_json objects dates R.insert_columns role_body
        ≡ RR.from_json objects dates role_body)
      × (RM.update_by_masqueraded_json objects dates R.insert_columns role_body R.new_roles
          ≡ RR.update_by_json objects dates role_body R.new_roles)
      × (RM.to_masqueraded_json objects dates.to_db_string_local R.insert_columns R.new_roles
          ≡ R.to_json objects dates.to_db_string_local R.new_roles)
      × (RM.validate_masqueraded_json_for_creation objects R.insert_columns role_body
          ≡ catch_logic_error (RV.validate_json_for_creation objects role_body))
      × (RM.validate_masqueraded_json_for_update objects R.insert_columns role_body
          ≡ catch_logic_error (RV.validate_json_for_update objects role_body)))
    × ((length {A = String} [] == 8) ≡ false
        → (RM.from_masqueraded_json objects dates [] role_body ≡ ok R.new_roles)
          × (RM.update_by_masqueraded_json objects dates [] role_body R.new_roles
              ≡ (ok tt, R.new_roles))
          × (RM.to_masqueraded_json objects dates.to_db_string_local [] R.new_roles
              ≡ R.to_json objects dates.to_db_string_local R.new_roles)
          × (RM.validate_masqueraded_json_for_creation objects [] role_body
              ≡ ok (refused "Bad masquerading vector"))
          × (RM.validate_masqueraded_json_for_update objects [] role_body
              ≡ ok (refused "Bad masquerading vector")))
role_masqueraded-cases_example = RM.role_masqueraded-cases objects dates [] role_body R.new_roles

validate_permission-eq_example :
    (PV.validate_json_for_creation objects role_body ≡ check_creation objects P.meta_data role_body)
    × (PV.validate_json_for_update objects role_body ≡ check_update objects P.meta_data role_body)
validate_permission-eq_example = PV.validate_permission-eq objects role_body

abbrev result_row : List (String × Option String)
result_row =
    ("count", some "3")
    ∷ ("id", some "p1")
    ∷ ("name", some "read")
    ∷ ("description", none)
    ∷ ("meta", none)
    ∷ ("is_deleted", some "f")
    ∷ ("created_at", some "t.5")
    ∷ ("updated_at", none)
    ∷ ("deleted_at", none)
    ∷ []

fields_in_place :
    (i : ℕ) (name : String)
    → get_elem? P.insert_columns i ≡ some name
    → rows.named result_row name ≡ rows.at result_row (1 + i)
fields_in_place zero name h = rw (← (some-injective h)) refl
fields_in_place (suc zero) name h = rw (← (some-injective h)) refl
fields_in_place (suc (suc zero)) name h = rw (← (some-injective h)) refl
fields_in_place (suc (suc (suc zero))) name h = rw (← (some-injective h)) refl
fields_in_place (suc (suc (suc (suc zero)))) name h = rw (← (some-injective h)) refl
fields_in_place (suc (suc (suc (suc (suc zero))))) name h = rw (← (some-injective h)) refl
fields_in_place (suc (suc (suc (suc (suc (suc zero)))))) name h = rw (← (some-injective h)) refl
fields_in_place (suc (suc (suc (suc (suc (suc (suc zero))))))) name h =
    rw (← (some-injective h)) refl
fields_in_place (suc (suc (suc (suc (suc (suc (suc (suc i)))))))) name h = absurd (cc)

permission_from_row-eq_example :
    PR.from_row dates rows result_row (pos 1) ≡ PR.from_row dates rows result_row (negsuc 0)
permission_from_row-eq_example =
    PA.permission_from_row-eq dates rows result_row 0 1 refl fields_in_place
