-- ===== src/Models/RolePermissions/Validation.antt =====
-- models/RolePermissions.cc: what a JSON body must have to create or to update a row of table
-- role_permissions.
use drogon_api_starter.Prelude.{
  ℕ, zero, suc, ◌≡◌, refl, String, Bool, true, false, none, some, get_elem?, arith,
}
use drogon_api_starter.Result.{Result, ok}
use drogon_api_starter.Json.{JsonLib}
use drogon_api_starter.Models.Fields.{
  Check, accepted, refused, cannot_be_null, and_then, and_then-eq, required, optional, a_string,
  on_member, on_member-eq, check_column, check_update,
}
use drogon_api_starter.Models.Keyed.{check_required}
use drogon_api_starter.Models.RolePermissions.{meta_data}

module _ (json : JsonLib) where
  unfoldable pub valid_json_of_field : ℕ → String → json.Value → Bool → Result Check
  valid_json_of_field zero field v creating =
      required json field v (a_string json field v (ok accepted))
  valid_json_of_field (suc zero) field v creating =
      required json field v (a_string json field v (ok accepted))
  valid_json_of_field (suc (suc zero)) field v creating =
      required json field v (a_string json field v (ok accepted))
  valid_json_of_field (suc (suc (suc zero))) field v creating =
      optional json v (a_string json field v (ok accepted))
  valid_json_of_field (suc (suc (suc (suc i)))) field v creating =
      ok (refused "Internal error in the server")

  -- The check of one member, for a creation or an update.
  abbrev pub member : ℕ → Bool → String → json.Value → Result Check → Result Check
  member i creating name v missing =
      on_member json (λ field w. valid_json_of_field i field w creating) name v missing

  unfoldable pub validate_json_for_creation : json.Value → Result Check
  validate_json_for_creation v =
      and_then (member 0 true "user_id" v (ok (refused (cannot_be_null "user_id")))) (
        and_then (member 1 true "role_id" v (ok (refused (cannot_be_null "role_id")))) (
          and_then (member 2 true "created_at" v (ok (refused (cannot_be_null "created_at"))))
            (and_then (member 3 true "updated_at" v (ok accepted)) (ok accepted))))

  unfoldable pub validate_json_for_update : json.Value → Result Check
  validate_json_for_update v =
      and_then
        (member 0 false "user_id" v
          (ok (refused "The value of primary key must be set in the json object for update")))
        (and_then
          (member 1 false "role_id" v
            (ok (refused "The value of primary key must be set in the json object for update")))
          (and_then (member 2 false "created_at" v (ok accepted))
            (and_then (member 3 false "updated_at" v (ok accepted)) (ok accepted))))

  -- What validJsonOfField of models/RolePermissions.cc asks of a value is what the table's
  -- `metaData_` states of the column at the index, for every index; out of range it refuses.
  valid_role_permission_field-eq :
      (i : ℕ) (field : String) (v : json.Value) (creating : Bool)
      → valid_json_of_field i field v creating ≡ elim (get_elem? meta_data i) [
        | none ↦ ok (refused "Internal error in the server")
        | some m ↦ check_column json m field v
      ]
  unfolding valid_json_of_field check_column
  valid_role_permission_field-eq zero field v creating = ground arith
  valid_role_permission_field-eq (suc zero) field v creating = ground arith
  valid_role_permission_field-eq (suc (suc zero)) field v creating = ground arith
  valid_role_permission_field-eq (suc (suc (suc zero))) field v creating = ground arith
  valid_role_permission_field-eq (suc (suc (suc (suc i)))) field v creating = refl

  -- validateJsonForCreation of models/RolePermissions.cc does, for every JSON value, what checking
  -- every row of `metaData_` in order asks for, with only the nullable columns free to be missing;
  -- validateJsonForUpdate does so with no column required but the two of the primary key.
  pub validate_role_permission-eq :
      (v : json.Value)
      → (validate_json_for_creation v ≡ check_required json meta_data v)
        × (validate_json_for_update v ≡ check_update json meta_data v)
  unfolding validate_json_for_creation validate_json_for_update check_required check_update
  validate_role_permission-eq v = (
    and_then-eq
        (on_member-eq json (λ field w. valid_role_permission_field-eq 0 field w true) "user_id" v _)
        (and_then-eq
          (on_member-eq json (λ field w. valid_role_permission_field-eq 1 field w true) "role_id" v
            _)
          (and_then-eq
            (on_member-eq json (λ field w. valid_role_permission_field-eq 2 field w true)
              "created_at" v _)
            (and_then-eq
              (on_member-eq json (λ field w. valid_role_permission_field-eq 3 field w true)
                "updated_at" v _)
              refl))),
    and_then-eq
        (on_member-eq json (λ field w. valid_role_permission_field-eq 0 field w false) "user_id" v
          _)
        (and_then-eq
          (on_member-eq json (λ field w. valid_role_permission_field-eq 1 field w false) "role_id" v
            _)
          (and_then-eq
            (on_member-eq json (λ field w. valid_role_permission_field-eq 2 field w false)
              "created_at" v _)
            (and_then-eq
              (on_member-eq json (λ field w. valid_role_permission_field-eq 3 field w false)
                "updated_at" v _)
              refl))),
  )
