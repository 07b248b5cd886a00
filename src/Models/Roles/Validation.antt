-- ===== src/Models/Roles/Validation.antt =====
-- models/Roles.cc: what a JSON body must have to create or to update a role; `refused` has the
-- message for the caller.
use drogon_api_starter.Prelude.{
  ℕ, zero, suc, ◌≡◌, refl, sym, ◌∙◌, String, Bool, true, false, none, some, get_elem?, arith, All,
}
use drogon_api_starter.Result.{Result, ok}
use drogon_api_starter.Json.{JsonLib}
use drogon_api_starter.Models.Fields.{
  Check, accepted, refused, cannot_be_null, and_then, and_then-eq, required, optional, a_string,
  a_bool, at_most_255, on_member, on_member-eq, check_column, check_creation, check_update, IsGiven,
  check_creation-accepted,
}
use drogon_api_starter.Models.Roles.{meta_data}

module _ (json : JsonLib) where
  unfoldable pub valid_json_of_field : ℕ → String → json.Value → Bool → Result Check
  valid_json_of_field zero field v creating =
      required json field v (a_string json field v (ok accepted))
  valid_json_of_field (suc zero) field v creating =
      required json field v (a_string json field v (at_most_255 json field v (ok accepted)))
  valid_json_of_field (suc (suc zero)) field v creating =
      optional json v (a_string json field v (at_most_255 json field v (ok accepted)))
  valid_json_of_field (suc (suc (suc zero))) field v creating =
      optional json v (a_string json field v (ok accepted))
  valid_json_of_field (suc (suc (suc (suc zero)))) field v creating =
      optional json v (a_bool json field v (ok accepted))
  valid_json_of_field (suc (suc (suc (suc (suc zero))))) field v creating =
      required json field v (a_string json field v (ok accepted))
  valid_json_of_field (suc (suc (suc (suc (suc (suc zero)))))) field v creating =
      optional json v (a_string json field v (ok accepted))
  valid_json_of_field (suc (suc (suc (suc (suc (suc (suc zero))))))) field v creating =
      optional json v (a_string json field v (ok accepted))
  valid_json_of_field (suc (suc (suc (suc (suc (suc (suc (suc i)))))))) field v creating =
      ok (refused "Internal error in the server")

  -- The check of one member, for a creation or an update.
  abbrev pub member : ℕ → Bool → String → json.Value → Result Check → Result Check
  member i creating name v missing =
      on_member json (λ field w. valid_json_of_field i field w creating) name v missing

  unfoldable pub validate_json_for_creation : json.Value → Result Check
  validate_json_for_creation v = and_then (member 0 true "id" v (ok accepted)) (
      and_then (member 1 true "name" v (ok (refused (cannot_be_null "name")))) (
        and_then (member 2 true "description" v (ok accepted)) (
          and_then (member 3 true "meta" v (ok accepted)) (
            and_then (member 4 true "is_deleted" v (ok accepted)) (
              and_then (member 5 true "created_at" v (ok (refused (cannot_be_null "created_at")))) (
                and_then (member 6 true "updated_at" v (ok accepted))
                  (and_then (member 7 true "deleted_at" v (ok accepted)) (ok accepted))))))))

  unfoldable pub validate_json_for_update : json.Value → Result Check
  validate_json_for_update v =
      and_then
        (member 0 false "id" v
          (ok (refused "The value of primary key must be set in the json object for update")))
        (and_then (member 1 false "name" v (ok accepted)) (
          and_then (member 2 false "description" v (ok accepted)) (
            and_then (member 3 false "meta" v (ok accepted)) (
              and_then (member 4 false "is_deleted" v (ok accepted)) (
                and_then (member 5 false "created_at" v (ok accepted)) (
                  and_then (member 6 false "updated_at" v (ok accepted))
                    (and_then (member 7 false "deleted_at" v (ok accepted)) (ok accepted))))))))

  -- What validJsonOfField of models/Roles.cc asks of a value is what the table's `metaData_` states
  -- of the column at the index, for every index; out of range it refuses.
  pub valid_role_field-eq :
      (i : ℕ) (field : String) (v : json.Value) (creating : Bool)
      → valid_json_of_field i field v creating ≡ elim (get_elem? meta_data i) [
        | none ↦ ok (refused "Internal error in the server")
        | some m ↦ check_column json m field v
      ]
  unfolding valid_json_of_field check_column
  valid_role_field-eq zero field v creating = ground arith
  valid_role_field-eq (suc zero) field v creating = ground arith
  valid_role_field-eq (suc (suc zero)) field v creating = ground arith
  valid_role_field-eq (suc (suc (suc zero))) field v creating = ground arith
  valid_role_field-eq (suc (suc (suc (suc zero)))) field v creating = ground arith
  valid_role_field-eq (suc (suc (suc (suc (suc zero))))) field v creating = ground arith
  valid_role_field-eq (suc (suc (suc (suc (suc (suc zero)))))) field v creating = ground arith
  valid_role_field-eq (suc (suc (suc (suc (suc (suc (suc zero))))))) field v creating = ground arith
  valid_role_field-eq (suc (suc (suc (suc (suc (suc (suc (suc i)))))))) field v creating = refl

  -- The two validations of models/Roles.cc do what the table's `metaData_` asks:
  -- validateJsonForCreation checks every column in the table's order, and lets only the primary key
  -- and the nullable ones be missing; validateJsonForUpdate does so with no column required but the
  -- primary key.
  pub validate_role-eq :
      (v : json.Value)
      → (validate_json_for_creation v ≡ check_creation json meta_data v)
        × (validate_json_for_update v ≡ check_update json meta_data v)
  unfolding validate_json_for_creation validate_json_for_update check_creation check_update
  validate_role-eq v = (
    and_then-eq (on_member-eq json (λ field w. valid_role_field-eq 0 field w true) "id" v _) (
        and_then-eq (on_member-eq json (λ field w. valid_role_field-eq 1 field w true) "name" v _) (
          and_then-eq
            (on_member-eq json (λ field w. valid_role_field-eq 2 field w true) "description" v _)
            (and_then-eq
              (on_member-eq json (λ field w. valid_role_field-eq 3 field w true) "meta" v _)
              (and_then-eq
                (on_member-eq json (λ field w. valid_role_field-eq 4 field w true) "is_deleted" v _)
                (and_then-eq
                  (on_member-eq json (λ field w. valid_role_field-eq 5 field w true) "created_at" v
                    _)
                  (and_then-eq
                    (on_member-eq json (λ field w. valid_role_field-eq 6 field w true) "updated_at"
                      v _)
                    (and_then-eq
                      (on_member-eq json (λ field w. valid_role_field-eq 7 field w true)
                        "deleted_at" v _)
                      refl))))))),
    and_then-eq (on_member-eq json (λ field w. valid_role_field-eq 0 field w false) "id" v _) (
        and_then-eq (on_member-eq json (λ field w. valid_role_field-eq 1 field w false) "name" v _)
          (and_then-eq
            (on_member-eq json (λ field w. valid_role_field-eq 2 field w false) "description" v _)
            (and_then-eq
              (on_member-eq json (λ field w. valid_role_field-eq 3 field w false) "meta" v _)
              (and_then-eq
                (on_member-eq json (λ field w. valid_role_field-eq 4 field w false) "is_deleted" v
                  _)
                (and_then-eq
                  (on_member-eq json (λ field w. valid_role_field-eq 5 field w false) "created_at" v
                    _)
                  (and_then-eq
                    (on_member-eq json (λ field w. valid_role_field-eq 6 field w false) "updated_at"
                      v _)
                    (and_then-eq
                      (on_member-eq json (λ field w. valid_role_field-eq 7 field w false)
                        "deleted_at" v _)
                      refl))))))),
  )

  -- A body that validateJsonForCreation of models/Roles.cc accepts has every column's member,
  -- fitting the column, or leaves out one that the table can do without.
  pub role_creation-IsGiven :
      (v : json.Value) → validate_json_for_creation v ≡ ok accepted → All (IsGiven json v) meta_data
  role_creation-IsGiven v h =
      let (created, _) = validate_role-eq v in
      check_creation-accepted json meta_data v (sym created ∙ h)
