-- ===== src/Services/RoleService/Laws.antt =====
-- services/RoleService.cc: what reaches the database, for every body and every outcome of the query.
use drogon_api_starter.Prelude.{◌≡◌, refl, ◌∙◌, ◌⊎◌, inl, inr, String, Bool-cases}
use drogon_api_starter.Result.{ok, err}
use drogon_api_starter.Action.{done, continue}
use drogon_api_starter.Json.{Laws}
use drogon_api_starter.Platform.{Platform, Moment}
use drogon_api_starter.Services.Input.{string_at, HasText, text_at-eq, string_at-cases}
use drogon_api_starter.Services.RoleService.{
  missing, validate_role_input, created_role, updated_role, create_role, update_role,
}

module _ (P : Platform) where
  -- The body is an object with these texts.
  abbrev pub IsRoleInput : P.json.Value → String → String → Type 0
  IsRoleInput input name description =
      HasText P.json input "name" name × HasText P.json input "description" description

  module _ (laws : Laws P.json) (input : P.json.Value) where
    -- The body's texts with its validation, or the validation's exception.
    abbrev Validated : Type 0
    Validated =
        ((name : String) × (description : String) × IsRoleInput input name description
          × (validate_role_input P input ≡ ok tt))
        ⊎ (validate_role_input P input ≡ err (missing P))

    validate-cases : Validated
    unfolding validate_role_input
    validate-cases = elim (Bool-cases (P.json.is_object input)) [
      | inr e ↦ inr (rw e refl)
      | inl e ↦
          elim (string_at-cases P.json laws input e (missing P) "name"
            (string_at P.json (missing P) input "description" (ok tt))) [
              | inr (_, no0) ↦ inr (rw e (no0))
              | inl (name, has0, yes0) ↦
                  elim (string_at-cases P.json laws input e (missing P) "description" (ok tt)) [
                    | inr (_, no1) ↦ inr (rw e (yes0 ∙ no1))
                    | inl (description, has1, yes1) ↦
                        inl (name, description, (has0, has1), rw e (yes0 ∙ yes1))
                  ]
            ]
    ]

    -- createRole of services/RoleService.cc inserts one row, made of the body's texts,
    -- and gives what the insert gives; or the body lacks one of the texts, and it throws
    -- invalid_argument with the database left alone.
    pub create_role-cases :
        (moment : Moment P) (db : P.Db)
        → ((name : String) × (description : String) × IsRoleInput input name description
            × (create_role P moment input db
                ≡ P.roles.insert (created_role P moment name description) db))
          ⊎ (create_role P moment input db ≡ (err (missing P), db))
    unfolding create_role
    create_role-cases moment db = elim validate-cases [
      | inl (name, description, (has0, has1), valid) ↦ inl (
        name,
        description,
        (has0, has1),
        rw
            (
              valid,
              text_at-eq P.json input "name" name has0,
              text_at-eq P.json input "description" description has1,
            )
            refl,
      )
      | inr e ↦ inr (rw e refl)
    ]

    -- updateRole of services/RoleService.cc updates one row with the body's texts, under the id of
    -- the request, and gives that row whatever the number of rows that the update touched; where
    -- the body lacks one of the texts it throws invalid_argument with the database left alone.
    pub update_role-cases :
        (moment : Moment P) (id : String) (db : P.Db)
        → ((name : String) × (description : String) × IsRoleInput input name description
            × (update_role P moment id input db
                ≡ continue
                    (λ _. done (updated_role P moment id name description))
                    (P.roles.update (updated_role P moment id name description) db)))
          ⊎ (update_role P moment id input db ≡ (err (missing P), db))
    unfolding update_role
    update_role-cases moment id db = elim validate-cases [
      | inl (name, description, (has0, has1), valid) ↦ inl (
        name,
        description,
        (has0, has1),
        rw
            (
              valid,
              text_at-eq P.json input "name" name has0,
              text_at-eq P.json input "description" description has1,
            )
            refl,
      )
      | inr e ↦ inr (rw e refl)
    ]
