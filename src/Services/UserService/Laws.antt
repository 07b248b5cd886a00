-- ===== src/Services/UserService/Laws.antt =====
-- services/UserService.cc: what reaches the database, for every body and every outcome of the query.
use drogon_api_starter.Prelude.{◌≡◌, refl, ◌∙◌, ◌⊎◌, inl, inr, String, true, Bool-cases}
use drogon_api_starter.Result.{Exception, invalid_argument, Result, ok, err}
use drogon_api_starter.Action.{done, continue}
use drogon_api_starter.Json.{Laws}
use drogon_api_starter.Platform.{Platform, Moment}
use drogon_api_starter.Models.Column.{unset, set_value}
use drogon_api_starter.Models.Users.{Users}
use drogon_api_starter.Services.Input.{string_at, HasText, text_at-eq, string_at-cases}
use drogon_api_starter.Services.UserService.{validate_user_input, create_user, update_user}

module _ (P : Platform) where
  -- The body is an object with these texts.
  abbrev pub IsUserInput : P.json.Value → String → String → String → String → Type 0
  IsUserInput input first_name last_name email password =
      (P.json.is_object input ≡ true)
      × HasText P.json input "first_name" first_name
      × HasText P.json input "last_name" last_name
      × HasText P.json input "email" email
      × HasText P.json input "password" password

  -- The body is no object, or one of the four is no string in it.
  abbrev pub LacksInput : P.json.Value → Type 0
  LacksInput input =
      (first_name last_name email password : String)
      → IsUserInput input first_name last_name email password
      → ⊥

  abbrev refusal : Exception
  refusal = invalid_argument "Request body must contain first_name, last_name, email and password"

  -- A new row with these columns set, the other ones without a value and their flags off.
  abbrev pub inserted_row : Moment P → String → String → String → String → Users P.Date
  inserted_row moment first_name last_name email password = record {
    id = unset;
    first_name = set_value first_name;
    last_name = set_value last_name;
    email = set_value email;
    password = set_value (P.generate_hash moment.salt password);
    is_deleted = set_value true;
    created_at = set_value moment.now;
    updated_at = set_value moment.now;
    deleted_at = unset;
  }

  abbrev pub changed_row : Moment P → String → String → String → String → String → Users P.Date
  changed_row moment id first_name last_name email password = record {
    id = set_value id;
    first_name = set_value first_name;
    last_name = set_value last_name;
    email = set_value email;
    password = set_value (P.generate_hash moment.salt password);
    is_deleted = unset;
    created_at = unset;
    updated_at = set_value moment.now;
    deleted_at = unset;
  }

  module _ (laws : Laws P.json) (input : P.json.Value) where
    -- The body's texts with its validation, or what is missing with the validation's exception.
    abbrev Validated : Type 0
    Validated =
        ((first_name : String) × (last_name : String) × (email : String) × (password : String)
          × IsUserInput input first_name last_name email password
          × (validate_user_input P input ≡ ok tt))
        ⊎ (LacksInput input × (validate_user_input P input ≡ err refusal))

    -- The tests of the members, with those that follow.
    abbrev test : String → Result (Unit {0}) → Result (Unit {0})
    test key rest = string_at P.json refusal input key rest

    validate-cases : Validated
    unfolding validate_user_input
    validate-cases = elim (Bool-cases (P.json.is_object input)) [
      | inr e ↦ inr (λ f l m p (object, _, _, _, _). cc, rw e refl)
      | inl e ↦
          elim (string_at-cases P.json laws input e refusal "first_name"
            (test "last_name" (test "email" (test "password" (ok tt))))) [
              | inr (not0, no0) ↦ inr (λ f l m p (_, has, _, _, _). not0 f has, rw e no0)
              | inl (first_name, has0, yes0) ↦
                  elim (string_at-cases P.json laws input e refusal "last_name"
                    (test "email" (test "password" (ok tt)))) [
                      | inr (not1, no1) ↦
                          inr (λ f l m p (_, _, has, _, _). not1 l has, rw e (yes0 ∙ no1))
                      | inl (last_name, has1, yes1) ↦
                          elim (string_at-cases P.json laws input e refusal "email"
                            (test "password" (ok tt))) [
                              | inr (not2, no2) ↦ inr (
                                λ f l m p (_, _, _, has, _). not2 m has,
                                rw e (yes0 ∙ yes1 ∙ no2),
                              )
                              | inl (email, has2, yes2) ↦
                                  elim (string_at-cases P.json laws input e refusal "password"
                                    (ok tt)) [
                                      | inr (not3, no3) ↦ inr (
                                        λ f l m p (_, _, _, _, has). not3 p has,
                                        rw e (yes0 ∙ yes1 ∙ yes2 ∙ no3),
                                      )
                                      | inl (password, has3, yes3) ↦ inl (
                                        first_name,
                                        last_name,
                                        email,
                                        password,
                                        (e, has0, has1, has2, has3),
                                        rw e (yes0 ∙ yes1 ∙ yes2 ∙ yes3),
                                      )
                                    ]
                            ]
                    ]
            ]
    ]

    -- createUser of services/UserService.cc, for a body that is an object with the four texts,
    -- inserts one row, with the texts, the hash of the password in its place, is_deleted true and
    -- the two dates of now, and gives what the insert gives; for every other body it throws
    -- invalid_argument with the database left alone.
    pub create_user-cases :
        (moment : Moment P) (db : P.Db)
        → ((first_name : String) × (last_name : String) × (email : String) × (password : String)
            × IsUserInput input first_name last_name email password
            × (create_user P moment input db
                ≡ P.users.insert (inserted_row moment first_name last_name email password) db))
          ⊎ (LacksInput input × (create_user P moment input db ≡ (err refusal, db)))
    unfolding create_user
    create_user-cases moment db = elim validate-cases [
      | inl (first_name, last_name, email, password, (object, has0, has1, has2, has3), valid) ↦
          inl (
            first_name,
            last_name,
            email,
            password,
            (object, has0, has1, has2, has3),
            rw
                (
                  valid,
                  text_at-eq P.json input "first_name" first_name has0,
                  text_at-eq P.json input "last_name" last_name has1,
                  text_at-eq P.json input "email" email has2,
                  text_at-eq P.json input "password" password has3,
                )
                refl,
          )
      | inr (lacks, e) ↦ inr (lacks, rw e refl)
    ]

    -- updateUser of services/UserService.cc, for a body that is an object with the four texts,
    -- updates one row under the id of the request, with the texts, the hash of the password and the
    -- date of now, and gives that row whatever the number of rows that the update touched, or
    -- throws what the update throws; for every other body it throws invalid_argument with the
    -- database left alone.
    pub update_user-cases :
        (moment : Moment P) (id : String) (db : P.Db)
        → ((first_name : String) × (last_name : String) × (email : String) × (password : String)
            × IsUserInput input first_name last_name email password
            × (update_user P moment id input db
                ≡ continue
                    (λ touched. done (changed_row moment id first_name last_name email password))
                    (P.users.update
                      (changed_row moment id first_name last_name email password)
                      db)))
          ⊎ (LacksInput input × (update_user P moment id input db ≡ (err refusal, db)))
    unfolding update_user
    update_user-cases moment id db = elim validate-cases [
      | inl (first_name, last_name, email, password, (object, has0, has1, has2, has3), valid) ↦
          inl (
            first_name,
            last_name,
            email,
            password,
            (object, has0, has1, has2, has3),
            rw
                (
                  valid,
                  text_at-eq P.json input "first_name" first_name has0,
                  text_at-eq P.json input "last_name" last_name has1,
                  text_at-eq P.json input "email" email has2,
                  text_at-eq P.json input "password" password has3,
                )
                refl,
          )
      | inr (lacks, e) ↦ inr (lacks, rw e refl)
    ]
