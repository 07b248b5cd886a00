-- ===== src/Services/Tests.antt =====
-- The services at a concrete body.
use drogon_api_starter.Prelude.{◌≡◌, ◌⊎◌, String}
use drogon_api_starter.Result.{Exception, invalid_argument, err}
use drogon_api_starter.Action.{continue, done}
use drogon_api_starter.Services.UserService as US
use drogon_api_starter.Services.UserService.Laws as UL
use drogon_api_starter.Samples.SampleJson.{Value, word, member, object, objects-Laws}
use drogon_api_starter.Samples.SamplePlatform.{platform, no_rows, moment}

abbrev role_body : Value
role_body = member "name" (word "admin") (member "description" (word "all") object)

abbrev user_body : Value
user_body = member "first_name" (word "Ada") (
    member "last_name" (word "L")
      (member "email" (word "a@b.c") (member "password" (word "pw") object)))

abbrev missing : Exception
missing = invalid_argument "Request body must contain first_name, last_name, email and password"

create_user-cases_example :
    ((f : String) × (l : String) × (e : String) × (p : String) × UL.IsUserInput platform user_body f
        l e p
      × (US.create_user platform moment user_body no_rows
          ≡ platform.users.insert (UL.inserted_row platform moment f l e p) no_rows))
    ⊎ (UL.LacksInput platform user_body
        × (US.create_user platform moment user_body no_rows ≡ (err missing, no_rows)))
create_user-cases_example = UL.create_user-cases platform objects-Laws user_body moment no_rows

update_user-cases_example :
    ((f : String) × (l : String) × (e : String) × (p : String) × UL.IsUserInput platform user_body f
        l e p
      × (US.update_user platform moment "u1" user_body no_rows
          ≡ continue
              (λ touched. done (UL.changed_row platform moment "u1" f l e p))
              (platform.users.update (UL.changed_row platform moment "u1" f l e p) no_rows)))
    ⊎ (UL.LacksInput platform user_body
        × (US.update_user platform moment "u1" user_body no_rows ≡ (err missing, no_rows)))
update_user-cases_example = UL.update_user-cases platform objects-Laws user_body moment "u1" no_rows
