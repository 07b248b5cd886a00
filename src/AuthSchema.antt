-- ===== src/AuthSchema.antt =====
-- schemas/AuthSchema.h and .cc: the fields that a login body must have. `schema_` is a list of the
-- fields with whether they are required, in the order in which std::map runs over them.
use drogon_api_starter.Prelude.{◌≡◌, String, Bool, true, false, not, List, [], ◌∷◌, if◌then◌else◌}
use drogon_api_starter.Prelude.{◌++◌ as append}
use drogon_api_starter.Prelude.Dict.{insert}
use drogon_api_starter.Text.{◌++◌, is_empty}
use drogon_api_starter.Result.{Result, ok, ◌>>=◌}
use drogon_api_starter.Json.{JsonLib}
pub mod Laws
pub mod Tests

abbrev pub Schema : Type 0
Schema = List (String × Bool)

-- `schema_[fieldName] = required`
abbrev pub add_field : String → Bool → Schema → Schema
add_field = insert

-- The constructor.
unfoldable pub auth_schema : Schema
auth_schema = add_field "password" true (add_field "email" true [])

abbrev pub field_error : String → String
field_error name = "Field '" ++ (name ++ "' must be a non-empty string.")

module _ (json : JsonLib) (body : json.Value) where
  -- `!isMember || !isString || asString().empty()`, for a required field
  unfoldable pub is_wrong : String → Result Bool
  is_wrong name = json.is_member body name >>= λ found.
      if not found
      then ok true
      else (json.index body name >>= λ v.
          if not (json.is_string v)
          then ok true
          else (json.as_string v >>= λ text. ok (is_empty text)))

  unfoldable pub field_errors : String → Bool → Result (List String)
  field_errors name required =
      if required
      then (is_wrong name >>= λ wrong. ok (if wrong then field_error name ∷ [] else []))
      else ok []

  unfoldable pub validate : Schema → Result (List String)
  validate [] = ok []
  validate ((name, required) ∷ fields) =
      field_errors name required >>= λ errors. validate fields >>= λ rest. ok (append errors rest)
