-- ===== src/Json.antt =====
-- What the source uses of jsoncpp, as a parameter: its values and the operations on them. An
-- operation that throws in C++ returns a `Result`.
use drogon_api_starter.Prelude.{ℕ, ◌≡◌, String, Bool, true, false, ◌||◌, Option, some, str_eq}
use drogon_api_starter.Text.{is_empty}
use drogon_api_starter.Result.{Result, ok}

pub record JsonLib : Type 1 where
  -- Json::Value
  pub Value : Type 0
  -- Json::Value() and Json::Value(Json::arrayValue)
  pub null : Value
  pub empty_array : Value
  pub of_string : String → Value
  pub of_bool : Bool → Value
  pub of_number : ℕ → Value
  -- `ret[key] = v` on null or on an object
  pub set : String → Value → Value → Value
  -- `array.append(v)`
  pub append : Value → Value → Value
  pub is_null : Value → Bool
  pub is_string : Value → Bool
  pub is_bool : Value → Bool
  pub is_object : Value → Bool
  -- `v.isMember(key)` and the const `v[key]`; both throw LogicError where `v` is neither null nor an
  -- object
  pub is_member : Value → String → Result Bool
  pub index : Value → String → Result Value
  -- `v.asString()`; throws on an array or an object
  pub as_string : Value → Result String
  -- `v.asBool()`; throws on a text, an array or an object
  pub as_bool : Value → Result Bool
  -- Json::writeString and Json::parseFromStream
  pub write : Value → String
  pub parse : String → Option Value

-- The documented behaviour that the theorems rely on: members are looked up on an object without an
-- exception, and a string is read as one.
pub record Laws (json : JsonLib) : Type 0 where
  pub index-object :
      (v : json.Value) (key : String)
      → json.is_object v ≡ true
      → (w : json.Value) × (json.index v key ≡ ok w)
  pub as_string-string :
      (v : json.Value) → json.is_string v ≡ true → (s : String) × (json.as_string v ≡ ok s)
  pub as_bool-bool : (v : json.Value) → json.is_bool v ≡ true → (b : Bool) × (json.as_bool v ≡ ok b)

-- The documented behaviour of an object under construction: a member that is set is there with its
-- value and changes no other, and a value of a text or of a truth is read back as that.
pub record Objects (json : JsonLib) : Type 0 where
  pub is_object-set :
      (k : String) (w v : json.Value)
      → (json.is_null v || json.is_object v) ≡ true
      → json.is_object (json.set k w v) ≡ true
  pub is_member-set_self :
      (k : String) (w v : json.Value)
      → (json.is_null v || json.is_object v) ≡ true
      → json.is_member (json.set k w v) k ≡ ok true
  pub is_member-set_other :
      (k j : String) (w v : json.Value)
      → (json.is_null v || json.is_object v) ≡ true
      → str_eq k j ≡ false
      → json.is_member (json.set k w v) j ≡ json.is_member v j
  pub index-set_self :
      (k : String) (w v : json.Value)
      → (json.is_null v || json.is_object v) ≡ true
      → json.index (json.set k w v) k ≡ ok w
  pub index-set_other :
      (k j : String) (w v : json.Value)
      → (json.is_null v || json.is_object v) ≡ true
      → str_eq k j ≡ false
      → json.index (json.set k w v) j ≡ json.index v j
  pub is_null-null : json.is_null json.null ≡ true
  pub is_null-of_string : (s : String) → json.is_null (json.of_string s) ≡ false
  pub is_null-of_bool : (b : Bool) → json.is_null (json.of_bool b) ≡ false
  pub as_string-of_string : (s : String) → json.as_string (json.of_string s) ≡ ok s
  pub as_bool-of_bool : (b : Bool) → json.as_bool (json.of_bool b) ≡ ok b

-- What is written reads back, and no value is written as the empty text.
pub record RoundTrip (json : JsonLib) : Type 0 where
  pub parse-write : (v : json.Value) → json.parse (json.write v) ≡ some v
  pub write-ne-empty : (v : json.Value) → is_empty (json.write v) ≡ false
