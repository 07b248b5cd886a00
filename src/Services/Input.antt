-- ===== src/Services/Input.antt =====
-- services/: the string members that both services ask of a body, one at a time.
use drogon_api_starter.Prelude.{◌≡◌, refl, ◌⊎◌, inl, inr, String, true, if◌then◌else◌, Bool-cases}
use drogon_api_starter.Result.{Exception, Result, ok, err, ◌>>=◌}
use drogon_api_starter.Json.{JsonLib, Laws}

module _ (json : JsonLib) where
  -- `!input[key].isString() ||`, before the tests that follow
  abbrev pub string_at : Exception → json.Value → String → Result (Unit {0}) → Result (Unit {0})
  string_at missing input key rest =
      json.index input key >>= λ v. if json.is_string v then rest else err missing

  -- `input[key].asString()`
  abbrev pub text_at : json.Value → String → Result String
  text_at input key = json.index input key >>= json.as_string

  -- A body's member is a string with this text.
  abbrev pub HasText : json.Value → String → String → Type 0
  HasText input key text =
      (v : json.Value) × (json.index input key ≡ ok v)
      × (json.is_string v ≡ true)
      × (json.as_string v ≡ ok text)

  pub text_at-eq :
      (input : json.Value) (key text : String)
      → HasText input key text
      → text_at input key ≡ ok text
  text_at-eq input key text (v, at, string, read) = rw (at) read

  module _ (laws : Laws json) (input : json.Value) (object : json.is_object input ≡ true) where
    -- The test of a member of an object goes on, with its text, or the member is no string and the body
    -- is refused.
    pub string_at-cases :
        (missing : Exception) (key : String) (rest : Result (Unit {0}))
        → ((text : String) × HasText input key text × (string_at missing input key rest ≡ rest))
          ⊎ (((text : String) → HasText input key text → ⊥)
              × (string_at missing input key rest ≡ err missing))
    string_at-cases missing key rest =
        let (v, at) = laws.index-object input key object in
        elim (Bool-cases (json.is_string v)) [
          | inl string ↦
              let (text, read) = laws.as_string-string v string in
              inl (text, (v, at, string, read), rw (at, string) refl)
          | inr other ↦ inr (λ text (w, at', string, read). cc, rw (at, other) refl)
        ]
