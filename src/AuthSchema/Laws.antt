-- ===== src/AuthSchema/Laws.antt =====
-- schemas/AuthSchema.cc: which bodies have no errors.
use drogon_api_starter.Prelude.{
  ◌≡◌, ◌↔◌, refl, ap, ◌∙◌, ◌⊎◌, inl, inr, String, Bool, true, false, not, List, [], ◌∷◌, ◌++◌,
  if◌then◌else◌, All,
}
use drogon_api_starter.Text.{is_empty}
use drogon_api_starter.Result.{ok, ◌>>=◌, >>=-eq-ok}
use drogon_api_starter.Json.{JsonLib}
use drogon_api_starter.AuthSchema.{Schema, field_error, is_wrong, field_errors, validate}

same : {b c : Bool} → ok b ≡ ok c → b ≡ c
same h = cc

no_error : (wrong : Bool) (e : String) → ok (if wrong then e ∷ [] else []) ≡ ok [] → wrong ≡ false
no_error true e h = cc
no_error false e h = refl

module _ (json : JsonLib) (body : json.Value) where
  -- The body has a member of that name, which is a text that is not empty.
  abbrev pub IsFilled : String → Type 0
  IsFilled name =
      (v : json.Value) × (text : String) × (json.is_member body name ≡ ok true)
      × (json.index body name ≡ ok v)
      × (json.is_string v ≡ true)
      × (json.as_string v ≡ ok text)
      × (is_empty text ≡ false)

  abbrev pub IsRight : String × Bool → Type 0
  IsRight (name, required) = (required ≡ false) ⊎ IsFilled name

  -- What the tests that come after a member is found say of it.
  string-IsFilled :
      (name : String) (v : json.Value) (string : Bool)
      → json.is_member body name ≡ ok true
      → json.index body name ≡ ok v
      → json.is_string v ≡ string
      → (if not string then ok true else (json.as_string v >>= λ text. ok (is_empty text)))
        ≡ ok false
      → IsFilled name
  string-IsFilled name v false member at is_string h = cc
  string-IsFilled name v true member at is_string h =
      let (text, read, full) = >>=-eq-ok (json.as_string v) _ h in
      (v, text, member, at, is_string, read, same full)

  found-IsFilled :
      (name : String) (found : Bool)
      → json.is_member body name ≡ ok found
      → (if not found
          then ok true
          else (json.index body name >>= λ v.
              if not (json.is_string v)
              then ok true
              else (json.as_string v >>= λ text. ok (is_empty text))))
        ≡ ok false
      → IsFilled name
  found-IsFilled name false member h = cc
  found-IsFilled name true member h =
      let (v, at, rest) = >>=-eq-ok (json.index body name) _ h in
      string-IsFilled name v (json.is_string v) member at refl rest

  is_wrong-IsFilled : (name : String) → is_wrong json body name ≡ ok false → IsFilled name
  unfolding is_wrong
  is_wrong-IsFilled name h =
      let (found, member, rest) = >>=-eq-ok (json.is_member body name) _ h in
      found-IsFilled name found member rest

  IsFilled-is_wrong : (name : String) → IsFilled name → is_wrong json body name ≡ ok false
  unfolding is_wrong
  IsFilled-is_wrong name (v, text, member, at, string, read, full) =
      rw (member, at, string, read, full) refl

  field_errors-IsRight :
      (name : String) (required : Bool)
      → field_errors json body name required ≡ ok []
      → IsRight (name, required)
  unfolding field_errors
  field_errors-IsRight name false h = inl refl
  field_errors-IsRight name true h =
      let (wrong, test, errors) = >>=-eq-ok (is_wrong json body name) _ h in
      inr (is_wrong-IsFilled name (test ∙ ap ok (no_error wrong (field_error name) errors)))

  IsRight-field_errors :
      (name : String) (required : Bool)
      → IsRight (name, required)
      → field_errors json body name required ≡ ok []
  unfolding field_errors
  IsRight-field_errors name required (inl e) = rw e refl
  IsRight-field_errors name false (inr filled) = refl
  IsRight-field_errors name true (inr filled) = rw (IsFilled-is_wrong name filled) refl

  both_empty : (xs ys : List String) → ok (xs ++ ys) ≡ ok [] → (xs ≡ []) × (ys ≡ [])
  both_empty [] [] h = (refl, refl)
  both_empty [] (y ∷ ys) h = cc
  both_empty (x ∷ xs) ys h = cc

  -- `validate` of schemas/AuthSchema.cc comes back without an error exactly if the body has a text
  -- that is not empty for every required field.
  pub validate-no_errors_iff :
      (schema : Schema) → (validate json body schema ≡ ok []) ↔ All IsRight schema
  unfolding validate
  validate-no_errors_iff [] = ((λ _. tt), (λ _. refl))
  validate-no_errors_iff ((name, required) ∷ fields) = (
    (λ h.
        let (errors, first, h₁) = >>=-eq-ok (field_errors json body name required) _ h in
        let (rest, second, h₂) = >>=-eq-ok (validate json body fields) _ h₁ in
        let (none_first, none_rest) = both_empty errors rest h₂ in
        (
          field_errors-IsRight name required (first ∙ ap ok none_first),
          (validate-no_errors_iff fields).0 (second ∙ ap ok none_rest),
        )),
    (λ right.
        rw (IsRight-field_errors name required right.0, (validate-no_errors_iff fields).1 right.1)
          refl),
  )
