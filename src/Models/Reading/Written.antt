-- ===== src/Models/Reading/Written.antt =====
-- models/: what is read of an object that toJson wrote.
use drogon_api_starter.Prelude.{
  ◌≡◌, refl, sym, ap, ◌∙◌, String, Bool, true, false, ◌||◌, Option, none, some, List, [], ◌∷◌,
  if◌then◌else◌, Bool-cases, inl, inr, str_eq, arith, eq_iff,
}
use drogon_api_starter.Result.{Result, ok}
use drogon_api_starter.Json.{JsonLib, Objects}
use drogon_api_starter.Models.Column.{Column, unset}
use drogon_api_starter.Models.Dates.{DateLib}
use drogon_api_starter.Models.Dates.Laws.{IsWritten, read_date-written}
use drogon_api_starter.Models.Reading.{read_column, text_value, bool_value, date_value}

-- The column with its flag on.
abbrev pub dirtied : {A : Type 0} → Column A → Column A
dirtied c = record c { dirty = true }

-- Every date that the column may hold is written in full.
abbrev IsWrittenIn : (dates : DateLib) → Option dates.Date → Type 0
IsWrittenIn dates none = Unit
IsWrittenIn dates (some d) = IsWritten dates d

abbrev pub IsWrittenOut : (dates : DateLib) → Column dates.Date → Type 0
IsWrittenOut dates c = IsWrittenIn dates c.value

pub some-injective {ℓ} : {A : Type ℓ} {a b : A} → Path (Option A) (some a) (some b) → a ≡ b
some-injective h = cc

module _ (json : JsonLib) where
  -- The members that were set, the last one first.
  abbrev pub set_all : List (String × json.Value) → json.Value
  set_all [] = json.null
  set_all ((k, w) ∷ ws) = json.set k w (set_all ws)

  abbrev pub member_of : String → List (String × json.Value) → Option json.Value
  member_of j [] = none
  member_of j ((k, w) ∷ ws) = if str_eq k j then some w else member_of j ws

  abbrev pub written : {A : Type 0} → (A → json.Value) → Option A → json.Value
  written f o = elim o [ none ↦ json.null | some a ↦ f a ]

  module _ (laws : Objects json) where
    set_all-object :
        (ws : List (String × json.Value))
        → (json.is_null (set_all ws) || json.is_object (set_all ws)) ≡ true
    set_all-object [] = rw laws.is_null-null refl
    set_all-object ((k, w) ∷ ws) =
        rw (laws.is_object-set k w (set_all ws) (set_all-object ws)) (ground arith)

    pub found :
        (j : String) (ws : List (String × json.Value)) {w : json.Value}
        → member_of j ws ≡ some w
        → (json.is_member (set_all ws) j ≡ ok true) × (json.index (set_all ws) j ≡ ok w)
    found j [] {w} h = absurd (cc)
    found j ((k, u) ∷ ws) {w} h = elim (Bool-cases (str_eq k j)) [
      | inl e ↦
          let same : j ≡ k = sym ((eq_iff k j).0 e) in
          let value : u ≡ w = some-injective (rw e at h) in
          (
            ap (json.is_member (json.set k u (set_all ws))) same
                ∙ laws.is_member-set_self k u (set_all ws) (set_all-object ws),
            ap (json.index (json.set k u (set_all ws))) same
                ∙ laws.index-set_self k u (set_all ws) (set_all-object ws)
                ∙ ap ok value,
          )
      | inr e ↦
          let (m, i) = found j ws (rw e at h) in
          (
            laws.is_member-set_other k j u (set_all ws) (set_all-object ws) e ∙ m,
            laws.index-set_other k j u (set_all ws) (set_all-object ws) e ∙ i,
          )
    ]

    module _ {A : Type 0} (f : A → json.Value) (convert : json.Value → Result (Option A)) where
      read_option :
          (o : Option A) (v : json.Value) (name : String)
          → ((a : A) → o ≡ some a → (json.is_null (f a) ≡ false) × (convert (f a) ≡ ok (some a)))
          → json.is_member v name ≡ ok true
          → json.index v name ≡ ok (written f o)
          → read_column json convert true name v unset ≡ (ok tt, record { value = o; dirty = true })
      unfolding read_column
      read_option none v name back m i = rw (m, i, laws.is_null-null) refl
      read_option (some a) v name back m i = let (n, e) = back a refl in rw (m, i, n, e) refl

    pub text-read :
        (c : Column String) (name : String) (ws : List (String × json.Value))
        → member_of name ws ≡ some (written json.of_string c.value)
        → read_column json (text_value json) true name (set_all ws) unset ≡ (ok tt, dirtied c)
    text-read c name ws h =
        let (m, i) = found name ws h in
        read_option json.of_string (text_value json) c.value (set_all ws) name
          (λ s _. (laws.is_null-of_string s, rw (laws.as_string-of_string s) refl)) m i

    pub bool-read :
        (c : Column Bool) (name : String) (ws : List (String × json.Value))
        → member_of name ws ≡ some (written json.of_bool c.value)
        → read_column json (bool_value json) true name (set_all ws) unset ≡ (ok tt, dirtied c)
    bool-read c name ws h =
        let (m, i) = found name ws h in
        read_option json.of_bool (bool_value json) c.value (set_all ws) name
          (λ b _. (laws.is_null-of_bool b, rw (laws.as_bool-of_bool b) refl)) m i

    date_back :
        (dates : DateLib) (o : Option dates.Date)
        → IsWrittenIn dates o
        → (d : dates.Date) → o ≡ some d
        → IsWritten dates d
    date_back dates none h d e = absurd (cc)
    date_back dates (some x) h d e = rw (sym (some-injective e)) h

    pub date-read :
        (dates : DateLib) (c : Column dates.Date) (name : String) (ws : List (String × json.Value))
        → IsWrittenOut dates c
        → member_of name ws
          ≡ some (written (λ d. json.of_string (dates.to_db_string_local d)) c.value)
        → read_column json (date_value json dates) true name (set_all ws) unset ≡ (ok tt, dirtied c)
    date-read dates c name ws full h =
        let (m, i) = found name ws h in
        read_option (λ d. json.of_string (dates.to_db_string_local d)) (date_value json dates)
          c.value (set_all ws) name
          (λ d e. (
            laws.is_null-of_string _,
            rw
                (
                  laws.as_string-of_string _,
                  read_date-written dates d (date_back dates c.value full d e),
                )
                refl,
          ))
          m i
