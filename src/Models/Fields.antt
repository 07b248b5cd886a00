-- ===== src/Models/Fields.antt =====
-- What the validJsonOfField and validateJson functions of models/ have in common: the blocks they are
-- written with, and the checks that a table's `metaData_` asks for.
use std.Path.{fun_ext}
use text.Mathlib.Text.{◌==◌ as str_eq}
use drogon_api_starter.Prelude.{
  ◌≡◌, refl, ap, ◌⊎◌, inl, inr, String, Bool, true, false, not, ◌&&◌, List, [], ◌∷◌, ltb,
  if◌then◌else◌, All, arith,
}
use drogon_api_starter.Text.{◌++◌, size}
use drogon_api_starter.Result.{Result, ok, err, ◌>>=◌, >>=-eq-ok}
use drogon_api_starter.Json.{JsonLib}
use drogon_api_starter.Models.Column.{MetaData}

-- The `bool` that a validation returns, with the `err` it sets where that is false.
pub data Check : Type 0 where
  accepted : Check
  refused : String → Check

abbrev pub cannot_be_null : String → String
cannot_be_null field = "The " ++ field ++ " column cannot be null"

abbrev pub type_error : String → String
type_error field = "Type error in the " ++ field ++ " field"

abbrev pub too_long : String → String
too_long field =
    "String length exceeds limit for the " ++ field ++ " field (the maximum value is 255)"

-- `if (!valid) return false;` before the rest
abbrev pub and_then : Result Check → Result Check → Result Check
and_then (ok accepted) rest = rest
and_then (ok (refused e)) rest = ok (refused e)
and_then (err e) rest = err e

module _ (json : JsonLib) where
  -- `if (pJson.isNull()) { err = ...; return false; }`
  abbrev pub required : String → json.Value → Result Check → Result Check
  required field v rest = if json.is_null v then ok (refused (cannot_be_null field)) else rest

  -- `if (pJson.isNull()) return true;`
  abbrev pub optional : json.Value → Result Check → Result Check
  optional v rest = if json.is_null v then ok accepted else rest

  -- `if (!pJson.isString()) { err = ...; return false; }`
  abbrev pub a_string : String → json.Value → Result Check → Result Check
  a_string field v rest = if not (json.is_string v) then ok (refused (type_error field)) else rest

  -- `if (!pJson.isBool()) { err = ...; return false; }`
  abbrev pub a_bool : String → json.Value → Result Check → Result Check
  a_bool field v rest = if not (json.is_bool v) then ok (refused (type_error field)) else rest

  -- `if (pJson.isString() && pJson.asString().length() > 255) { err = ...; return false; }`
  abbrev pub at_most_255 : String → json.Value → Result Check → Result Check
  at_most_255 field v rest =
      if json.is_string v
      then (json.as_string v >>= λ s.
          if ltb 255 (size s) then ok (refused (too_long field)) else rest)
      else rest

  -- `if (pJson.isMember(name)) { if (!validJsonOfField(i, name, pJson[name], err, ...)) return
  -- false; }` with the branch for a missing member
  abbrev pub on_member :
      (String → json.Value → Result Check) → String → json.Value → Result Check → Result Check
  on_member valid name v missing = json.is_member v name >>= λ found.
      if found then (json.index v name >>= valid name) else missing

  -- The rules that a row of `metaData_` states: a null only in a nullable column, a value of the
  -- column's type, and a text no longer than the column.
  abbrev fits : MetaData → String → json.Value → Result Check
  fits m field v =
      if str_eq m.col_type "bool"
      then (if json.is_bool v then ok accepted else ok (refused (type_error field)))
      else if json.is_string v
      then (if ltb 0 m.col_length
          then (json.as_string v >>= λ s.
              if ltb m.col_length (size s) then ok (refused (too_long field)) else ok accepted)
          else ok accepted)
      else ok (refused (type_error field))

  unfoldable pub check_column : MetaData → String → json.Value → Result Check
  check_column m field v =
      if json.is_null v
      then ok (if m.not_null then refused (cannot_be_null field) else accepted)
      else fits m field v

  -- What creating a row asks of a body: each column's member, where there is one, fits the column,
  -- and only a column with a default or a nullable one is left out.
  unfoldable pub check_creation : List MetaData → json.Value → Result Check
  check_creation [] v = ok accepted
  check_creation (m ∷ ms) v =
      and_then
        (on_member (check_column m) m.col_name v (
          ok (
            if m.not_null && not m.is_primary_key
            then refused (cannot_be_null m.col_name)
            else accepted)))
        (check_creation ms v)

  -- What updating a row asks: the primary key is there, and each member fits its column.
  unfoldable pub check_update : List MetaData → json.Value → Result Check
  check_update [] v = ok accepted
  check_update (m ∷ ms) v =
      and_then
        (on_member (check_column m) m.col_name v (
          ok (
            if m.is_primary_key
            then refused "The value of primary key must be set in the json object for update"
            else accepted)))
        (check_update ms v)

  -- A body's member for a column: it is there and the column takes it, or it is not and the column
  -- may be left out.
  abbrev pub IsGiven : json.Value → MetaData → Type 0
  IsGiven v m =
      ((w : json.Value) × (json.is_member v m.col_name ≡ ok true)
        × (json.index v m.col_name ≡ ok w)
        × (check_column m m.col_name w ≡ ok accepted))
      ⊎ ((json.is_member v m.col_name ≡ ok false) × ((m.not_null && not m.is_primary_key) ≡ false))

  abbrev pub IsUpdated : json.Value → MetaData → Type 0
  IsUpdated v m =
      ((w : json.Value) × (json.is_member v m.col_name ≡ ok true)
        × (json.index v m.col_name ≡ ok w)
        × (check_column m m.col_name w ≡ ok accepted))
      ⊎ ((json.is_member v m.col_name ≡ ok false) × (m.is_primary_key ≡ false))

  pub and_then-accepted :
      (r s : Result Check) → and_then r s ≡ ok accepted → (r ≡ ok accepted) × (s ≡ ok accepted)
  and_then-accepted (ok accepted) s h = (refl, h)
  and_then-accepted (ok (refused e)) s h = cc
  and_then-accepted (err e) s h = cc

  given :
      (v : json.Value) (m : MetaData) (member : Result Bool)
      → json.is_member v m.col_name ≡ member
      → (member >>= λ found.
          if found
          then (json.index v m.col_name >>= check_column m m.col_name)
          else ok (
              if m.not_null && not m.is_primary_key
              then refused (cannot_be_null m.col_name)
              else accepted))
        ≡ ok accepted
      → IsGiven v m
  given v m (err e) found h = cc
  given v m (ok true) found h =
      let (w, at, fit) = >>=-eq-ok (json.index v m.col_name) (check_column m m.col_name) h in
      inl (w, found, at, fit)
  given v m (ok false) found h = inr (found, ground arith)

  pub check_creation-accepted :
      (ms : List MetaData) (v : json.Value) → check_creation ms v ≡ ok accepted → All (IsGiven v) ms
  unfolding check_creation
  check_creation-accepted [] v h = tt
  check_creation-accepted (m ∷ ms) v h =
      let (first, rest) = and_then-accepted _ _ h in
      (given v m (json.is_member v m.col_name) refl first, check_creation-accepted ms v rest)

  -- The same for an update, which leaves out any column but the primary key.
  updated :
      (v : json.Value) (m : MetaData) (member : Result Bool)
      → json.is_member v m.col_name ≡ member
      → (member >>= λ found.
          if found
          then (json.index v m.col_name >>= check_column m m.col_name)
          else ok (
              if m.is_primary_key
              then refused "The value of primary key must be set in the json object for update"
              else accepted))
        ≡ ok accepted
      → IsUpdated v m
  updated v m (err e) found h = cc
  updated v m (ok true) found h =
      let (w, at, fit) = >>=-eq-ok (json.index v m.col_name) (check_column m m.col_name) h in
      inl (w, found, at, fit)
  updated v m (ok false) found h = inr (found, ground arith)

  pub check_update-accepted :
      (ms : List MetaData) (v : json.Value) → check_update ms v ≡ ok accepted → All (IsUpdated v) ms
  unfolding check_update
  check_update-accepted [] v h = tt
  check_update-accepted (m ∷ ms) v h =
      let (first, rest) = and_then-accepted _ _ h in
      (updated v m (json.is_member v m.col_name) refl first, check_update-accepted ms v rest)

pub and_then-eq : {a b c d : Result Check} → a ≡ b → c ≡ d → and_then a c ≡ and_then b d
and_then-eq p q = cc

module _ (json : JsonLib) {valid fits : String → json.Value → Result Check} where
  -- Two checks that agree on every value agree on a member.
  pub on_member-eq :
      ((field : String) (w : json.Value) → valid field w ≡ fits field w)
      → (name : String) (v : json.Value) (missing : Result Check)
      → on_member json valid name v missing ≡ on_member json fits name v missing
  on_member-eq same name v missing =
      ap (λ f. on_member json f name v missing) (fun_ext (λ field. fun_ext (λ w. same field w)))
