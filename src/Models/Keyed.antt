-- ===== src/Models/Keyed.antt =====
-- models/: what the models of the join tables have in common, whose rows the database gives no key.
use text.Mathlib.TextLemmas.{append_assoc, append-nil}
use drogon_api_starter.Prelude.{
  ℕ, suc, ◌+◌, ◌≡◌, refl, inl, inr, String, Bool, true, false, List, [], ◌∷◌, length, ltb,
  if◌then◌else◌, All, arith,
}
use drogon_api_starter.Text.{◌++◌}
use drogon_api_starter.Result.{Result, ok, err, ◌>>=◌, >>=-eq-ok}
use drogon_api_starter.Json.{JsonLib}
use drogon_api_starter.Models.Column.{MetaData}
use drogon_api_starter.Models.Fields.{
  Check, accepted, refused, cannot_be_null, and_then, and_then-accepted, on_member, check_column,
}
use drogon_api_starter.Models.Insertion.{
  Statement, columns_if, placeholders_if, open_values, close_values, join, flagged, numbered,
  column_if, terminated, columns_if-sql, placeholders_if-sql, drop_last-terminated,
}
use drogon_api_starter.Models.Reading.Given.{IsFitting}

module _ (json : JsonLib) where
  -- What creating a row asks of a body: each column's member, where there is one, fits the column,
  -- and only a nullable column is left out.
  unfoldable pub check_required : List MetaData → json.Value → Result Check
  check_required [] v = ok accepted
  check_required (m ∷ ms) v =
      and_then
        (on_member json (check_column json m) m.col_name v
          (ok (if m.not_null then refused (cannot_be_null m.col_name) else accepted)))
        (check_required ms v)

  fitting :
      (v : json.Value) (m : MetaData) (member : Result Bool)
      → json.is_member v m.col_name ≡ member
      → (member >>= λ found.
          if found
          then (json.index v m.col_name >>= check_column json m m.col_name)
          else ok (if m.not_null then refused (cannot_be_null m.col_name) else accepted))
        ≡ ok accepted
      → IsFitting json v m
  fitting v m (err e) found h = cc
  fitting v m (ok true) found h =
      let (w, at, fit) = >>=-eq-ok (json.index v m.col_name) (check_column json m m.col_name) h in
      inl (w, found, at, fit)
  fitting v m (ok false) found h = inr found

  pub check_required-accepted :
      (ms : List MetaData) (v : json.Value)
      → check_required ms v ≡ ok accepted
      → All (IsFitting json v) ms
  unfolding check_required
  check_required-accepted [] v h = tt
  check_required-accepted (m ∷ ms) v h =
      let (first, rest) = and_then-accepted json _ _ h in
      (fitting v m (json.is_member v m.col_name) refl first, check_required-accepted ms v rest)

-- The columns that are listed, and a placeholder for each.
abbrev pub keyed_text : String → List (Bool × String) → String
keyed_text start xs =
    ((((start ++ join (flagged xs)) ++ ")") ++ " values (") ++ join (numbered 1 xs)) ++ ")"

abbrev pub keyed_columns : String → List (Bool × String) → Statement
keyed_columns start xs = columns_if xs (record { sql = start; number = 0 })

columns_if-number :
    (xs : List (Bool × String)) (s : Statement)
    → (columns_if xs s).number ≡ s.number + length (flagged xs)
unfolding column_if
columns_if-number [] s = omega arith
columns_if-number ((true, name) ∷ xs) s =
    omega (arith, columns_if-number xs (column_if true name s))
columns_if-number ((false, name) ∷ xs) s = columns_if-number xs s

numbered-flagged :
    (n : ℕ) (xs : List (Bool × String)) → length (numbered n xs) ≡ length (flagged xs)
numbered-flagged n [] = refl
numbered-flagged n ((true, name) ∷ xs) = omega (arith, numbered-flagged (suc n) xs)
numbered-flagged n ((false, name) ∷ xs) = numbered-flagged n xs

-- The end of the statement, from the columns and the placeholders that were written, each with a
-- comma.
closed :
    (start placed : String) (columns : Statement) (names places : List String)
    → columns.sql ≡ start ++ terminated names
    → columns.number ≡ length names
    → length places ≡ length names
    → placed ≡ open_values columns ++ terminated places
    → close_values columns true placed
      ≡ (((((start ++ join names) ++ ")") ++ " values (") ++ join places) ++ ")", false)
unfolding close_values open_values join
closed start placed columns [] [] text number same end =
    let none_counted : ltb 0 columns.number ≡ false = ground (arith, number) in
    rw (none_counted, end, none_counted, text) (simp (append_assoc, append-nil))
closed start placed columns (x ∷ xs) (y ∷ ys) text number same end =
    let some_counted : ltb 0 columns.number ≡ true = ground (arith, number) in
    rw
      (
        some_counted,
        end,
        some_counted,
        text,
        drop_last-terminated start x xs,
        drop_last-terminated ((((start ++ join (x ∷ xs)) ++ ")") ++ " values (")) y ys,
      )
      refl
closed start placed columns [] (y ∷ ys) text number same end = ground (arith, same)
closed start placed columns (x ∷ xs) [] text number same end = ground (arith, same)

pub keyed_statement-eq :
    (start : String) (xs : List (Bool × String))
    → close_values
        (keyed_columns start xs)
        true
        (placeholders_if xs (record { sql = open_values (keyed_columns start xs); number = 1 })).sql
      ≡ (keyed_text start xs, false)
keyed_statement-eq start xs =
    let (text, _) = columns_if-sql xs (record { sql = start; number = 0 }) in
    closed start _ (keyed_columns start xs) (flagged xs) (numbered 1 xs) text
      (omega (arith, columns_if-number xs (record { sql = start; number = 0 })))
      (numbered-flagged 1 xs)
      (placeholders_if-sql xs (record { sql = open_values (keyed_columns start xs); number = 1 }))
