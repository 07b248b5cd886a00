-- ===== src/Models/Insertion.antt =====
-- What the `sqlForInserting` functions of models/ have in common: the statement that grows by one
-- column or one placeholder at a time, each followed by a comma, and the text it ends up as.
use text.Mathlib.TextLemmas.{append_assoc, append-nil}
use drogon_api_starter.Prelude.{
  ℕ, suc, ◌≤◌, ◌≡◌, refl, ap, sym, ◌∙◌, String, Bool, true, false, List, [], ◌∷◌, arith, ltb,
  if◌then◌else◌,
}
use drogon_api_starter.Text.{◌++◌, drop_last, drop_last-append}
use drogon_api_starter.Text.Number.{to_string}

-- The text so far, with `parametersCount` or with the next `placeholder`.
pub record Statement : Type 0 where
  pub sql : String
  pub number : ℕ

-- `if (dirtyFlag_[i]) { sql += "name,"; ++parametersCount; }`
unfoldable pub column_if : Bool → String → Statement → Statement
column_if dirty name s =
    if dirty then record { sql = s.sql ++ (name ++ ","); number = suc s.number } else s

-- `if (dirtyFlag_[i]) { n = snprintf(placeholderStr, ..., "$%d,", placeholder++); sql.append(...); }`
unfoldable pub placeholder_if : Bool → Statement → Statement
placeholder_if dirty s =
    if dirty
    then record { sql = s.sql ++ (("$" ++ to_string s.number) ++ ","); number = suc s.number }
    else s

-- The texts of a list, with commas between them.
unfoldable pub join : List String → String
join [] = ""
join (x ∷ []) = x
join (x ∷ y ∷ xs) = x ++ ("," ++ join (y ∷ xs))

-- The names that have their flag on.
abbrev pub flagged : List (Bool × String) → List String
flagged [] = []
flagged ((dirty, name) ∷ xs) = if dirty then name ∷ flagged xs else flagged xs

-- `$n`, `$n+1`, ... for the flags that are on.
abbrev pub numbered : ℕ → List (Bool × String) → List String
numbered n [] = []
numbered n ((dirty, name) ∷ xs) =
    if dirty then ("$" ++ to_string n) ∷ numbered (suc n) xs else numbered n xs

-- The texts of a list, with a comma after each.
abbrev pub terminated : List String → String
terminated [] = ""
terminated (x ∷ xs) = (x ++ ",") ++ terminated xs

abbrev pub columns_if : List (Bool × String) → Statement → Statement
columns_if [] s = s
columns_if ((dirty, name) ∷ xs) s = columns_if xs (column_if dirty name s)

abbrev pub placeholders_if : List (Bool × String) → Statement → Statement
placeholders_if [] s = s
placeholders_if ((dirty, name) ∷ xs) s = placeholders_if xs (placeholder_if dirty s)

pub columns_if-sql :
    (xs : List (Bool × String)) (s : Statement)
    → ((columns_if xs s).sql ≡ s.sql ++ terminated (flagged xs))
      × (s.number ≤ (columns_if xs s).number)
unfolding column_if
columns_if-sql [] s = (sym (append-nil s.sql), omega arith)
columns_if-sql ((true, name) ∷ xs) s =
    let (text, le) = columns_if-sql xs (column_if true name s) in
    (text ∙ append_assoc s.sql (name ++ ",") (terminated (flagged xs)), omega (arith, le))
columns_if-sql ((false, name) ∷ xs) s = columns_if-sql xs s

pub placeholders_if-sql :
    (xs : List (Bool × String)) (s : Statement)
    → (placeholders_if xs s).sql ≡ s.sql ++ terminated (numbered s.number xs)
unfolding placeholder_if
placeholders_if-sql [] s = sym (append-nil s.sql)
placeholders_if-sql ((true, name) ∷ xs) s =
    placeholders_if-sql xs (placeholder_if true s)
    ∙ append_assoc s.sql (("$" ++ to_string s.number) ++ ",")
        (terminated (numbered (suc s.number) xs))
placeholders_if-sql ((false, name) ∷ xs) s = placeholders_if-sql xs s

terminated-join : (x : String) (xs : List String) → terminated (x ∷ xs) ≡ join (x ∷ xs) ++ ","
unfolding join
terminated-join x [] = append-nil (x ++ ",")
terminated-join x (y ∷ xs) = rw (terminated-join y xs) (simp append_assoc)

-- `sql.resize(sql.length() - 1)` takes the last comma away.
pub drop_last-terminated :
    (before x : String) (xs : List String)
    → drop_last (before ++ terminated (x ∷ xs)) ≡ before ++ join (x ∷ xs)
drop_last-terminated before x xs =
    rw (terminated-join x xs, sym (append_assoc before (join (x ∷ xs)) ","))
      (drop_last-append _ (before ++ join (x ∷ xs)))

-- `if (parametersCount > 0) sql[sql.length()-1]=')'; ... values (`
unfoldable pub open_values : Statement → String
open_values columns =
    if ltb 0 columns.number
    then (drop_last columns.sql ++ ")") ++ " values ("
    else columns.sql ++ ") values ("

-- The placeholder of the primary key, which is `default` where its flag is off.
unfoldable pub first_placeholder : Bool → String → Statement
first_placeholder dirty sql =
    if dirty
    then record { sql = sql ++ "$1,"; number = 2 }
    else record { sql = sql ++ "default,"; number = 1 }

-- `if (parametersCount > 0) sql.resize(sql.length() - 1)`, then `) returning *` or `)`
unfoldable pub close_values : Statement → Bool → String → String × Bool
close_values columns dirty sql =
    let listed = if ltb 0 columns.number then drop_last sql else sql in
    if dirty then (listed ++ ")", false) else (listed ++ ") returning *", true)

-- The columns and the placeholders that a statement has, the primary key's first.
abbrev pub placeholders : Bool → List (Bool × String) → List String
placeholders dirty xs = if dirty then "$1" ∷ numbered 2 xs else "default" ∷ numbered 1 xs

abbrev pub statement_text : String → Bool → List (Bool × String) → String
statement_text start dirty xs =
    (((start ++ join ("id" ∷ flagged xs)) ++ ")") ++ " values (") ++ join (placeholders dirty xs)

abbrev start_columns : String → List (Bool × String) → Statement
start_columns start xs = columns_if xs (record { sql = start ++ "id,"; number = 1 })

counted :
    (start : String) (xs : List (Bool × String)) → ltb 0 (start_columns start xs).number ≡ true
counted start xs =
    let (_, le) = columns_if-sql xs (record { sql = start ++ "id,"; number = 1 }) in
    ground (arith, le)

open_values-eq :
    (start : String) (xs : List (Bool × String))
    → open_values (start_columns start xs)
      ≡ ((start ++ join ("id" ∷ flagged xs)) ++ ")") ++ " values ("
unfolding open_values
open_values-eq start xs =
    let (text, _) = columns_if-sql xs (record { sql = start ++ "id,"; number = 1 }) in
    rw
      (
        counted start xs,
        text,
        append_assoc start "id," (terminated (flagged xs)),
        drop_last-terminated start "id" (flagged xs),
      )
      refl

close_values-eq :
    (columns : Statement) (dirty : Bool) (sql : String)
    → ltb 0 columns.number ≡ true
    → close_values columns dirty sql
      ≡ (if dirty then (drop_last sql ++ ")", false) else (drop_last sql ++ ") returning *", true))
unfolding close_values
close_values-eq columns dirty sql h = rw h refl

listed_placeholders :
    (dirty : Bool) (opened : String) (xs : List (Bool × String))
    → drop_last (placeholders_if xs (first_placeholder dirty opened)).sql
      ≡ opened ++ join (placeholders dirty xs)
unfolding first_placeholder
listed_placeholders true opened xs =
    ap drop_last (
      placeholders_if-sql xs (first_placeholder true opened)
      ∙ append_assoc opened "$1," (terminated (numbered 2 xs)))
    ∙ drop_last-terminated opened "$1" (numbered 2 xs)
listed_placeholders false opened xs =
    ap drop_last (
      placeholders_if-sql xs (first_placeholder false opened)
      ∙ append_assoc opened "default," (terminated (numbered 1 xs)))
    ∙ drop_last-terminated opened "default" (numbered 1 xs)

-- The statement that the source builds is the text with the columns and the placeholders listed.
pub insert_statement-eq :
    (start : String) (dirty : Bool) (xs : List (Bool × String))
    → close_values
        (start_columns start xs)
        dirty
        (placeholders_if xs (first_placeholder dirty (open_values (start_columns start xs)))).sql
      ≡ (if dirty
          then (statement_text start dirty xs ++ ")", false)
          else (statement_text start dirty xs ++ ") returning *", true))
insert_statement-eq start dirty xs =
    close_values-eq (start_columns start xs) dirty _ (counted start xs)
    ∙ ap (λ t. if dirty then (t ++ ")", false) else (t ++ ") returning *", true))
        (listed_placeholders dirty (open_values (start_columns start xs)) xs
          ∙ ap (λ opened. opened ++ join (placeholders dirty xs)) (open_values-eq start xs))
