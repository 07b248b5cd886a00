-- ===== src/Models/Column.antt =====
-- What the models of models/ have in common: a column is a nullable pointer (`name_`) with its flag
-- (`dirtyFlag_[1]`), and an argument bound to a statement is null or a value.
use drogon_api_starter.Prelude.{
  ℕ, ◌≡◌, refl, ap, String, Bool, true, false, Option, none, some, List, [], ◌∷◌, ◌++◌,
  if◌then◌else◌, get_elem?, map,
}
use drogon_api_starter.Text.{is_empty}
use drogon_api_starter.Json.{JsonLib}

pub record Column (A : Type 0) : Type 0 where
  pub value : Option A
  pub dirty : Bool

-- The pointer is null and the flag is off, as a new object has them.
abbrev pub unset : {A : Type 0} → Column A
unset = record { value = none; dirty = false }

-- `name_ = make_shared(v); dirtyFlag_[i] = true`
abbrev pub set_value : {A : Type 0} → A → Column A
set_value v = record { value = some v; dirty = true }

-- `name_.reset(); dirtyFlag_[i] = true`
abbrev pub set_null : {A : Type 0} → Column A
set_null = record { value = none; dirty = true }

-- `if (name_) return *name_; return defaultValue`
abbrev pub value_or : {A : Type 0} → Column A → A → A
value_or c d = elim c.value [ none ↦ d | some v ↦ v ]

-- An argument of a statement, where `binder << nullptr` binds `nullptr`.
pub data Sql (Date : Type 0) : Type 0 where
  nullptr : Sql Date
  text : String → Sql Date
  truth : Bool → Sql Date
  date : Date → Sql Date

module _ {Date : Type 0} where
  abbrev pub argument : {A : Type 0} → (A → Sql Date) → Column A → Sql Date
  argument f c = elim c.value [ none ↦ nullptr | some v ↦ f v ]

  -- `if (dirtyFlag_[i]) { if (getName()) binder << getValueOfName(); else binder << nullptr; }`
  abbrev pub bind : {A : Type 0} → (A → Sql Date) → Column A → List (Sql Date)
  bind f c = if c.dirty then argument f c ∷ [] else []

-- `if (getName()) ret["name"] = getValueOfName(); else ret["name"] = Json::Value();`
abbrev pub write_column :
    (json : JsonLib) {A : Type 0} → String → (A → json.Value) → Column A → json.Value → json.Value
write_column json key f c ret = json.set key (elim c.value [ none ↦ json.null | some v ↦ f v ]) ret

-- The same after `if (!name.empty())`.
abbrev pub write_masked :
    (json : JsonLib) {A : Type 0} → String → (A → json.Value) → Column A → json.Value → json.Value
write_masked json key f c ret = if is_empty key then ret else write_column json key f c ret

-- A row of `metaData_`.
pub record MetaData : Type 0 where
  pub col_name : String
  pub col_type : String
  pub col_database_type : String
  pub col_length : ℕ
  pub is_auto_val : Bool
  pub is_primary_key : Bool
  pub not_null : Bool

abbrev pub name_at : List MetaData → ℕ → String
name_at ms i = elim (get_elem? ms i) [ none ↦ "" | some m ↦ m.col_name ]

-- `if (dirtyFlag_[i]) ret.push_back(getColumnName(i));`
abbrev pub name_if : List MetaData → Bool → ℕ → List String
name_if ms dirty i = if dirty then name_at ms i ∷ [] else []

-- The columns of a row that are to be written: their names with their arguments, in the table's
-- order.
abbrev pub dirty_entries {ℓ} : {A : Type ℓ} → List MetaData → List (Bool × A) → List (String × A)
dirty_entries [] xs = []
dirty_entries (m ∷ ms) [] = []
dirty_entries (m ∷ ms) ((dirty, a) ∷ xs) =
    if dirty then (m.col_name, a) ∷ dirty_entries ms xs else dirty_entries ms xs

abbrev pub name_of {ℓ} : {A : Type ℓ} → String × A → String
name_of (name, a) = name

abbrev pub argument_of {ℓ} : {A : Type ℓ} → String × A → A
argument_of (name, a) = a

-- The same, taken one column at a time.
abbrev pub names {ℓ} : {A : Type ℓ} → List MetaData → List (Bool × A) → List String
names [] xs = []
names (m ∷ ms) [] = []
names (m ∷ ms) ((dirty, a) ∷ xs) = (if dirty then m.col_name ∷ [] else []) ++ names ms xs

abbrev pub arguments {ℓ} : {A : Type ℓ} → List MetaData → List (Bool × A) → List A
arguments [] xs = []
arguments (m ∷ ms) [] = []
arguments (m ∷ ms) ((dirty, a) ∷ xs) = (if dirty then a ∷ [] else []) ++ arguments ms xs

pub map-names {ℓ} :
    {A : Type ℓ} (ms : List MetaData) (xs : List (Bool × A))
    → map name_of (dirty_entries ms xs) ≡ names ms xs
map-names [] xs = refl
map-names (m ∷ ms) [] = refl
map-names (m ∷ ms) ((true, a) ∷ xs) = ap (λ ns. m.col_name ∷ ns) (map-names ms xs)
map-names (m ∷ ms) ((false, a) ∷ xs) = map-names ms xs

pub map-arguments {ℓ} :
    {A : Type ℓ} (ms : List MetaData) (xs : List (Bool × A))
    → map argument_of (dirty_entries ms xs) ≡ arguments ms xs
map-arguments [] xs = refl
map-arguments (m ∷ ms) [] = refl
map-arguments (m ∷ ms) ((true, a) ∷ xs) = ap (λ rest. a ∷ rest) (map-arguments ms xs)
map-arguments (m ∷ ms) ((false, a) ∷ xs) = map-arguments ms xs
