-- ===== src/Config/EnvFile.antt =====
-- config/AppConfig.cc: the .env file, the environment that overrides it, and `load`. A file is the
-- list of its lines, or `none` if it cannot be opened; the environment is a function.
use Prim.Native.Char.{code}
use Prim.Native.String.{[], ◌∷◌}
use text.Mathlib.TextLemmas.{nil-append, cons-append}
use drogon_api_starter.Prelude.{
  ◌≡◌, refl, ap, sym, ◌∙◌, String, Bool, false, ◌||◌, Option, none, some, List, map, All, arith,
  ◌==◌, str_eq, eq_iff, if◌then◌else◌, Option-cases, inl, inr,
}
use drogon_api_starter.Prelude.Dict.{lookup, insert, lookup-insert}
use drogon_api_starter.Text.{is_empty, split_at, Lacks, split_at-append, ◌++◌}
use drogon_api_starter.Result.{std_exception, Result, ok, err}

abbrev pub Values : Type 0
Values = List (String × String)

-- `line.front() == '#'`, for a line that is not empty
abbrev is_comment : String → Bool
is_comment [] = false
is_comment (c ∷ s) = code c == b'#'

abbrev assign : Option (String × String) → Values → Values
assign none values = values
assign (some (key, value)) values = if is_empty key then values else insert key value values

-- One round of the loop of `readEnvFile`.
unfoldable pub read_line : Values → String → Values
read_line values line =
    if is_empty line || is_comment line then values else assign (split_at b'=' line) values

unfoldable pub read_lines : Values → List String → Values
read_lines values List.[] = values
read_lines values (List.◌∷◌ line lines) = read_lines (read_line values line) lines

unfoldable pub read_env_file : String → Option (List String) → Result Values
read_env_file path none = err (std_exception ("Failed to open .env file: " ++ path))
read_env_file path (some lines) = ok (read_lines List.[] lines)

abbrev set_if : Option String → String → Values → Values
set_if none key values = values
set_if (some value) key values = insert key value values

unfoldable pub override_from_environment : (String → Option String) → Values → String → Values
override_from_environment getenv values key = set_if (getenv key) key values

-- The loop of `load` over its keys.
unfoldable pub override_all : (String → Option String) → Values → List String → Values
override_all getenv values List.[] = values
override_all getenv values (List.◌∷◌ key keys) =
    override_all getenv (override_from_environment getenv values key) keys

-- The line of an assignment.
abbrev pub format : String × String → String
format (key, value) = key ++ "=" ++ value

-- A key that the file can hold: not empty, no comment, and without an equals sign.
abbrev pub IsKey : String → Type 0
IsKey key = (is_empty key ≡ false) × (is_comment key ≡ false) × Lacks b'=' key

abbrev pub insert_all : Values → Values → Values
insert_all values List.[] = values
insert_all values (List.◌∷◌ (key, value) entries) = insert_all (insert key value values) entries

equals-append : (value : String) → "=" ++ value ≡ (◌∷◌ "=" value)
equals-append value = cons-append "=" [] value ∙ ap (◌∷◌ "=") (nil-append value)

format-split_at :
    (key value : String) → Lacks b'=' key → split_at b'=' (format (key, value)) ≡ some (key, value)
format-split_at key value h = rw (equals-append value) (split_at-append "=" key value h)

read_line-format :
    (values : Values) (key value : String)
    → IsKey key
    → read_line values (format (key, value)) ≡ insert key value values
unfolding read_line
read_line-format values [] value (n, c, l) = cc
read_line-format values (d ∷ key) value (n, c, l) =
    let first : (d ∷ key) ++ "=" ++ value ≡ d ∷ (key ++ "=" ++ value) =
      cons-append d key ("=" ++ value) in
    let parts : split_at b'=' (d ∷ (key ++ "=" ++ value)) ≡ some (d ∷ key, value) =
      ap (split_at b'=') (sym first) ∙ format-split_at (d ∷ key) value l in
    rw (first, c, parts)

-- Reading the lines of assignments to proper keys makes those assignments, in their order.
pub read_lines-format :
    (values entries : Values)
    → All (λ (e : String × String). IsKey e.0) entries
    → read_lines values (map format entries) ≡ insert_all values entries
unfolding read_lines
read_lines-format values List.[] h = refl
read_lines-format values (List.◌∷◌ (key, value) entries) (h, hs) =
    ap (λ v. read_lines v (map format entries)) (read_line-format values key value h)
    ∙ read_lines-format (insert key value values) entries hs

abbrev pub listed : String → List String → Bool
listed key List.[] = false
listed key (List.◌∷◌ k keys) = str_eq k key || listed key keys

-- After the overrides a listed key has the value of the environment, if that sets it; every other
-- key, and a listed one that the environment does not set, has the value that it had.
pub lookup-override_all :
    (getenv : String → Option String) (values : Values) (keys : List String) (key : String)
    → lookup key (override_all getenv values keys)
      ≡ elim (if listed key keys then getenv key else none) [
        | none ↦ lookup key values
        | some v ↦ some v
      ]
unfolding override_all override_from_environment
lookup-override_all getenv values List.[] key = refl
lookup-override_all getenv values (List.◌∷◌ k keys) key = elim (Option-cases (getenv k)) [
  | inl unset ↦ ground (arith, unset, eq_iff k key, lookup-override_all getenv values keys key)
  | inr (v, is_set) ↦ ground (
    arith,
    is_set,
    eq_iff k key,
    lookup-insert k key v values,
    lookup-override_all getenv (insert k v values) keys key,
  )
]
