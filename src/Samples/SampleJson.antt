-- ===== src/Samples/SampleJson.antt =====
-- JSON values in two kinds: objects of texts, and values that are kept as the text they are written
-- as.
use text.Mathlib.TextLemmas.{nil-append, cons-append}
use drogon_api_starter.Prelude.{
  ℕ, ◌≡◌, refl, ap, ◌∙◌, String, Bool, true, false, ◌||◌, if◌then◌else◌, str_eq, Option, none, some,
  arith, ltb, eq_iff, eq_refl,
}
use drogon_api_starter.Prelude.Dict.{or_else, is_some}
use drogon_api_starter.Text.{◌++◌, is_empty, strip_prefix}
use drogon_api_starter.Text.Number.{to_string}
use drogon_api_starter.Result.{std_exception, Result, ok, err}
use drogon_api_starter.Json.{JsonLib, Laws, Objects, RoundTrip}

-- An object is its members, one before the other.
pub data Value : Type 0 where
  nothing : Value
  word : String → Value
  flag : Bool → Value
  number : ℕ → Value
  array : Value
  object : Value
  member : String → Value → Value → Value

abbrev put : String → Value → Value → Value
put key v (member k w rest) = if str_eq k key then member k v rest else member k w (put key v rest)
put key v _ = member key v object

abbrev word_of : Value → Result String
word_of nothing = ok ""
word_of (word s) = ok s
word_of (flag true) = ok "true"
word_of (flag false) = ok "false"
word_of (number n) = ok (to_string n)
word_of _ = err (std_exception "not convertible to string")

abbrev flag_of : Value → Result Bool
flag_of nothing = ok false
flag_of (flag b) = ok b
flag_of (number n) = ok (ltb 0 n)
flag_of _ = err (std_exception "not convertible to bool")

abbrev is_nothing : Value → Bool
is_nothing nothing = true
is_nothing _ = false

abbrev is_word : Value → Bool
is_word (word s) = true
is_word _ = false

abbrev is_flag : Value → Bool
is_flag (flag b) = true
is_flag _ = false

abbrev is_object : Value → Bool
is_object object = true
is_object (member k w rest) = true
is_object _ = false

abbrev value_at : Value → String → Option Value
value_at (member k w rest) key = if str_eq k key then some w else value_at rest key
value_at _ key = none

abbrev at : Value → String → Result Value
at v key =
    if is_nothing v || is_object v
    then ok (or_else (value_at v key) nothing)
    else err (std_exception "requires objectValue")

abbrev has : Value → String → Result Bool
has v key =
    if is_nothing v || is_object v
    then ok (is_some (value_at v key))
    else err (std_exception "requires objectValue")

abbrev pub objects : JsonLib
objects = record {
  Value = Value;
  null = nothing;
  empty_array = array;
  of_string = word;
  of_bool = flag;
  of_number = number;
  set = put;
  append = λ a v. a;
  is_null = is_nothing;
  is_string = is_word;
  is_bool = is_flag;
  is_object = is_object;
  is_member = has;
  index = at;
  as_string = word_of;
  as_bool = flag_of;
  write = λ v. "{}";
  parse = λ s. none;
}

object_at : (v : Value) (key : String) → is_object v ≡ true → (w : Value) × (at v key ≡ ok w)
object_at v key h = (or_else (value_at v key) nothing, rw h (ground arith))

word_at : (v : Value) → is_word v ≡ true → (s : String) × (word_of v ≡ ok s)
word_at (word s) h = (s, refl)
word_at (member k w rest) h = cc
word_at object h = cc
word_at nothing h = cc
word_at (flag b) h = cc
word_at (number n) h = cc
word_at array h = cc

flag_at : (v : Value) → is_flag v ≡ true → (b : Bool) × (flag_of v ≡ ok b)
flag_at (flag b) h = (b, refl)
flag_at (member k w rest) h = cc
flag_at object h = cc
flag_at nothing h = cc
flag_at (word s) h = cc
flag_at (number n) h = cc
flag_at array h = cc

pub objects-Laws : Laws objects
objects-Laws = record {
  index-object = object_at;
  as_string-string = word_at;
  as_bool-bool = flag_at;
}

object-put :
    (k : String) (w v : Value) → (is_nothing v || is_object v) ≡ true → is_object (put k w v) ≡ true
object-put k w nothing h = refl
object-put k w object h = refl
object-put k w (member j u rest) h = ground (arith, eq_iff j k)
object-put k w (word s) h = cc
object-put k w (flag b) h = cc
object-put k w (number n) h = cc
object-put k w array h = cc

value_at-put :
    (k j : String) (w v : Value)
    → value_at (put k w v) j ≡ (if str_eq k j then some w else value_at v j)
value_at-put k j w nothing = refl
value_at-put k j w object = refl
value_at-put k j w (member i u rest) =
    ground (arith, eq_iff k j, eq_iff i k, eq_iff i j, value_at-put k j w rest)
value_at-put k j w (word s) = refl
value_at-put k j w (flag b) = refl
value_at-put k j w (number n) = refl
value_at-put k j w array = refl

at-object :
    (v : Value) (j : String) → is_object v ≡ true → at v j ≡ ok (or_else (value_at v j) nothing)
at-object v j h = ground (arith, h)

has-object : (v : Value) (j : String) → is_object v ≡ true → has v j ≡ ok (is_some (value_at v j))
has-object v j h = ground (arith, h)

at-put :
    (k j : String) (w v : Value)
    → (is_nothing v || is_object v) ≡ true
    → (at (put k w v) j ≡ ok (or_else (if str_eq k j then some w else value_at v j) nothing))
      × (has (put k w v) j ≡ ok (is_some (if str_eq k j then some w else value_at v j)))
at-put k j w v h =
    let o = object-put k w v h in
    let here = value_at-put k j w v in
    (
      at-object (put k w v) j o ∙ ap (λ u. ok (or_else u nothing)) here,
      has-object (put k w v) j o ∙ ap (λ u. ok (is_some u)) here,
    )

pub objects-Objects : Objects objects
objects-Objects = record {
  is_object-set = object-put;
  is_member-set_self = λ k w v h. let (_, e) = at-put k k w v h in e ∙ (rw (eq_refl k) refl);
  is_member-set_other = λ k j w v h ne. let (_, e) = at-put k j w v h in e ∙ (rw (ne, h) refl);
  index-set_self = λ k w v h. let (e, _) = at-put k k w v h in e ∙ (rw (eq_refl k) refl);
  index-set_other = λ k j w v h ne. let (e, _) = at-put k j w v h in e ∙ (rw (ne, h) refl);
  is_null-null = refl;
  is_null-of_string = λ s. refl;
  is_null-of_bool = λ b. refl;
  as_string-of_string = λ s. refl;
  as_bool-of_bool = λ b. refl;
}

-- A value is the text after a `v`.
abbrev pub texts : JsonLib
texts = record {
  Value = String;
  null = "";
  empty_array = "[]";
  of_string = λ s. s;
  of_bool = λ b. "b";
  of_number = to_string;
  set = λ key v o. o ++ (key ++ (":" ++ (v ++ ",")));
  append = λ a v. a ++ v;
  is_null = is_empty;
  is_string = λ v. true;
  is_bool = λ v. false;
  is_object = λ v. true;
  is_member = λ v key. ok false;
  index = λ v key. ok v;
  as_string = λ v. ok v;
  as_bool = λ v. err (std_exception "not convertible to bool");
  write = λ v. "v" ++ v;
  parse = strip_prefix "v";
}

texts-parse : (v : String) → strip_prefix "v" ("v" ++ v) ≡ some v
unfolding strip_prefix
texts-parse v = rw (cons-append, nil-append) refl

texts-ne-empty : (v : String) → is_empty ("v" ++ v) ≡ false
texts-ne-empty v = rw cons-append refl

pub texts-RoundTrip : RoundTrip texts
texts-RoundTrip = record { parse-write = texts-parse; write-ne-empty = texts-ne-empty }
