-- ===== src/Models/Reading/Given.antt =====
-- models/: what is read of a body that a validation accepted.
use drogon_api_starter.Prelude.{
  ◌≡◌, ◌⊎◌, inl, inr, refl, List, [], ◌∷◌, All, String, Bool, true, false, Option, none, some,
  Bool-cases, str_eq,
}
use drogon_api_starter.Result.{Result, ok}
use drogon_api_starter.Json.{JsonLib, Laws}
use drogon_api_starter.Models.Column.{Column, MetaData}
use drogon_api_starter.Models.Dates.{DateLib, read_date}
use drogon_api_starter.Models.Fields.{Check, accepted, refused, check_column, IsGiven, IsUpdated}
use drogon_api_starter.Models.Reading.{
  touch, assign, read_column, text_value, bool_value, date_value,
}

-- The column after a value was read for it.
abbrev pub replaced : {A : Type 0} → Option A → Column A → Column A
replaced none c = c
replaced (some a) c = record c { value = some a }

module _ (json : JsonLib) {A : Type 0} (convert : json.Value → Result (Option A))
    (marks : Bool) where
  -- What reading the member `name` of a body makes of a column: without the member the column
  -- stays; a null only turns its flag on; another value is put into it, if it reads as one.
  abbrev pub IsRead : json.Value → String → Column A → Column A → Type 0
  IsRead v name before after =
      ((json.is_member v name ≡ ok false) × (after ≡ before))
      ⊎ ((w : json.Value) × (json.is_member v name ≡ ok true)
          × (json.index v name ≡ ok w)
          × (((json.is_null w ≡ true) × (after ≡ touch marks before))
              ⊎ ((a : Option A) × (json.is_null w ≡ false)
                  × (convert w ≡ ok a)
                  × (after ≡ replaced a (touch marks before)))))

  -- The reading comes back, with the column as described.
  abbrev pub Reads : json.Value → String → Column A → Type 0
  Reads v name c =
      (after : Column A) × (read_column json convert marks name v c ≡ (ok tt, after))
      × IsRead v name c after

  -- Where a column's member is absent, or there and readable, it is read without an exception.
  pub read_absent :
      (v : json.Value) (name : String) (c : Column A)
      → json.is_member v name ≡ ok false
      → Reads v name c
  unfolding read_column
  read_absent v name c h = (c, rw h refl, inl (h, refl))

  pub read_null :
      (v : json.Value) (name : String) (c : Column A) (w : json.Value)
      → json.is_member v name ≡ ok true
      → json.index v name ≡ ok w
      → json.is_null w ≡ true
      → Reads v name c
  unfolding read_column
  read_null v name c w h i n = (touch marks c, rw (h, i, n) refl, inr (w, h, i, inl (n, refl)))

  assign-replaced : (a : Option A) (c : Column A) → assign (ok a) c ≡ (ok tt, replaced a c)
  assign-replaced none c = refl
  assign-replaced (some a) c = refl

  pub read_value :
      (v : json.Value) (name : String) (c : Column A) (w : json.Value) (a : Option A)
      → json.is_member v name ≡ ok true
      → json.index v name ≡ ok w
      → json.is_null w ≡ false
      → convert w ≡ ok a
      → Reads v name c
  unfolding read_column
  read_value v name c w a h i n e = (
    replaced a (touch marks c),
    rw (h, i, n, e) (assign-replaced a (touch marks c)),
    inr (w, h, i, inr (a, n, e, refl)),
  )

-- A body's member for a column is one that the column takes, or there is none.
abbrev pub IsFitting : (json : JsonLib) → json.Value → MetaData → Type 0
IsFitting json v m =
    ((w : json.Value) × (json.is_member v m.col_name ≡ ok true)
      × (json.index v m.col_name ≡ ok w)
      × (check_column json m m.col_name w ≡ ok accepted))
    ⊎ (json.is_member v m.col_name ≡ ok false)

pub IsGiven-IsFitting :
    (json : JsonLib) (v : json.Value) (m : MetaData) → IsGiven json v m → IsFitting json v m
IsGiven-IsFitting json v m (inl given) = inl given
IsGiven-IsFitting json v m (inr (absent, free)) = inr absent

pub All-map {ℓ κ μ} :
    {A : Type ℓ} {P : A → Type κ} {Q : A → Type μ} (f : (a : A) → P a → Q a) (xs : List A)
    → All P xs
    → All Q xs
All-map f [] h = tt
All-map f (x ∷ xs) (p, h) = (f x p, All-map f xs h)

pub IsUpdated-IsFitting :
    (json : JsonLib) (v : json.Value) (m : MetaData) → IsUpdated json v m → IsFitting json v m
IsUpdated-IsFitting json v m (inl given) = inl given
IsUpdated-IsFitting json v m (inr (absent, other)) = inr absent

module _ (json : JsonLib) {A : Type 0} (convert : json.Value → Result (Option A)) where
  -- What a column takes that is not null can be converted.
  abbrev pub Converts : MetaData → Type 0
  Converts m =
      (field : String) (w : json.Value)
      → json.is_null w ≡ false
      → check_column json m field w ≡ ok accepted
      → (a : Option A) × (convert w ≡ ok a)

  pub fitting-Reads :
      (marks : Bool) (v : json.Value) (m : MetaData) (c : Column A)
      → Converts m
      → IsFitting json v m
      → Reads json convert marks v m.col_name c
  fitting-Reads marks v m c conv (inr absent) = read_absent json convert marks v m.col_name c absent
  fitting-Reads marks v m c conv (inl (w, found, at, fits)) = elim (Bool-cases (json.is_null w)) [
    | inl n ↦ read_null json convert marks v m.col_name c w found at n
    | inr n ↦
        let (a, e) = conv m.col_name w n fits in
        read_value json convert marks v m.col_name c w a found at n e
  ]

refused-ne-accepted : {e : String} → Path (Result Check) (ok (refused e)) (ok accepted) → ⊥
refused-ne-accepted h = cc

module _ (json : JsonLib) (laws : Laws json) (m : MetaData) where
  accepted_text :
      (field : String) (w : json.Value)
      → str_eq m.col_type "bool" ≡ false
      → json.is_null w ≡ false
      → check_column json m field w ≡ ok accepted
      → json.is_string w ≡ true
  unfolding check_column
  accepted_text field w text n h = elim (Bool-cases (json.is_string w)) [
    | inl e ↦ e
    | inr e ↦ absurd (refused-ne-accepted (rw (n, text, e) at h))
  ]

  accepted_bool :
      (field : String) (w : json.Value)
      → str_eq m.col_type "bool" ≡ true
      → json.is_null w ≡ false
      → check_column json m field w ≡ ok accepted
      → json.is_bool w ≡ true
  unfolding check_column
  accepted_bool field w truth n h = elim (Bool-cases (json.is_bool w)) [
    | inl e ↦ e
    | inr e ↦ absurd (refused-ne-accepted (rw (n, truth, e) at h))
  ]

  pub text-Converts : str_eq m.col_type "bool" ≡ false → Converts json (text_value json) m
  text-Converts text field w n h =
      let (s, e) = laws.as_string-string w (accepted_text field w text n h) in (some s, rw e refl)

  pub bool-Converts : str_eq m.col_type "bool" ≡ true → Converts json (bool_value json) m
  bool-Converts truth field w n h =
      let (b, e) = laws.as_bool-bool w (accepted_bool field w truth n h) in (some b, rw e refl)

  pub date-Converts :
      (dates : DateLib) → str_eq m.col_type "bool" ≡ false → Converts json (date_value json dates) m
  date-Converts dates text field w n h =
      let (s, e) = laws.as_string-string w (accepted_text field w text n h) in
      (read_date dates s, rw e refl)
