-- ===== src/Text/Number.antt =====
-- std::stoi and std::to_string.
use Prim.Native.Char.{Char, code}
use Prim.Native.String.{[], ◌∷◌}
use drogon_api_starter.Text.Bytes.{Lacks, is_empty}
use drogon_api_starter.Prelude.{
  ℕ, zero, suc, ◌+◌, ◌-◌, ◌*◌, ◌/◌, ◌%◌, ◌≤◌, ◌<◌, ◌≡◌, sym, refl, ap, ◌∙◌, String, Bool, true,
  false, ◌&&◌, ◌||◌, Option, none, some, arith, leb, ltb, ◌==◌, if◌then◌else◌, Bool-cases, inl, inr,
}

-- `negsuc n` is -(n + 1).
pub data ℤ : Type 0 where
  pos : ℕ → ℤ
  negsuc : ℕ → ℤ

-- std::isspace and std::isdigit in the C locale.
abbrev is_space : ℕ → Bool
is_space c = c == 32 || (leb 9 c && leb c 13)

abbrev pub is_digit : ℕ → Bool
is_digit c = leb b'0' c && leb c b'9'

unfoldable pub skip_spaces : String → String
skip_spaces [] = []
skip_spaces (c ∷ s) = if is_space (code c) then skip_spaces s else c ∷ s

-- The digits from the front on, read after the digits of `n`.
unfoldable pub read_digits : ℕ → String → ℕ
read_digits n [] = n
read_digits n (c ∷ s) =
    let more = read_digits (n * 10 + (code c - b'0')) s in if is_digit (code c) then more else n

abbrev starts_digit : String → Bool
starts_digit [] = false
starts_digit (c ∷ s) = is_digit (code c)

-- A number out of the range of `int` is an std::out_of_range.
abbrev in_int : Bool → ℕ → Option ℤ
in_int false n = if leb n 2147483647 then some (pos n) else none
in_int true zero = some (pos 0)
in_int true (suc n) = if leb n 2147483647 then some (negsuc n) else none

abbrev unsigned : Bool → String → Option ℤ
unsigned negative s = if starts_digit s then in_int negative (read_digits 0 s) else none

abbrev signed : String → Option ℤ
signed [] = none
signed (c ∷ s) =
    if code c == b'-'
    then unsigned true s
    else if code c == b'+'
    then unsigned false s
    else unsigned false (c ∷ s)

-- `std::stoi(s)`, `none` where it throws. What follows the digits is ignored.
unfoldable pub stoi : String → Option ℤ
unfolding skip_spaces read_digits
stoi s = signed (skip_spaces s)

abbrev digit : ℕ → Char
digit zero = "0"
digit (suc zero) = "1"
digit (suc (suc zero)) = "2"
digit (suc (suc (suc zero))) = "3"
digit (suc (suc (suc (suc zero)))) = "4"
digit (suc (suc (suc (suc (suc zero))))) = "5"
digit (suc (suc (suc (suc (suc (suc zero)))))) = "6"
digit (suc (suc (suc (suc (suc (suc (suc zero))))))) = "7"
digit (suc (suc (suc (suc (suc (suc (suc (suc zero)))))))) = "8"
digit _ = "9"

-- The decimal digits of `n` in front of a text; the first argument bounds the count of digits.
pub put_digits : ℕ → ℕ → String → String
put_digits zero n s = s
put_digits (suc f) n s =
    let more = put_digits f (n / 10) (digit (n % 10) ∷ s) in if ltb n 10 then digit n ∷ s else more

-- `std::to_string(n)` for a number that is not negative.
unfoldable pub to_string : ℕ → String
unfolding put_digits
to_string n = put_digits (suc n) n []

code-digit : (d : ℕ) → d < 10 → code (digit d) ≡ 48 + d
code-digit zero h = refl
code-digit (suc zero) h = refl
code-digit (suc (suc zero)) h = refl
code-digit (suc (suc (suc zero))) h = refl
code-digit (suc (suc (suc (suc zero)))) h = refl
code-digit (suc (suc (suc (suc (suc zero))))) h = refl
code-digit (suc (suc (suc (suc (suc (suc zero)))))) h = refl
code-digit (suc (suc (suc (suc (suc (suc (suc zero))))))) h = refl
code-digit (suc (suc (suc (suc (suc (suc (suc (suc zero)))))))) h = refl
code-digit (suc (suc (suc (suc (suc (suc (suc (suc (suc zero))))))))) h = refl
code-digit (suc (suc (suc (suc (suc (suc (suc (suc (suc (suc d)))))))))) h = absurd (omega arith)

read_digits-digit :
    (n d : ℕ) (s : String) → d < 10 → read_digits n (digit d ∷ s) ≡ read_digits (n * 10 + d) s
unfolding read_digits
read_digits-digit n d s h =
    let is : is_digit (code (digit d)) ≡ true = ground (arith, code-digit d h) in
    let value : code (digit d) - 48 ≡ d = omega (arith, code-digit d h) in rw (is, value)

read_digits-put_digits :
    (f n : ℕ) (s : String) → n < f → read_digits 0 (put_digits f n s) ≡ read_digits n s
unfolding put_digits
read_digits-put_digits zero n s h = absurd (omega arith)
read_digits-put_digits (suc f) n s h = elim (Bool-cases (ltb n 10)) [
  | inl e ↦
      let same : 0 * 10 + n ≡ n = omega arith in
      rw e (read_digits-digit 0 n s (ground arith) ∙ ap (λ m. read_digits m s) same)
  | inr e ↦
      let tenth : n / 10 * 10 + n % 10 ≡ n = omega arith in
      rw e (
        read_digits-put_digits f (n / 10) (digit (n % 10) ∷ s) (ground arith)
        ∙ read_digits-digit (n / 10) (n % 10) s (omega arith)
        ∙ ap (λ m. read_digits m s) tenth)
]

digit-is_digit : (d : ℕ) → d < 10 → is_digit (code (digit d)) ≡ true
digit-is_digit d h = ground (arith, code-digit d h)

-- What is printed starts with a digit.
put_digits-starts : (f n : ℕ) (s : String) → n < f → starts_digit (put_digits f n s) ≡ true
unfolding put_digits
put_digits-starts zero n s h = absurd (omega arith)
put_digits-starts (suc f) n s h = elim (Bool-cases (ltb n 10)) [
  | inl e ↦ rw e (digit-is_digit n (ground arith))
  | inr e ↦ rw e (put_digits-starts f (n / 10) (digit (n % 10) ∷ s) (ground arith))
]

stoi_digits : (s : String) → starts_digit s ≡ true → stoi s ≡ in_int false (read_digits 0 s)
unfolding stoi
stoi_digits [] h = cc
stoi_digits (c ∷ s) h = ground arith

-- Reading a printed number of the range of `int` gives the number back.
pub stoi-to_string : (n : ℕ) → n ≤ 2147483647 → stoi (to_string n) ≡ some (pos n)
stoi-to_string n h =
    unfold to_string in
    rw
      (
        stoi_digits (put_digits (suc n) n []) (put_digits-starts (suc n) n [] (omega arith)),
        read_digits-put_digits (suc n) n [] (omega arith),
      )
      (unfold read_digits in ground arith)

begins :
    (t : String) {n : ℕ}
    → starts_digit t ≡ true
    → read_digits 0 t ≡ n
    → (c : Char) × (s : String) × (t ≡ c ∷ s)
      × (is_digit (code c) ≡ true)
      × (read_digits 0 (c ∷ s) ≡ n)
begins [] h e = absurd (cc)
begins (c ∷ s) h e = (c, s, refl, h, e)

-- A printed number begins with a digit and its digits are those of the number.
pub to_string-read :
    (n : ℕ)
    → (c : Char) × (s : String) × (to_string n ≡ c ∷ s)
      × (is_digit (code c) ≡ true)
      × (read_digits 0 (c ∷ s) ≡ n)
unfolding to_string
to_string-read n =
    begins (put_digits (suc n) n []) (put_digits-starts (suc n) n [] (omega arith))
      (read_digits-put_digits (suc n) n [] (omega arith) ∙ (unfold read_digits in refl))

-- No character of a printed number is another than a digit.
put_digits-Lacks :
    (c f n : ℕ) (s : String) → is_digit c ≡ false → n < f → Lacks c s → Lacks c (put_digits f n s)
unfolding put_digits
put_digits-Lacks c zero n s d h l = absurd (omega arith)
put_digits-Lacks c (suc f) n s d h l = elim (Bool-cases (ltb n 10)) [
  | inl e ↦ rw e (ground (arith, code-digit n), l)
  | inr e ↦ rw e (
      put_digits-Lacks c f (n / 10) (digit (n % 10) ∷ s) d (ground arith)
        (ground (arith, code-digit (n % 10)), l))
]

pub to_string-Lacks : (c n : ℕ) → is_digit c ≡ false → Lacks c (to_string n)
unfolding to_string
to_string-Lacks c n d = put_digits-Lacks c (suc n) n [] d (omega arith) tt

starts_digit-ne-empty : (s : String) → starts_digit s ≡ true → is_empty s ≡ false
starts_digit-ne-empty [] h = cc
starts_digit-ne-empty (c ∷ s) h = refl

pub to_string-ne-empty : (n : ℕ) → is_empty (to_string n) ≡ false
unfolding to_string
to_string-ne-empty n =
    starts_digit-ne-empty (put_digits (suc n) n []) (put_digits-starts (suc n) n [] (omega arith))

pub to_string-injective : (m n : ℕ) → to_string m ≡ to_string n → m ≡ n
unfolding to_string read_digits
to_string-injective m n h =
    sym (read_digits-put_digits (suc m) m [] (omega arith))
    ∙ ap (read_digits 0) h
    ∙ read_digits-put_digits (suc n) n [] (omega arith)

stoi_tests :
    (stoi " 42abc" ≡ some (pos 42))
    × (stoi "-7" ≡ some (negsuc 6))
    × (stoi "+8" ≡ some (pos 8))
    × (stoi "x1" ≡ none)
    × (stoi "" ≡ none)
    × (stoi "- 1" ≡ none)
    × (stoi "2147483648" ≡ none)
    × (stoi "-2147483648" ≡ some (negsuc 2147483647))
    × (to_string 65535 ≡ "65535")
unfolding stoi to_string
stoi_tests = (refl, refl, refl, refl, refl, refl, refl, refl, refl)
