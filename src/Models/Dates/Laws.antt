-- ===== src/Models/Dates/Laws.antt =====
-- models/: what the decimals of a timestamp are read as.
use Prim.Native.Char.{Char, code}
use Prim.Native.String.{[], ◌∷◌}
use native.Mathlib.Numerals.{unary_clauses}
use text.Mathlib.TextLemmas.{nil-append, cons-append, append_assoc, append-nil}
use drogon_api_starter.Prelude.{
  ℕ, zero, suc, ◌+◌, ◌-◌, ◌*◌, ◌%◌, ◌^◌, ◌≤◌, ◌<◌, ◌≡◌, refl, sym, ap, ◌∙◌, String, true, false,
  some, arith,
}
use drogon_api_starter.Text.Slices.{size-append}
use drogon_api_starter.Text.{◌++◌, size}
use drogon_api_starter.Text.Number.{is_digit, read_digits}
use drogon_api_starter.Models.Dates.{pad, decimal_num, atol, fraction, DateLib, read_date}

-- Every character is a digit.
abbrev pub Digits : String → Type 0
Digits [] = Unit
Digits (c ∷ s) = (is_digit (code c) ≡ true) × Digits s

abbrev pub zeros : ℕ → String
zeros zero = ""
zeros (suc n) = "0" ++ zeros n

pad-zeros : (n : ℕ) (s : String) → pad n s ≡ s ++ zeros n
unfolding pad
pad-zeros zero s = sym (append-nil s)
pad-zeros (suc n) s = pad-zeros n (s ++ "0") ∙ append_assoc s "0" (zeros n)

read_digits-append :
    (n : ℕ) (s t : String) → Digits s → read_digits n (s ++ t) ≡ read_digits (read_digits n s) t
unfolding read_digits
read_digits-append n [] t h = rw nil-append refl
read_digits-append n (c ∷ s) t (d, h) =
    rw (cons-append, d) (read_digits-append (n * 10 + (code c - 48)) s t h)

pow_step : (k : ℕ) → 10 ^ suc k ≡ 10 * 10 ^ k
pow_step k = simp unary_clauses (grind arith)

read_digits-zeros : (k n : ℕ) → read_digits n (zeros k) ≡ n * 10 ^ k
unfolding read_digits
read_digits-zeros zero n = omega arith
read_digits-zeros (suc k) n =
    rw (cons-append, nil-append, pow_step k) (read_digits-zeros k (n * 10 + 0) ∙ grind arith)

read_digits-step : (n d p r : ℕ) → d ≤ 9 → r < suc (n * 10 + d) * p → r < suc n * (10 * p)
read_digits-step n d p r h lt = grind arith

read_digits-lt : (n : ℕ) (s : String) → Digits s → read_digits n s < suc n * 10 ^ size s
unfolding read_digits
read_digits-lt n [] h = omega arith
read_digits-lt n (c ∷ s) (d, h) =
    rw (d, pow_step (size s))
      (read_digits-step n (code c - 48) (10 ^ size s) _ (ground arith)
        (read_digits-lt (n * 10 + (code c - 48)) s h))

atol_digits :
    (c : Char) (s : String)
    → is_digit (code c) ≡ true
    → read_digits 0 (c ∷ s) ≤ 9223372036854775807
    → atol (c ∷ s) ≡ read_digits 0 (c ∷ s)
unfolding atol
atol_digits c s d h = ground arith

zeros-Digits : (k : ℕ) → Digits (zeros k)
zeros-Digits zero = tt
zeros-Digits (suc k) = rw (cons-append, nil-append) (refl, zeros-Digits k)

padded-Digits : (k : ℕ) (s : String) → Digits s → Digits (s ++ zeros k)
padded-Digits k [] h = rw nil-append (zeros-Digits k)
padded-Digits k (c ∷ s) (d, h) = rw cons-append (d, padded-Digits k s h)

pow-le-million : (k : ℕ) → k ≤ 6 → 10 ^ k ≤ 1000000
pow-le-million zero h = omega arith
pow-le-million (suc zero) h = omega arith
pow-le-million (suc (suc zero)) h = omega arith
pow-le-million (suc (suc (suc zero))) h = omega arith
pow-le-million (suc (suc (suc (suc zero)))) h = omega arith
pow-le-million (suc (suc (suc (suc (suc zero))))) h = omega arith
pow-le-million (suc (suc (suc (suc (suc (suc zero)))))) h = omega arith
pow-le-million (suc (suc (suc (suc (suc (suc (suc k))))))) h = absurd (omega arith)

size-zeros : (k : ℕ) → size (zeros k) ≡ k
size-zeros zero = refl
size-zeros (suc k) = rw (cons-append, nil-append) (omega (arith, size-zeros k))

-- Reading six digits or fewer.
atol_short : (s : String) → Digits s → 0 < size s → size s ≤ 6 → atol s ≡ read_digits 0 s
atol_short [] d h le = absurd (omega arith)
atol_short (c ∷ s) (d, ds) h le =
    let lt = read_digits-lt 0 (c ∷ s) (d, ds) in
    atol_digits c s d (omega (arith, lt, pow-le-million (size (c ∷ s)) le))

-- Digits alone are read as microseconds, whatever their number up to six.
decimal_num-Digits :
    (s : String) → Digits s → size s ≤ 6 → decimal_num s ≡ read_digits 0 s * 10 ^ (6 - size s)
unfolding decimal_num
decimal_num-Digits s d le =
    let k = 6 - size s in
    let whole : size (s ++ zeros k) ≡ 6 = omega (arith, size-append s (zeros k), size-zeros k) in
    ap atol (pad-zeros k s)
    ∙ atol_short (s ++ zeros k) (padded-Digits k s d) (omega (arith, whole)) (omega (arith, whole))
    ∙ read_digits-append 0 s (zeros k) d
    ∙ read_digits-zeros k (read_digits 0 s)

read_digits-stop :
    (n : ℕ) (c : Char) (s : String) → is_digit (code c) ≡ false → read_digits n (c ∷ s) ≡ n
unfolding read_digits
read_digits-stop n c s h = rw h refl

atol_then :
    (s t : String)
    → Digits s
    → 0 < size s
    → size s ≤ 6
    → read_digits (read_digits 0 s) t ≡ read_digits 0 s
    → atol (s ++ t) ≡ read_digits 0 s
atol_then [] t d h le e = absurd (omega arith)
atol_then (c ∷ s) t (d, ds) h le e =
    let lt = read_digits-lt 0 (c ∷ s) (d, ds) in
    let same = read_digits-append 0 (c ∷ s) t (d, ds) ∙ e in
    let eq : read_digits 0 (c ∷ (s ++ t)) ≡ read_digits 0 (c ∷ s) =
      ap (read_digits 0) (sym (cons-append c s t)) ∙ same in
    ap atol (cons-append c s t)
    ∙ atol_digits c (s ++ t) d (omega (arith, eq, lt, pow-le-million (size (c ∷ s)) le))
    ∙ eq

decimal_num-suffix :
    (s : String) (c : Char) (t : String)
    → Digits s
    → 0 < size s
    → size s ≤ 6
    → is_digit (code c) ≡ false
    → decimal_num (s ++ (c ∷ t)) ≡ read_digits 0 s
unfolding decimal_num
decimal_num-suffix s c t d h le stop =
    let k = 6 - size (s ++ (c ∷ t)) in
    ap atol (
      pad-zeros k (s ++ (c ∷ t))
      ∙ append_assoc s (c ∷ t) (zeros k)
      ∙ ap (λ u. s ++ u) (cons-append c t (zeros k)))
    ∙ atol_then s (c ∷ (t ++ zeros k)) d h le
        (read_digits-stop (read_digits 0 s) c (t ++ zeros k) stop)

-- How the constructors of models/ read one to six decimals after a point: as that many tenths,
-- hundredths and so on of a second where the text ends with them, and as a plain number of
-- microseconds where a character that is no digit comes after them, such as the sign of a time
-- zone.
pub decimal_num-cases :
    (s : String)
    → Digits s
    → 0 < size s
    → size s ≤ 6
    → (decimal_num s ≡ read_digits 0 s * 10 ^ (6 - size s))
      × ((c : Char) (t : String)
          → is_digit (code c) ≡ false
          → decimal_num (s ++ (c ∷ t)) ≡ read_digits 0 s)
decimal_num-cases s d h le =
    (decimal_num-Digits s d le, λ c t stop. decimal_num-suffix s c t d h le stop)

-- A date is written in full: its text is read up to a point and six digits, which make it up.
abbrev pub IsWritten : (dates : DateLib) → dates.Date → Type 0
IsWritten dates d =
    (tm : dates.Tm) × (s : String) × (dates.strptime (dates.to_db_string_local d)
      ≡ some (tm, "." ++ s))
    × Digits s
    × (size s ≡ 6)
    × (dates.of_micros ((dates.mktime tm * 1000000 + read_digits 0 s) % 18446744073709551616) ≡ d)

module _ (dates : DateLib) where
  fraction-point : (s : String) → fraction ("." ++ s) ≡ decimal_num s
  unfolding fraction
  fraction-point s = rw (cons-append, nil-append) refl

  pub read_date-written :
      (d : dates.Date) → IsWritten dates d → read_date dates (dates.to_db_string_local d) ≡ some d
  unfolding read_date
  read_date-written d (tm, s, reads, ds, six, same) =
      let micros : fraction ("." ++ s) ≡ read_digits 0 s =
        fraction-point s
        ∙ decimal_num-Digits s ds (omega (arith, six))
        ∙ ap (λ n. read_digits 0 s * 10 ^ (6 - n)) six
        ∙ omega arith in
      rw (reads, micros) (ap some same)
