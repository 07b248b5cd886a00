-- ===== src/Observability/Tracing/Hex.antt =====
-- observability/Observability.cc: what randomHex makes.
use Prim.Native.Char.{code}
use Prim.Native.String.{[], ◌∷◌}
use text.Mathlib.TextLemmas.{nil-append, cons-append}
use drogon_api_starter.Prelude.{
  ℕ, zero, suc, ◌+◌, ◌*◌, ◌/◌, ◌%◌, ◌≤◌, ◌≡◌, refl, ◌↔◌, ◌⊎◌, String, true, ltb, Bool-cases, inl,
  inr, arith,
}
use drogon_api_starter.Text.{◌++◌, size}
use drogon_api_starter.Text.Slices.{take, size-append, size-take}
use drogon_api_starter.Observability.Tracing.{
  valid_hex, is_xdigit, hex_digit, hex_digits, hex16, fill, random_hex,
}

-- `0` to `9`, `A` to `F` or `a` to `f`
abbrev pub IsHexDigit : ℕ → Type 0
IsHexDigit c = ((48 ≤ c) × (c ≤ 57)) ⊎ ((65 ≤ c) × (c ≤ 70)) ⊎ ((97 ≤ c) × (c ≤ 102))

abbrev pub IsHex : String → Type 0
IsHex [] = Unit
IsHex (c ∷ s) = IsHexDigit (code c) × IsHex s

is_xdigit-IsHexDigit : (c : ℕ) → (is_xdigit c ≡ true) ↔ IsHexDigit c
is_xdigit-IsHexDigit c = (λ h. ground arith, λ h. ground arith)

-- validHex accepts the texts of hexadecimal digits only.
pub valid_hex-IsHex : (s : String) → (valid_hex s ≡ true) ↔ IsHex s
valid_hex-IsHex [] = (λ h. tt, λ h. refl)
valid_hex-IsHex (c ∷ s) =
    let (digit, digit') = is_xdigit-IsHexDigit (code c) in
    let (hex, hex') = valid_hex-IsHex s in
    (ground (arith, digit, hex), λ (d, h). rw (digit' d) (hex' h))

hex_digit-is_xdigit : (d : ℕ) → is_xdigit (code (hex_digit d)) ≡ true
hex_digit-is_xdigit zero = refl
hex_digit-is_xdigit (suc zero) = refl
hex_digit-is_xdigit (suc (suc zero)) = refl
hex_digit-is_xdigit (suc (suc (suc zero))) = refl
hex_digit-is_xdigit (suc (suc (suc (suc zero)))) = refl
hex_digit-is_xdigit (suc (suc (suc (suc (suc zero))))) = refl
hex_digit-is_xdigit (suc (suc (suc (suc (suc (suc zero)))))) = refl
hex_digit-is_xdigit (suc (suc (suc (suc (suc (suc (suc zero))))))) = refl
hex_digit-is_xdigit (suc (suc (suc (suc (suc (suc (suc (suc zero)))))))) = refl
hex_digit-is_xdigit (suc (suc (suc (suc (suc (suc (suc (suc (suc zero))))))))) = refl
hex_digit-is_xdigit (suc (suc (suc (suc (suc (suc (suc (suc (suc (suc zero)))))))))) = refl
hex_digit-is_xdigit (suc (suc (suc (suc (suc (suc (suc (suc (suc (suc (suc zero))))))))))) = refl
hex_digit-is_xdigit (suc (suc (suc (suc (suc (suc (suc (suc (suc (suc (suc (suc zero)))))))))))) =
    refl
hex_digit-is_xdigit
      (suc (suc (suc (suc (suc (suc (suc (suc (suc (suc (suc (suc (suc zero))))))))))))) =
    refl
hex_digit-is_xdigit
      (suc (suc (suc (suc (suc (suc (suc (suc (suc (suc (suc (suc (suc (suc zero)))))))))))))) =
    refl
hex_digit-is_xdigit
      (suc (suc (suc (suc (suc (suc (suc (suc (suc (suc (suc (suc (suc (suc (suc d))))))))))))))) =
    refl

valid_hex-append :
    (s t : String) → valid_hex s ≡ true → valid_hex t ≡ true → valid_hex (s ++ t) ≡ true
valid_hex-append [] t h k = rw nil-append k
valid_hex-append (c ∷ s) t h k = rw cons-append (ground (arith, valid_hex-append s t))

hex_digits-hex : (k n : ℕ) (s : String) → valid_hex s ≡ true → valid_hex (hex_digits k n s) ≡ true
unfolding hex_digits
hex_digits-hex zero n s h = h
hex_digits-hex (suc k) n s h =
    hex_digits-hex k (n / 16) (hex_digit (n % 16) ∷ s) (rw (hex_digit-is_xdigit (n % 16)) h)

size-hex_digits : (k n : ℕ) (s : String) → size (hex_digits k n s) ≡ k + size s
unfolding hex_digits
size-hex_digits zero n s = omega arith
size-hex_digits (suc k) n s = omega (arith, size-hex_digits k (n / 16) (hex_digit (n % 16) ∷ s))

fill-hex :
    (f : ℕ) (draws : ℕ → ℕ) (i length : ℕ) (s : String)
    → valid_hex s ≡ true
    → valid_hex (fill f draws i length s) ≡ true
unfolding fill
fill-hex zero draws i length s h = h
fill-hex (suc f) draws i length s h = elim (Bool-cases (ltb (size s) length)) [
  | inl e ↦ rw e (
      fill-hex f draws (suc i) length (s ++ hex16 (draws i))
        (valid_hex-append s (hex16 (draws i)) h (hex_digits-hex 16 (draws i) "" refl)))
  | inr e ↦ rw e h
]

-- With a round for every sixteen characters that are wanted, enough are there.
size-fill :
    (f : ℕ) (draws : ℕ → ℕ) (i length : ℕ) (s : String)
    → length ≤ f * 16 + size s
    → length ≤ size (fill f draws i length s)
unfolding fill
size-fill zero draws i length s h = omega arith
size-fill (suc f) draws i length s h = elim (Bool-cases (ltb (size s) length)) [
  | inl e ↦ rw e (
      size-fill f draws (suc i) length (s ++ hex16 (draws i))
        (omega (arith, size-append s (hex16 (draws i)), size-hex_digits 16 (draws i) "")))
  | inr e ↦ rw e (ground arith)
]

valid_hex-take : (n : ℕ) (s : String) → valid_hex s ≡ true → valid_hex (take n s) ≡ true
valid_hex-take zero s h = refl
valid_hex-take (suc n) [] h = refl
valid_hex-take (suc n) (c ∷ s) h = ground (arith, valid_hex-take n s)

-- A request id that is drawn has sixteen hexadecimal digits.
pub hex16-IsHex : (n : ℕ) → (size (hex16 n) ≡ 16) × IsHex (hex16 n)
hex16-IsHex n =
    (size-hex_digits 16 n "", (valid_hex-IsHex (hex16 n)).0 (hex_digits-hex 16 n "" refl))

-- randomHex gives as many hexadecimal digits as it is asked for.
pub random_hex-digits :
    (length : ℕ) (draws : ℕ → ℕ)
    → (size (random_hex length draws) ≡ length) × IsHex (random_hex length draws)
unfolding random_hex
random_hex-digits length draws = (
  size-take length _ (size-fill length draws 0 length "" (omega arith)),
  (valid_hex-IsHex (random_hex length draws)).0
      (valid_hex-take length _ (fill-hex length draws 0 length "" refl)),
)
