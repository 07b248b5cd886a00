-- ===== src/Text/Slices.antt =====
-- What the source uses of std::string by position: characters, `substr` and `find`.
use Prim.Native.Char.{code}
use Prim.Native.String.{[], ◌∷◌}
use text.Mathlib.TextLemmas.{nil-append, cons-append}
use drogon_api_starter.Prelude.{
  ℕ, zero, suc, ◌+◌, ◌-◌, ◌≤◌, ◌≡◌, refl, sym, ap, ◌∙◌, String, Bool, true, false, Option, none,
  some, if◌then◌else◌, arith,
}
use drogon_api_starter.Text.Bytes.{◌++◌, size, char_of_code, strip_prefix}

-- `s[i]`, with 0 past the end, and `s.substr(i, n)`
abbrev pub char_at : String → ℕ → ℕ
char_at [] i = 0
char_at (c ∷ s) zero = code c
char_at (c ∷ s) (suc i) = char_at s i

abbrev pub take : ℕ → String → String
take zero s = []
take (suc n) [] = []
take (suc n) (c ∷ s) = c ∷ take n s

abbrev pub drop : ℕ → String → String
drop zero s = s
drop (suc n) [] = []
drop (suc n) (c ∷ s) = drop n s

abbrev pub substr : String → ℕ → ℕ → String
substr s i n = take n (drop i s)

pub size-append : (s t : String) → size (s ++ t) ≡ size s + size t
size-append [] t = rw nil-append (omega arith)
size-append (c ∷ s) t = rw cons-append (omega (arith, size-append s t))

pub size-take : (n : ℕ) (s : String) → n ≤ size s → size (take n s) ≡ n
size-take zero s h = refl
size-take (suc n) [] h = absurd (omega arith)
size-take (suc n) (c ∷ s) h = omega (arith, size-take n s)

step : (n i : ℕ) → suc (n + i) ≡ suc n + i
step n i = omega arith

pub char_at-drop : (n i : ℕ) (s : String) → char_at (drop n s) i ≡ char_at s (n + i)
char_at-drop zero i s = ap (char_at s) (omega arith)
char_at-drop (suc n) i [] = refl
char_at-drop (suc n) i (c ∷ s) = char_at-drop n i s ∙ ap (char_at (c ∷ s)) (step n i)

drop-nil : (n : ℕ) → drop n "" ≡ ""
drop-nil zero = refl
drop-nil (suc n) = refl

pub drop-drop : (m n : ℕ) (s : String) → drop m (drop n s) ≡ drop (n + m) s
drop-drop m zero s = ap (λ k. drop k s) (omega arith)
drop-drop m (suc n) [] = drop-nil m ∙ sym (drop-nil (suc n + m))
drop-drop m (suc n) (c ∷ s) = drop-drop m n s ∙ ap (λ k. drop k (c ∷ s)) (step n m)

-- A text around a dash.
pub cut : (n : ℕ) (s : String) → char_at s n ≡ 45 → s ≡ take n s ++ ("-" ++ drop (suc n) s)
cut n [] h = absurd (omega (arith, h))
cut zero (c ∷ s) h =
    let dash : c ≡ "-" = char_of_code c "-" h in rw (dash, nil-append, cons-append, nil-append) refl
cut (suc n) (c ∷ s) h =
    ap (λ t. c ∷ t) (cut n s h) ∙ sym (cons-append c (take n s) ("-" ++ drop (suc n) s))

pub size-drop : (n : ℕ) (s : String) → size (drop n s) ≡ size s - n
size-drop zero s = omega arith
size-drop (suc n) [] = omega arith
size-drop (suc n) (c ∷ s) = omega (arith, size-drop n s)

pub take-all : (n : ℕ) (s : String) → size s ≡ n → take n s ≡ s
take-all zero [] h = refl
take-all zero (c ∷ s) h = absurd (omega arith)
take-all (suc n) [] h = refl
take-all (suc n) (c ∷ s) h = ap (λ t. c ∷ t) (take-all n s (omega (arith, h)))

pub take-append : (s t : String) → take (size s) (s ++ t) ≡ s
take-append [] t = refl
take-append (c ∷ s) t = rw cons-append (ap (λ u. c ∷ u) (take-append s t))

pub drop-append : (s t : String) → drop (size s) (s ++ t) ≡ t
drop-append [] t = nil-append t
drop-append (c ∷ s) t = rw cons-append (drop-append s t)

abbrev starts : Option String → Bool
starts none = false
starts (some rest) = true

abbrev next_position : Option ℕ → Option ℕ
next_position none = none
next_position (some i) = some (suc i)

-- `s.find(pattern)` for a pattern that is not empty: where it first stands, or `none` for `npos`
unfoldable pub find : String → String → Option ℕ
unfolding strip_prefix
find pattern [] = none
find pattern (c ∷ s) =
    if starts (strip_prefix pattern (c ∷ s)) then some 0 else next_position (find pattern s)

abbrev pub moved : ℕ → Option ℕ → Option ℕ
moved start none = none
moved start (some i) = some (start + i)

-- `s.find(pattern, start)`
abbrev pub find_from : String → String → ℕ → Option ℕ
find_from pattern s start = moved start (find pattern (drop start s))

pub drop-at : (n : ℕ) (a b s : String) → s ≡ a ++ b → n ≡ size a → drop n s ≡ b
drop-at n a b s h e = ap (λ k. drop k s) e ∙ ap (drop (size a)) h ∙ drop-append a b

pub take-at : (n : ℕ) (a b s : String) → s ≡ a ++ b → n ≡ size a → take n s ≡ a
take-at n a b s h e = ap (λ k. take k s) e ∙ ap (take (size a)) h ∙ take-append a b
