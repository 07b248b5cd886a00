-- ===== src/Text/Bytes.antt =====
-- What the source uses of std::string: a text is a `String` whose characters stand for bytes.
use Prim.Native.Char.{Char, code}
use Prim.Native.String
use Prim.Native.String.{[], ◌∷◌}
use text.Mathlib.TextEquality.{codes_equal}
use text.Mathlib.TextPositions.{compare_self}
use text.Mathlib.TextLemmas.{nil-append, cons-append}
use drogon_api_starter.Prelude.{
  ℕ, suc, ◌≡◌, ◌≢◌, refl, ap, sym, ◌∙◌, String, Bool, true, false, Option, none, some, arith, ◌==◌,
  if◌then◌else◌, Bool-cases, inl, inr,
}

infixr 67 ◌++◌
abbrev pub ◌++◌ : String → String → String
s ++ t = String.◌++◌ s t

-- `s.empty()`
abbrev pub is_empty : String → Bool
is_empty [] = true
is_empty (c ∷ s) = false

-- `s.size()`
abbrev pub size : String → ℕ
size [] = 0
size (c ∷ s) = suc (size s)

abbrev before_after : Char → Option (String × String) → Option (String × String)
before_after c none = none
before_after c (some (before, after)) = some (c ∷ before, after)

-- `s.find(c)` with the two `substr` calls around it: what stands before the first such character and
-- what stands after it, or `none` for `npos`.
unfoldable pub split_at : ℕ → String → Option (String × String)
split_at c [] = none
split_at c (d ∷ s) = if code d == c then some ([], s) else before_after d (split_at c s)

-- No character of the text is `c`.
abbrev pub Lacks : ℕ → String → Type 0
Lacks c [] = Unit
Lacks c (d ∷ s) = (code d ≢ c) × Lacks c s

pub split_at-append :
    (c : Char) (s t : String) → Lacks (code c) s → split_at (code c) (s ++ (c ∷ t)) ≡ some (s, t)
unfolding split_at
split_at-append c [] t h = rw nil-append (ground arith)
split_at-append c (d ∷ s) t (p, h) = rw cons-append (ground (arith, split_at-append c s t h))

-- `s.compare(0, n, prefix) == 0` for a prefix of length `n`, with the rest `s.substr(n)`.
unfoldable pub strip_prefix : String → String → Option String
strip_prefix [] s = some s
strip_prefix (c ∷ prefix) [] = none
strip_prefix (c ∷ prefix) (d ∷ s) = if code c == code d then strip_prefix prefix s else none

-- `s.resize(s.length() - 1)`
unfoldable pub drop_last : String → String
drop_last [] = []
drop_last (c ∷ []) = []
drop_last (c ∷ d ∷ s) = c ∷ drop_last (d ∷ s)

pub drop_last-append : (c : Char) (s : String) → drop_last (s ++ (c ∷ [])) ≡ s
unfolding drop_last
drop_last-append c [] = rw nil-append refl
drop_last-append c (d ∷ []) = rw (cons-append, nil-append) refl
drop_last-append c (d ∷ e ∷ s) =
    rw (cons-append, cons-append)
      (ap (λ t. d ∷ t) (ap drop_last (sym (cons-append e s (c ∷ []))) ∙ drop_last-append c (e ∷ s)))

pub strip_prefix-append : (p s : String) → strip_prefix p (p ++ s) ≡ some s
unfolding strip_prefix
strip_prefix-append [] s = rw nil-append refl
strip_prefix-append (c ∷ p) s = rw cons-append (ground (arith, strip_prefix-append p s))

pub char_of_code : (c d : Char) → code c ≡ code d → c ≡ d
char_of_code c d h = codes_equal c d (rw h (compare_self (code d)))

before_after-some :
    (d : Char) (o : Option (String × String)) {x y : String}
    → before_after d o ≡ some (x, y)
    → (b : String) × (o ≡ some (b, y)) × (x ≡ d ∷ b)
before_after-some d none h = absurd (cc)
before_after-some d (some (b, a)) h = (b, cc, cc)

-- What `split_at` found stands around the character.
pub split_at-eq :
    (c : Char) (s : String) {before after : String}
    → split_at (code c) s ≡ some (before, after)
    → s ≡ before ++ (c ∷ after)
unfolding split_at
split_at-eq c [] h = absurd (cc)
split_at-eq c (d ∷ s) {before} {after} h = elim (Bool-cases (code d == code c)) [
  | inl e ↦
      let same : d ≡ c = char_of_code d c (ground arith) in
      let split : Path (Option (String × String)) (some ([], s)) (some (before, after)) =
        rw e at h in
      let first : before ≡ [] = cc in
      let last : after ≡ s = cc in rw (first, last, nil-append, same) refl
  | inr e ↦
      let (b, split, first) = before_after-some d (split_at (code c) s) (rw e at h) in
      rw (first, cons-append) (ap (λ t. d ∷ t) (split_at-eq c s split))
]
