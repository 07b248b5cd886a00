-- ===== src/Pagination/Keys.antt =====
-- The keys under which pages are cached.
use text.Mathlib.TextLemmas.{nil-append, cons-append, append_cancel_left, append_assoc}
use Prim.Native.String.{[], ◌∷◌}
use drogon_api_starter.Prelude.{ℕ, ◌≡◌, refl, sym, ap, ◌∙◌, String, Option, none, some}
use drogon_api_starter.Text.{◌++◌, split_at, split_at-append}
use drogon_api_starter.Text.Number.{to_string, to_string-Lacks, to_string-injective}
use drogon_api_starter.Pagination.{PageRequest, cache_key}

colon : (s : String) → ":" ++ s ≡ (◌∷◌ ":" s)
colon s = cons-append ":" [] s ∙ ap (◌∷◌ ":") (nil-append s)

-- The part of a key behind the resource's name, split at the colon between its numbers.
split_page :
    (n : ℕ) (rest : String) → split_at b':' (to_string n ++ ":" ++ rest) ≡ some (to_string n, rest)
split_page n rest =
    rw (colon rest) (split_at-append ":" (to_string n) rest (to_string-Lacks b':' n refl))

abbrev first_of_pair : String → Option (String × String) → String
first_of_pair d none = d
first_of_pair d (some (a, b)) = a

abbrev second_of_pair : String → Option (String × String) → String
second_of_pair d none = d
second_of_pair d (some (a, b)) = b

numbers_eq :
    (m n : ℕ) (s t : String) → to_string m ++ ":" ++ s ≡ to_string n ++ ":" ++ t → (m ≡ n) × (s ≡ t)
numbers_eq m n s t h =
    let pairs : some (to_string m, s) ≡ some (to_string n, t) =
      sym (split_page m s) ∙ ap (split_at b':') h ∙ split_page n t in
    (to_string-injective m n (ap (first_of_pair "") pairs), ap (second_of_pair "") pairs)

size_colon : (t : String) → ":size=" ++ t ≡ ":" ++ "size=" ++ t
size_colon t = append_assoc ":" "size=" t

-- Different pages of one resource have different keys.
pub cache_key-injective :
    (resource : String) (r r' : PageRequest)
    → cache_key r resource ≡ cache_key r' resource
    → (r.page ≡ r'.page) × (r.page_size ≡ r'.page_size)
unfolding cache_key
cache_key-injective resource r r' h =
    let tails : ":page=" ++ to_string r.page ++ ":size=" ++ to_string r.page_size
        ≡ ":page=" ++ to_string r'.page ++ ":size=" ++ to_string r'.page_size =
      append_cancel_left resource _ _ h in
    let (pages, sizes) =
      numbers_eq r.page r'.page ("size=" ++ to_string r.page_size)
        ("size=" ++ to_string r'.page_size)
        (sym (ap (λ t. to_string r.page ++ t) (size_colon (to_string r.page_size)))
          ∙ append_cancel_left ":page=" _ _ tails
          ∙ ap (λ t. to_string r'.page ++ t) (size_colon (to_string r'.page_size))) in
    (pages, to_string-injective _ _ (append_cancel_left "size=" _ _ sizes))
