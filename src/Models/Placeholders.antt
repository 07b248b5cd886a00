-- ===== src/Models/Placeholders.antt =====
-- models/: the numbered placeholders of an insert and the arguments that are bound for them.
use drogon_api_starter.Prelude.{
  ℕ, suc, ◌+◌, ◌≡◌, refl, String, Bool, true, false, List, [], ◌∷◌, arith, length, map, count,
  if◌then◌else◌,
}
use drogon_api_starter.Models.Column.{MetaData, dirty_entries, argument_of}
use drogon_api_starter.Models.Insertion.{numbered}

abbrev flag_of {ℓ} : {A : Type ℓ} → Bool × A → Bool
flag_of (dirty, a) = dirty

numbered-count : (n : ℕ) (xs : List (Bool × String)) → length (numbered n xs) ≡ count flag_of xs
numbered-count n [] = refl
numbered-count n ((true, name) ∷ xs) = omega (arith, numbered-count (suc n) xs)
numbered-count n ((false, name) ∷ xs) = omega (arith, numbered-count n xs)

dirty_entries-count {ℓ} :
    {A : Type ℓ} (ms : List MetaData) (xs : List (Bool × A))
    → length ms ≡ length xs
    → length (map argument_of (dirty_entries ms xs)) ≡ count flag_of xs
dirty_entries-count [] [] h = refl
dirty_entries-count [] (x ∷ xs) h = omega (arith, h)
dirty_entries-count (m ∷ ms) [] h = omega (arith, h)
dirty_entries-count (m ∷ ms) ((true, a) ∷ xs) h =
    let rest = dirty_entries-count ms xs (omega (arith, h)) in omega (arith, rest)
dirty_entries-count (m ∷ ms) ((false, a) ∷ xs) h =
    let rest = dirty_entries-count ms xs (omega (arith, h)) in omega (arith, rest)

-- As many arguments are bound as the statement has numbered placeholders.
pub placeholders_bound {ℓ} :
    {A : Type ℓ} (ms : List MetaData) (dirty : Bool) (xs : List (Bool × A)) (n : ℕ)
    (ys : List (Bool × String))
    → length ms ≡ length xs
    → count flag_of xs ≡ (if dirty then 1 else 0) + count flag_of ys
    → length (map argument_of (dirty_entries ms xs))
      ≡ (if dirty then 1 else 0) + length (numbered n ys)
placeholders_bound ms dirty xs n ys h same =
    let bound = dirty_entries-count ms xs h in
    let placed = numbered-count n ys in omega (arith, bound, placed, same)
