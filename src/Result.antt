-- ===== src/Result.antt =====
-- C++ exceptions as values. A handler `catch (const std::exception&)` takes the first two kinds,
-- and `catch (const std::invalid_argument&)` the first.
use drogon_api_starter.Prelude.{String, ◌≡◌, refl, Bool, true, false}

pub data Exception : Type 0 where
  -- std::invalid_argument, with its `what()`
  invalid_argument : String → Exception
  -- any other class below std::exception
  std_exception : String → Exception
  -- what does not derive from std::exception
  foreign : Exception

-- `catch (const std::invalid_argument&)` takes it.
abbrev pub is_invalid_argument : Exception → Bool
is_invalid_argument (invalid_argument what) = true
is_invalid_argument (std_exception what) = false
is_invalid_argument foreign = false

-- `catch (const std::exception&)` takes it.
abbrev pub is_std_exception : Exception → Bool
is_std_exception (invalid_argument what) = true
is_std_exception (std_exception what) = true
is_std_exception foreign = false

-- What a call of fallible code comes back with: the exception it threw, or its value.
pub data Result {ℓ} (V : Type ℓ) : Type ℓ where
  err : Exception → Result V
  ok : V → Result V

-- `if (failed) throw e;`
abbrev pub throw_if : Bool → Exception → Result (Unit {0})
throw_if false thrown = ok tt
throw_if true thrown = err thrown

infixl 5 ◌>>=◌
abbrev pub ◌>>=◌ {ℓ κ} : {V : Type ℓ} {W : Type κ} → Result V → (V → Result W) → Result W
err thrown >>= next = err thrown
ok value >>= next = next value

-- A chain that came to a value did so at both of its parts.
pub >>=-eq-ok {ℓ κ} :
    {V : Type ℓ} {W : Type κ} (first : Result V) (next : V → Result W) {w : W}
    → first >>= next ≡ ok w
    → (v : V) × (first ≡ ok v) × (next v ≡ ok w)
>>=-eq-ok (err thrown) next h = cc
>>=-eq-ok (ok value) next h = (value, refl, h)

infixl 5 ◌>>◌
abbrev pub ◌>>◌ {ℓ} : {W : Type ℓ} → Result (Unit {0}) → Result W → Result W
first >> rest = first >>= λ _. rest
