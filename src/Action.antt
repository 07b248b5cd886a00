-- ===== src/Action.antt =====
-- Code that changes state and may throw: a function of the state that returns a result and the state
-- it leaves behind, which an exception does not undo.
use drogon_api_starter.Prelude.{String, ◌≡◌, if◌then◌else◌}
use drogon_api_starter.Result.{
  Exception, invalid_argument, std_exception, foreign, Result, ok, err, is_std_exception,
}

abbrev pub Action : Type 0 → Type 0 → Type 0
Action S A = S → Result A × S

module _ {S A : Type 0} where
  abbrev pub done : A → Action S A
  done a s = (ok a, s)

  abbrev pub raise : Exception → Action S A
  raise e s = (err e, s)

  -- A computation that only throws.
  abbrev pub lift : Result A → Action S A
  lift r s = (r, s)

  -- A `try` with its handlers: the state is the one that the exception found.
  abbrev pub handled : (Exception → Action S A) → Result A × S → Result A × S
  handled handler (ok a, s) = (ok a, s)
  handled handler (err e, s) = handler e s

  abbrev pub try_catch : Action S A → (Exception → Action S A) → Action S A
  try_catch body handler s = handled handler (body s)

  -- `catch (const std::exception&)`; what else is thrown goes on.
  abbrev pub on_std_exception : Action S A → Exception → Action S A
  on_std_exception handler e s = if is_std_exception e then handler s else (err e, s)

  -- The same, with `e.what()` passed on.
  abbrev pub on_std_exception_what : (String → Action S A) → Exception → Action S A
  on_std_exception_what handler (invalid_argument what) s = handler what s
  on_std_exception_what handler (std_exception what) s = handler what s
  on_std_exception_what handler foreign s = (err foreign, s)

  -- `catch (const std::invalid_argument&)` before the other handlers.
  abbrev pub on_invalid_argument :
      (String → Action S A) → (Exception → Action S A) → Exception → Action S A
  on_invalid_argument handler others (invalid_argument what) s = handler what s
  on_invalid_argument handler others (std_exception what) s = others (std_exception what) s
  on_invalid_argument handler others foreign s = others foreign s

abbrev pub continue : {S A B : Type 0} → (A → Action S B) → Result A × S → Result B × S
continue f (ok a, s) = f a s
continue f (err e, s) = (err e, s)

infixl 5 ◌>>=◌
abbrev pub ◌>>=◌ : {S A B : Type 0} → Action S A → (A → Action S B) → Action S B
m >>= f = λ s. continue f (m s)

pub ok-injective :
    {S A : Type 0} {a b : A} {s t : S} → Path (Result A × S) (ok a, s) (ok b, t) → (a ≡ b) × (s ≡ t)
ok-injective h = (cc, cc)

pub err-ne-ok :
    {S A : Type 0} {e : Exception} {b : A} {s t : S} → Path (Result A × S) (err e, s) (ok b, t) → ⊥
err-ne-ok h = cc
