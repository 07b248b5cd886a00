-- ===== src/Cache/Laws.antt =====
-- cache/RedisCache.cc: the cache never makes a request fail, whatever Redis does.
use drogon_api_starter.Prelude.{
  ℕ, ◌≡◌, refl, String, Bool, true, false, if◌then◌else◌, none, List, [], ◌∷◌, Bool-cases, inl, inr,
}
use drogon_api_starter.Result.{Result, ok, err, is_std_exception}
use drogon_api_starter.Action.{Action, done, continue, handled, on_std_exception}
use drogon_api_starter.Cache.{RedisLib, client, get, set, erase, erase_all, erase_prefix}

-- What a call throws is below std::exception.
abbrev pub OnlyStd : {S A : Type 0} → Result A × S → Type 0
OnlyStd (ok a, s) = Unit
OnlyStd (err e, s) = is_std_exception e ≡ true

-- drogon documents RedisException and std::runtime_error for its client and for a result of the wrong
-- kind.
pub record ThrowsStd (lib : RedisLib) : Type 0 where
  pub get_client-std : (r : lib.Redis) → OnlyStd (lib.get_client r, r)
  pub get-std : (key : String) (r : lib.Redis) → OnlyStd (lib.get_command key r)
  pub setex-std :
      (key : String) (seconds : ℕ) (value : String) (r : lib.Redis)
      → OnlyStd (lib.setex_command key seconds value r)
  pub del-std : (key : String) (r : lib.Redis) → OnlyStd (lib.del_command key r)
  pub keys-std : (prefix : String) (r : lib.Redis) → OnlyStd (lib.keys_command prefix r)

-- A call came back with a value: it threw nothing.
abbrev pub Returns : {S A : Type 0} → Result A × S → Type 0
Returns {S} {A} m = (a : A) × (s : S) × (m ≡ (ok a, s))

try-Returns :
    {S A : Type 0} (d : A) (m : Result A × S)
    → OnlyStd m
    → Returns (handled (on_std_exception (done d)) m)
try-Returns d (ok a, s) h = (a, s, refl)
try-Returns d (err e, s) h = rw h (d, s, refl)

continue-Returns :
    {S A B : Type 0} (f : A → Action S B) (m : Result A × S)
    → Returns m
    → ((a : A) (s : S) → Returns (f a s))
    → Returns (continue f m)
continue-Returns f m (a, s, e) h = rw e (h a s)

pub continue-OnlyStd :
    {S A B : Type 0} (f : A → Action S B) (m : Result A × S)
    → OnlyStd m
    → ((a : A) (s : S) → OnlyStd (f a s))
    → OnlyStd (continue f m)
continue-OnlyStd f (ok a, s) h g = g a s
continue-OnlyStd f (err e, s) h g = h

pub OnlyStd-Returns : {S A : Type 0} (m : Result A × S) → Returns m → OnlyStd m
OnlyStd-Returns m (a, s, e) = rw e tt

module _ (lib : RedisLib) (enabled : Bool) (std : ThrowsStd lib) where
  client-Returns : (r : lib.Redis) → Returns (client lib enabled r)
  unfolding client
  client-Returns r = elim (Bool-cases enabled) [
    | inl e ↦ rw e (try-Returns false (lib.get_client r, r) (std.get_client-std r))
    | inr e ↦ rw e (false, r, refl)
  ]

  guarded :
      {A : Type 0} (d : A) (body : Action lib.Redis A)
      → ((s : lib.Redis) → OnlyStd (body s))
      → (redis : Bool) (s : lib.Redis)
      → Returns ((if redis then (λ s. handled (on_std_exception (done d)) (body s)) else done d) s)
  guarded d body h true s = try-Returns d (body s) (h s)
  guarded d body h false s = (d, s, refl)

  -- What an operation does with the client: nothing without one, else a command under a `try`.
  with_client :
      {A : Type 0} (d : A) (body : Action lib.Redis A) (r : lib.Redis)
      → ((s : lib.Redis) → OnlyStd (body s))
      → Returns (
          continue
            (λ redis. if redis then (λ s. handled (on_std_exception (done d)) (body s)) else done d)
            (client lib enabled r))
  with_client d body r h = continue-Returns _ _ (client-Returns r) (guarded d body h)

  erase-Returns : (key : String) (r : lib.Redis) → Returns (erase lib enabled key r)
  unfolding erase
  erase-Returns key r = with_client tt (lib.del_command key) r (std.del-std key)

  erase_all-Returns : (keys : List String) (r : lib.Redis) → Returns (erase_all lib enabled keys r)
  unfolding erase_all
  erase_all-Returns [] r = (tt, r, refl)
  erase_all-Returns (key ∷ keys) r =
      continue-Returns _ _ (erase-Returns key r) (λ _ s. erase_all-Returns keys s)

  -- Every operation of cache/RedisCache.cc comes back, with the cache off as with it on, and whatever
  -- the client and the commands throw, as long as that is below std::exception.
  pub cache-Returns :
      (key value prefix : String) (ttl_seconds : ℕ) (r : lib.Redis)
      → Returns (get lib enabled key r)
        × Returns (set lib enabled key value ttl_seconds r)
        × Returns (erase lib enabled key r)
        × Returns (erase_prefix lib enabled prefix r)
  unfolding get set erase_prefix
  cache-Returns key value prefix ttl_seconds r = (
    with_client none _ r (λ s. continue-OnlyStd _ _ (std.get-std key s) (λ _ _. tt)),
    with_client tt (lib.setex_command key ttl_seconds value) r
        (std.setex-std key ttl_seconds value),
    erase-Returns key r,
    with_client tt _ r (λ s.
        continue-OnlyStd _ _ (std.keys-std prefix s)
          (λ keys t. OnlyStd-Returns _ (erase_all-Returns keys t))),
  )
