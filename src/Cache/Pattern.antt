-- ===== src/Cache/Pattern.antt =====
-- The pattern of `keys(prefix + "*")` in cache/RedisCache.cc: Redis gives some characters of it a
-- meaning.
use Prim.Native.Char.{code}
use Prim.Native.String.{[], ◌∷◌}
use drogon_api_starter.Prelude.{ℕ, String, Bool, true, not, ◌==◌, ◌&&◌, ◌||◌}

-- `*`, `?`, `[` and the backslash
abbrev has_meaning : ℕ → Bool
has_meaning c = c == b'*' || c == b'?' || c == b'[' || c == 92

-- A prefix that KEYS takes literally in front of the `*`.
abbrev pub is_plain : String → Bool
is_plain [] = true
is_plain (c ∷ s) = not (has_meaning (code c)) && is_plain s
